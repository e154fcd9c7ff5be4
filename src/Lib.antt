-- ===== src/Lib.antt =====
-- The traffic service: the web frontend, services/bff/traffic-frontend/src, with which drivers sign
-- in, search routes, book them for a time of departure and read what became of a booking, and the
-- two services that decide on bookings, services/booking-service and
-- services/conflict-detection-service.
--
-- Parts. The pages call the services through api/*.ts with the token of the store of
-- stores/driverStore.ts, and the guard and the bar look at the same store. The page for booking
-- keeps its places and time in the address, draws routes and segments with RouteMap.tsx and hands
-- the chosen route to RouteResultCard.tsx. The pages for bookings, the dashboard and the inbox
-- show the answers of the same queries. The booking service writes a booking and an event on
-- booking.created; the conflict detection service reserves a window of each segment of the route,
-- or none, and answers on route.assessed; the booking service sets the status and tells it on
-- booking.updated, as it does for a cancelled or expired booking, whose windows are released.
--
-- Base        JavaScript's strings, numerals, JSON, `URLSearchParams` and sorting; list functions
-- Datetime    lib/datetime.ts
-- Api         api/client.ts (Http), auth.ts, bookings.ts, messages.ts and routes.ts
-- Session     stores/driverStore.ts, components/ProtectedRoute.tsx and Navbar.tsx, the routes of
--             App.tsx, pages/Login and pages/Register; Reach has the steps of a session
-- RouteMap    components/RouteMap.tsx: Geometry, Features, Html, Layers,
--             SegmentLayers, Sync, Markers and Bounds (what the effect draws), Mounted (the
--             component with its events) and Following (its life)
-- BookRoute   pages/BookRoute: Params (the address), Departure, Selection, Windows, Card
-- LocationSearch, DatePicker   components/ui/LocationSearch.tsx and date-time-picker.tsx
-- Bookings    pages/Bookings/BookingsPage.tsx and components/StatusBadge.tsx
-- Dashboard   pages/Home/HomePage.tsx and pages/Inbox/InboxPage.tsx
-- Geocoding   api/geocoding.ts and components/LocationText.tsx
-- BookingService      services/booking-service/internal: the allowed changes of status, Rows (the
--                     queries of infrastructure/postgres), Service (application and the consumer
--                     of infrastructure/redisconsumer) and Handler (infrastructure/handler)
-- ConflictDetection   services/conflict-detection-service/src: Tables (the queries of
--                     infrastructure/postgres), Service (application/conflict_service.py),
--                     Endpoints (infrastructure/http) and Consumer (application/use_cases.py and
--                     infrastructure/consumer); OnMap has the frontend's map against Service
-- Assessment          both services with their streams: deliveries, and runs from the start
-- Tests       runs on small data
--
-- Correspondence. A function keeps the name it has in the source, in snake case. A handler is a
-- function from the state that it changes to the new one; a component is a function from its
-- properties, its state and the answers of its queries so far to a record of what it shows,
-- without class names and layout. An operation of a service is a function from its tables to the
-- new ones, and a transaction that fails leaves them as they are; a query is a function of rows. A
-- name that the frontend has too is shorter or longer here: `routes_availability` and
-- `segment_utilization` are the service's check_routes_availability and get_segment_utilization,
-- `create_new_booking` and `cancel_own_booking` its CreateBooking and CancelBooking. A promise is
-- the value that it settles to: `resolved` or `raised`. An object with unknown fields is JSON, an
-- optional field an `Option`.
--
-- Third-party code is a parameter: `fetch`, the router's matching, the rule checks of the form
-- library, the runtime's dates (`BookRoute.Departure.Dates`) and its reading and printing of
-- doubles (`Base.Double.FloatText`), and the map library (`RouteMap.Layers.MapApi`), with the
-- documented laws that the theorems use; for the services the reading and printing of times and
-- ids, and the supply of new ids, which gives none twice. Tests.Data, Tests.Tables and
-- Tests.Store have instances.
--
-- Bounds. A handler of a message is tried three times, as in the source, which is its fuel; in the
-- booking service each attempt can lose the database before its update or before its mark, which
-- are transactions of their own. Times are milliseconds since 1970 and numbers of seconds, places and reservations are whole and not
-- negative, so that a double holds them exactly; no arithmetic of the program leaves that range
-- for dates before the year 275760. `decimal` and the division of a route recurse on the number
-- itself, which bounds their rounds. Texts are lists of code units; upper and lower case are those
-- of ASCII.
--
-- Not modelled: the widgets of components/ui that only carry class names; the cache, retries and
-- polling of the query library beyond what the handlers say; the loops of the services that read a
-- stream, the batches and the cleaning of their relays and their dead-letter streams; a
-- transaction that overlaps with another one (get_capacities locks the rows of the segments that
-- it reads); an event that a relay publishes twice, beyond what Delivery says of it; the services
-- for drivers, messages and routes; and deployment.
pub mod Base
pub mod Datetime
pub mod Api
pub mod Session
pub mod RouteMap
pub mod BookRoute
pub mod LocationSearch
pub mod Bookings
pub mod BookingService
pub mod DatePicker
pub mod Dashboard
pub mod Geocoding
pub mod Tests
pub mod ConflictDetection
pub mod Assessment

-- ===== src/Api.antt =====
-- services/bff/traffic-frontend/src/api: the requests that the frontend sends to the services,
-- and what becomes of the answers. `fetch` is the runtime's and is an argument everywhere.
pub mod Http
pub mod Auth
pub mod Bookings
pub mod Messages
pub mod Routes
pub mod Errors
pub mod Refused
pub mod Credentials

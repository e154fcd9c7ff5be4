-- ===== src/BookRoute/Card.antt =====
-- RouteResultCard.tsx, and the part of BookRoutePage.tsx that keeps it: the card keeps its state
-- while the page shows some route.
use traffic_service.BookRoute.Departure.{Dates}
use traffic_service.Tests.Data.{dates}
use traffic_service.BookRoute.Selection.{selected_route_index, route_at, availability_of}
use traffic_service.BookRoute.Windows.{reservations_of}
use traffic_service.Api.Bookings.{BookingStatus, Booking, CreateBookingDto}
use traffic_service.Api.Http.{Failure, thrown, Outcome, resolved, raised}
use traffic_service.Api.Routes.{RouteResult, Segment, SegmentUtilization, RouteAvailability}
use traffic_service.Datetime.{short_id, format_duration}
use traffic_service.Base.{
  ltb, ◌==◌, if◌then◌else◌, ◌or_else◌, bind_some, Text, codes, ℕ, ◌+◌, ◌*◌, Bool, true, false, not,
  Option, none, some, List, [], ◌∷◌, map,
}

pub record CardState : Type 0 where
  pub booking_result : Option Booking
  pub booking_error : Option Failure
  pub is_booking : Bool

unfoldable pub new_card : CardState
new_card = record { booking_result = none; booking_error = none; is_booking = false }

-- `onSuccess` and `onError` of the booking, with the queries that a success marks as stale.
unfoldable pub booking_settled : Outcome Booking → CardState → CardState × List Text
booking_settled (resolved b) c = (
  record { booking_result = some b; booking_error = none; is_booking = false },
  codes "utilization" ∷ codes "availability" ∷ codes "bookings" ∷ [],
)
booking_settled (raised e) c =
    (record { booking_result = none; booking_error = some e; is_booking = false }, [])

-- What `handleBook` sends for the text of the departure that the page gives to the card; `none`
-- where it throws, since the text is no valid date.
unfoldable pub booking_dto : Dates → RouteResult → Text → Option CreateBookingDto
booking_dto dates route departure_time = elim (dates.parse_iso departure_time) [
  | none ↦ none
  | some departure ↦ some (record {
    route_id = route.route_id;
    departure_time = dates.to_iso departure;
    estimated_arrival = elim route.estimated_duration [
      | none ↦ none
      | some n ↦ if n == 0 then none else some (dates.to_iso (departure + n * 1000))
    ];
  })
]

-- The head of the card: the booking that was made, or the button, disabled while a booking is
-- made and for a route that is known to be full.
pub data Head : Type 0 where
  created : Text → BookingStatus → Head
  offer : Option Failure → Bool → Bool → Head

abbrev pub head_of : Option Booking → Option Failure → Bool → Option Bool → Head
head_of (some b) error busy free = created (short_id b.booking_id) b.status
head_of none error busy (some false) = offer error true true
head_of none error busy (some true) = offer error false busy
head_of none error busy none = offer error false busy

unfoldable pub card_head : CardState → Option Bool → Head
card_head c free = head_of c.booking_result c.booking_error c.is_booking free

-- The card's line for a segment; the capacity and the reservations are there together.
abbrev pub segment_line : List SegmentUtilization → Segment → Text × Text × Option (ℕ × ℕ)
segment_line answer seg = (
  seg.name,
  seg.region,
  elim seg.capacity [
    | none ↦ none
    | some cap ↦ some ((reservations_of answer seg.segment_id or_else 0), cap)
  ],
)

pub record CardView : Type 0 where
  pub head : Head
  pub route_ref : Text
  pub origin_text : Text
  pub destination_text : Text
  pub duration : Option Text
  pub segment_lines : List (Text × Text × Option (ℕ × ℕ))

unfoldable pub card_view :
    CardState
    → RouteResult
    → Option (List Segment)
    → List SegmentUtilization
    → Option Bool
    → CardView
unfolding card_head
card_view c route segments answer free = record {
  head = card_head c free;
  route_ref = short_id route.route_id;
  origin_text = route.origin;
  destination_text = route.destination;
  duration = elim route.estimated_duration [
    | none ↦ none
    | some n ↦ if n == 0 then none else some (format_duration n)
  ];
  segment_lines = map (segment_line answer) (segments or_else []);
}

-- The page as far as the card depends on it. `routes` is the answer to the last search, and is
-- missing while a search runs and after one that failed.
pub record Planner : Type 0 where
  pub routes : Option (List RouteResult)
  pub answer : Option (List RouteAvailability)
  pub user_selected : Option ℕ
  pub card : CardState

unfoldable pub shown_route : Planner → Option RouteResult
shown_route p = route_at p.routes (selected_route_index p.user_selected p.routes p.answer)

-- A page that shows no route has no card; a new one begins with the next route.
abbrev pub keep_card : Option RouteResult → Planner → Planner
keep_card none p = record p {
  card = record { booking_result = none; booking_error = none; is_booking = false };
}
keep_card (some r) p = p

unfoldable pub render_card : Planner → Planner
render_card p = keep_card (shown_route p) p

-- The search begins and has an answer, the availability arrives, and a row of the list is clicked.
unfoldable pub start_search : Planner → Planner
unfolding render_card
start_search p = render_card (record p { routes = none; answer = none })

unfoldable pub search_settled : Outcome (List RouteResult) → Planner → Planner
unfolding render_card
search_settled (resolved rs) p = render_card (record p { routes = some rs; user_selected = none })
search_settled (raised e) p = render_card (record p { routes = none })

unfoldable pub availability_arrives : List RouteAvailability → Planner → Planner
unfolding render_card
availability_arrives as' p = render_card (record p { answer = some as' })

unfoldable pub select_row : ℕ → Planner → Planner
unfolding render_card
select_row i p = render_card (record p { user_selected = some i })

-- `routeAvailable`
abbrev pub route_available : Planner → Option Bool
route_available p =
    bind_some (shown_route p)
      (λ (r : RouteResult). availability_of (p.answer or_else []) r.route_id)

-- A press of the button, which does nothing where there is none or it is disabled.
abbrev pub can_press : Head → Bool
can_press (created ref status) = false
can_press (offer error full disabled) = not disabled

-- The order that a press sends, of the page's departure: `none` where nothing is sent.
unfoldable pub sent_order : Dates → ℕ → Planner → Option CreateBookingDto
unfolding shown_route booking_dto card_head
sent_order dates departure p =
    if can_press (card_head p.card (route_available p))
    then bind_some (shown_route p)
        (λ (r : RouteResult). booking_dto dates r (dates.to_iso departure))
    else none

abbrev pub press_if : Bool → Planner → Planner
press_if true p = record p {
  card = record {
    booking_result = p.card.booking_result;
    booking_error = p.card.booking_error;
    is_booking = true;
  };
}
press_if false p = p

unfoldable pub press_book : Planner → Planner
press_book p = press_if (can_press (card_head p.card (route_available p))) p

-- The outcome of a booking; it reaches the card only while that card waits for it, and so not a
-- card that came up in the meantime.
abbrev pub settle_if : Bool → Outcome Booking → Planner → Planner
settle_if true o p = render_card (record p { card = (booking_settled o p.card).0 })
settle_if false o p = p

unfoldable pub book_settles : Outcome Booking → Planner → Planner
book_settles o p = settle_if p.card.is_booking o p

-- `retry` of the search, and what is said of its failure; `includes` is the text search.
unfoldable pub retry_search : (Text → Text → Bool) → ℕ → Failure → Bool
retry_search includes failure_count (thrown m) =
    if includes m (codes "No route found") then false else ltb failure_count 2
retry_search includes failure_count e = ltb failure_count 2

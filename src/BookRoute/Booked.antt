-- ===== src/BookRoute/Booked.antt =====
-- RouteResultCard.tsx: what a booking sends, and what the card shows afterwards.
use traffic_service.BookRoute.Selection.{selected_route_index, route_at}
use traffic_service.Datetime.{short_id}
use traffic_service.BookRoute.Departure.{Dates}
use traffic_service.BookRoute.Card.{
  CardState, booking_dto, Planner, shown_route, render_card, start_search, search_settled,
  availability_arrives, select_row, book_settles, new_card, booking_settled, created, offer,
  card_head, keep_card, head_of, route_available, press_book, can_press, press_if, settle_if,
  sent_order,
}
use traffic_service.Api.Bookings.{Booking, CreateBookingDto}
use traffic_service.Api.Http.{Outcome, Failure, resolved, raised}
use traffic_service.Api.Routes.{RouteResult, RouteAvailability}
use traffic_service.Base.{
  ◌==◌, Bool-cases, Option-cases, bind_some, Text, ℕ, ◌+◌, ◌*◌, ◌<◌, ◌≡◌, refl, ◌≢◌, ◌↔◌, ◌⊎◌, inl,
  inr, Bool, true, false, Option, none, some, List, [], ◌∷◌, arith,
}

-- What an order says: the route, the departure, and an arrival exactly where the route has an
-- estimated duration other than 0, at the departure and that many seconds.
abbrev pub Orders : Dates → ℕ → RouteResult → CreateBookingDto → Type 0
Orders dates departure route dto =
    (dto.route_id ≡ route.route_id)
    × (dates.parse_iso dto.departure_time ≡ some departure)
    × ((a : ℕ)
        → (bind_some dto.estimated_arrival dates.parse_iso ≡ some a)
          ↔ ((n : ℕ) × (0 < n) × (route.estimated_duration ≡ some n) × (a ≡ departure + n * 1000)))

booking_dto-Orders :
    (dates : Dates) (route : RouteResult) (departure : ℕ)
    → (dto : CreateBookingDto) × (booking_dto dates route (dates.to_iso departure) ≡ some dto)
      × Orders dates departure route dto
unfolding booking_dto
booking_dto-Orders dates route departure =
    let valid = dates.parse-iso departure in
    let order : Option Text → CreateBookingDto = λ arrival. record {
      route_id = route.route_id;
      departure_time = dates.to_iso departure;
      estimated_arrival = arrival;
    } in
    elim (Option-cases route.estimated_duration) [
      | inl e ↦ (
        order none,
        rw (booking_dto, valid) (rw e refl),
        (refl, valid, λ a. rw e ((λ h. cc), (λ (n, pos, same, sum). cc))),
      )
      | inr (n, e) ↦ elim (Bool-cases (n == 0)) [
        | inl zero_long ↦ (
          order none,
          rw (booking_dto, valid) (rw e (rw zero_long refl)),
          (
            refl,
            valid,
            λ a.
                rw e (
                  (λ h. cc),
                  (λ (m, pos, same, sum). absurd (ground (arith, zero_long, pos, same))),
                ),
          ),
        )
        | inr lasting ↦ (
          order (some (dates.to_iso (departure + n * 1000))),
          rw (booking_dto, valid) (rw e (rw lasting refl)),
          (
            refl,
            valid,
            λ a. rw e (
                rw (dates.parse-iso (departure + n * 1000)) (
                  (λ h. (n, ground (arith, lasting), refl, ground (arith, h))),
                  (λ (m, pos, same, sum). ground (arith, same, sum)),
                )),
          ),
        )
      ]
    ]

-- A card with a booking holds no error and waits for no other booking.
abbrev pub IsSettled : CardState → Type 0
IsSettled c = (c.booking_result ≡ none) ⊎ ((c.booking_error ≡ none) × (c.is_booking ≡ false))

-- One event of the page.
pub data Event : Type 0 where
  searches : Event
  finds : Outcome (List RouteResult) → Event
  learns : List RouteAvailability → Event
  selects : ℕ → Event
  presses : Event
  books : Outcome Booking → Event

unfoldable pub on_event : Event → Planner → Planner
on_event searches = start_search
on_event (finds o) = search_settled o
on_event (learns answer) = availability_arrives answer
on_event (selects i) = select_row i
on_event presses = press_book
on_event (books o) = book_settles o

unfoldable pub after : List Event → Planner → Planner
after [] p = p
after (e ∷ es) p = after es (on_event e p)

keep_card-IsSettled :
    (r : Option RouteResult) (p : Planner) → IsSettled p.card → IsSettled (keep_card r p).card
keep_card-IsSettled none p h = inl refl
keep_card-IsSettled (some r) p h = h

booking_settled-IsSettled :
    (o : Outcome Booking) (c : CardState) → IsSettled (booking_settled o c).0
unfolding booking_settled
booking_settled-IsSettled (resolved b) c = inr (refl, refl)
booking_settled-IsSettled (raised e) c = inl refl

can_press-none :
    (result : Option Booking) (error : Option Failure) (busy : Bool) (free : Option Bool)
    → can_press (head_of result error busy free) ≡ true
    → result ≡ none
can_press-none none error busy free h = refl
can_press-none (some b) error busy free h = ground (arith, h)

can_press-cases :
    (result : Option Booking) (error : Option Failure) (busy : Bool) (free : Option Bool)
    → ((can_press (head_of result error busy free) ≡ true)
        × (result ≡ none)
        × (busy ≡ false)
        × (free ≢ some false))
      ⊎ ((can_press (head_of result error busy free) ≡ false)
          × (((b : Booking) × (result ≡ some b)) ⊎ (busy ≡ true) ⊎ (free ≡ some false)))
can_press-cases (some b) error busy free = inr (refl, inl (b, refl))
can_press-cases none error busy (some false) = inr (refl, inr (inr refl))
can_press-cases none error true (some true) = inr (refl, inr (inl refl))
can_press-cases none error true none = inr (refl, inr (inl refl))
can_press-cases none error false (some true) = inl (refl, refl, refl, λ e. cc)
can_press-cases none error false none = inl (refl, refl, refl, λ e. cc)

press_if-IsSettled :
    (pressed : Bool) (p : Planner)
    → (pressed ≡ true → p.card.booking_result ≡ none)
    → IsSettled p.card
    → IsSettled (press_if pressed p).card
press_if-IsSettled true p fresh_card h = inl (fresh_card refl)
press_if-IsSettled false p fresh_card h = h

settle_if-IsSettled :
    (waits : Bool) (o : Outcome Booking) (p : Planner)
    → IsSettled p.card
    → IsSettled (settle_if waits o p).card
unfolding render_card
settle_if-IsSettled true o p h = keep_card-IsSettled _ _ (booking_settled-IsSettled o p.card)
settle_if-IsSettled false o p h = h

on_event-IsSettled : (e : Event) (p : Planner) → IsSettled p.card → IsSettled (on_event e p).card
unfolding on_event start_search search_settled availability_arrives select_row book_settles
    render_card press_book card_head
on_event-IsSettled searches p h = keep_card-IsSettled _ _ h
on_event-IsSettled (finds (resolved rs)) p h = keep_card-IsSettled _ _ h
on_event-IsSettled (finds (raised f)) p h = keep_card-IsSettled _ _ h
on_event-IsSettled (learns answer) p h = keep_card-IsSettled _ _ h
on_event-IsSettled (selects i) p h = keep_card-IsSettled _ _ h
on_event-IsSettled presses p h =
    press_if-IsSettled _ p
      (can_press-none p.card.booking_result p.card.booking_error p.card.is_booking
        (route_available p))
      h
on_event-IsSettled (books o) p h = settle_if-IsSettled p.card.is_booking o p h

-- A card that holds a booking holds no error and waits for no other booking, and so it is after
-- any events, such as presses of its button, answers in any order and new searches.
pub after-IsSettled :
    (es : List Event) (p : Planner) → IsSettled p.card → IsSettled (after es p).card
unfolding after
after-IsSettled [] p h = h
after-IsSettled (e ∷ es) p h = after-IsSettled es (on_event e p) (on_event-IsSettled e p h)

-- A new search, and one that failed, leave a new card; so a booking made before is not shown with
-- the routes of a later search.
pub search_resets :
    (p : Planner) (f : Failure)
    → ((start_search p).card ≡ new_card)
      × ((search_settled (raised f) p).card ≡ new_card)
      × (shown_route (start_search p) ≡ none)
unfolding start_search search_settled render_card shown_route route_at new_card
search_resets p f = (refl, refl, refl)

-- A booking that is made while a route is shown stays on the card when another route is selected:
-- the card of that route then shows the booking of the first one and offers no button.
pub select_row-stale :
    (p : Planner) (b : Booking) (i : ℕ) (r r' : RouteResult) (free : Option Bool)
    → p.card.is_booking ≡ true
    → shown_route p ≡ some r
    → route_at p.routes i ≡ some r'
    → let q = select_row i (book_settles (resolved b) p) in
      (shown_route q ≡ some r') × (card_head q.card free ≡ created (short_id b.booking_id) b.status)
unfolding select_row book_settles render_card shown_route booking_settled selected_route_index
    card_head
select_row-stale p b i r r' free waits shows there = rw waits (rw shows (rw there (there, refl)))

head_of-enabled :
    (result : Option Booking) (error : Option Failure) (busy : Bool) (free : Option Bool)
    → ((e : Option Failure) × (full : Bool) × (head_of result error busy free ≡ offer e full false))
      ↔ ((result ≡ none) × (busy ≡ false) × (free ≢ some false))
head_of-enabled (some b) error busy free = ((λ h. cc (h.2)), (λ h. cc (h.0)))
head_of-enabled none error busy (some false) = ((λ h. cc (h.2)), (λ h. absurd (h.2 refl)))
head_of-enabled none error true (some true) = ((λ h. cc (h.2)), (λ h. cc (h.1)))
head_of-enabled none error false (some true) =
    ((λ h. (refl, refl, λ e. cc)), (λ h. (error, false, refl)))
head_of-enabled none error true none = ((λ h. cc (h.2)), (λ h. cc (h.1)))
head_of-enabled none error false none = ((λ h. (refl, refl, λ e. cc)), (λ h. (error, false, refl)))

-- On a card with no booking the button can be pressed exactly when no booking is being made and
-- the route is not known to be full; with a booking there is no button.
pub card_head-enabled :
    (c : CardState) (free : Option Bool)
    → ((error : Option Failure) × (full : Bool) × (card_head c free ≡ offer error full false))
      ↔ ((c.booking_result ≡ none) × (c.is_booking ≡ false) × (free ≢ some false))
unfolding card_head
card_head-enabled c free = head_of-enabled c.booking_result c.booking_error c.is_booking free

-- A press of the button sends an order exactly when a route is shown, the card holds no booking,
-- none is being made and the shown route is not known to be full; the order is for the route that
-- is shown and the time of the page, and its arrival is stated exactly when the route's duration
-- is known and not 0: the departure and that many seconds.
pub sent_order_lem :
    (dates : Dates) (departure : ℕ) (p : Planner)
    → ((route : RouteResult) × (dto : CreateBookingDto) × (shown_route p ≡ some route)
        × (p.card.booking_result ≡ none)
        × (p.card.is_booking ≡ false)
        × (route_available p ≢ some false)
        × (sent_order dates departure p ≡ some dto)
        × Orders dates departure route dto)
      ⊎ (((shown_route p ≡ none)
            ⊎ ((b : Booking) × (p.card.booking_result ≡ some b))
            ⊎ (p.card.is_booking ≡ true)
            ⊎ (route_available p ≡ some false))
          × (sent_order dates departure p ≡ none))
unfolding sent_order card_head
sent_order_lem dates departure p = elim (Option-cases (shown_route p)) [
  | inl hidden ↦ inr (
    inl hidden,
    elim (Bool-cases (can_press (card_head p.card (route_available p)))) [
      | inl may ↦ rw (sent_order, may) (rw (sent_order, hidden) refl)
      | inr barred ↦ rw (sent_order, barred) refl
    ],
  )
  | inr (route, shows) ↦
      elim (can_press-cases p.card.booking_result p.card.booking_error p.card.is_booking
        (route_available p)) [
          | inl (may, clear, idle, free) ↦
              let (dto, makes, orders) = booking_dto-Orders dates route departure in
              inl (
                route,
                dto,
                shows,
                clear,
                idle,
                free,
                rw (sent_order, may) (rw shows makes),
                orders,
              )
          | inr (barred, why) ↦ inr (inr why, rw (sent_order, barred) refl)
        ]
]

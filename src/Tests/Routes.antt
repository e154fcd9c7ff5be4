-- ===== src/Tests/Routes.antt =====
-- Booking a route at the test data.
use traffic_service.BookRoute.Departure.{
  round_to_5, departure_key, departure_date, departure_change,
}
use traffic_service.BookRoute.Params.{
  origin, destination, is_valid, select_place, coord_of, coord_label, place_name, map_click,
}
use traffic_service.BookRoute.Places.{start_side, end_side, SamePlace, written, two_places}
use traffic_service.BookRoute.Selection.{availability_of, selected_route_index, route_at}
use traffic_service.BookRoute.Chosen.{SaidFree, selected_route_index_lem}
use traffic_service.BookRoute.Windows.{map_segment}
use traffic_service.BookRoute.Booked.{
  Orders, IsSettled, presses, books, after, after-IsSettled, select_row-stale, sent_order_lem,
}
use traffic_service.BookRoute.Utilization.{Lists, feature_of-map_segment}
use traffic_service.BookRoute.Card.{
  created, card_head, Planner, shown_route, select_row, route_available, sent_order, book_settles,
}
use traffic_service.BookRoute.Times.{departure_date-departure_change}
use traffic_service.RouteMap.Features.{segment_capacity_color, feature_of}
use traffic_service.Base.SearchParams.{get_param}
use traffic_service.Tests.Data.{
  doubles, dates, line_of_four, fast_route, slow_route, only_slow, one_booking, first_segment,
  six_reserved, rounded, quotient, dublin, howth,
}
use traffic_service.Api.Bookings.{Booking, CreateBookingDto}
use traffic_service.Api.Http.{network, resolved, raised}
use traffic_service.Api.Routes.{RouteResult, SegmentUtilization}
use traffic_service.Datetime.{short_id}
use traffic_service.Base.{
  ◌or_else◌, get_elem?, take, All, codes, ◌===◌, ℕ, ◌+◌, ◌%◌, ◌≤◌, ◌<◌, ◌≡◌, refl, ◌≢◌, ◌⊎◌, inl,
  true, false, Option, none, some, [], ◌∷◌,
}

abbrev planner : Planner
planner = record {
  routes = some (fast_route ∷ slow_route ∷ []);
  answer = some [];
  user_selected = none;
  card = record { booking_result = none; booking_error = none; is_booking = true };
}

abbrev no_click : Option ℕ
no_click = none

abbrev idle_planner : Planner
idle_planner = record planner {
  card = record { booking_result = none; booking_error = none; is_booking = false };
}

sent_order_lem_example :
    ((route : RouteResult) × (dto : CreateBookingDto) × (shown_route idle_planner ≡ some route)
      × (idle_planner.card.booking_result ≡ none)
      × (idle_planner.card.is_booking ≡ false)
      × (route_available idle_planner ≢ some false)
      × (sent_order dates 3000 idle_planner ≡ some dto)
      × Orders dates 3000 route dto)
    ⊎ (((shown_route idle_planner ≡ none)
          ⊎ ((b : Booking) × (idle_planner.card.booking_result ≡ some b))
          ⊎ (idle_planner.card.is_booking ≡ true)
          ⊎ (route_available idle_planner ≡ some false))
        × (sent_order dates 3000 idle_planner ≡ none))
sent_order_lem_example = sent_order_lem dates 3000 idle_planner

two_places_example :
    let chosen =
      select_place doubles destination
        (codes "Howth")
        howth.lng
        howth.lat
        (select_place doubles origin (codes "Dublin") dublin.lng dublin.lat []) in
    let clicked =
      map_click doubles howth
        (map_click doubles dublin (record { params = []; click_count = 0 })) in
    (is_valid chosen ≡ true)
    × (is_valid clicked.params ≡ true)
    × (clicked.click_count ≡ 0)
    × (coord_of doubles origin chosen ≡ some (written doubles dublin))
    × (coord_of doubles destination chosen ≡ some (written doubles howth))
    × (coord_of doubles origin clicked.params ≡ some (written doubles dublin))
    × (coord_of doubles destination clicked.params ≡ some (written doubles howth))
    × (place_name doubles origin chosen ≡ (codes "Dublin"))
    × (place_name doubles destination chosen ≡ (codes "Howth"))
    × (place_name doubles origin clicked.params ≡ coord_label doubles dublin.lat dublin.lng)
    × (place_name doubles destination clicked.params ≡ coord_label doubles howth.lat howth.lng)
unfolding ◌===◌
two_places_example =
    two_places doubles dublin howth (codes "Dublin") (codes "Howth") [] refl refl refl refl

selected_route_index_lem_example :
    let i = selected_route_index no_click (some (fast_route ∷ slow_route ∷ [])) (some only_slow) in
    ((u : ℕ) × (no_click ≡ some u) × (i ≡ u))
    ⊎ ((no_click ≡ none)
        × (((r : RouteResult) × (get_elem? (fast_route ∷ slow_route ∷ []) i ≡ some r)
              × SaidFree only_slow r
              × All (λ q. ¬ SaidFree only_slow q) (take i (fast_route ∷ slow_route ∷ [])))
            ⊎ ((i ≡ 0) × All (λ q. ¬ SaidFree only_slow q) (fast_route ∷ slow_route ∷ []))))
selected_route_index_lem_example =
    selected_route_index_lem no_click (fast_route ∷ slow_route ∷ []) only_slow

after-IsSettled_example :
    IsSettled
      (after
        (books (raised network) ∷ presses ∷ books (resolved one_booking) ∷ presses ∷ [])
        planner).card
after-IsSettled_example =
    after-IsSettled (books (raised network) ∷ presses ∷ books (resolved one_booking) ∷ presses ∷ [])
      planner (inl refl)

feature_of-map_segment_example :
    let f =
      feature_of rounded (map_segment quotient (some six_reserved) first_segment) line_of_four in
    (Lists first_segment.segment_id 6 six_reserved
      → f.color ≡ segment_capacity_color 6 (first_segment.capacity or_else 0))
    × (All (λ (v : SegmentUtilization). v.segment_id ≢ first_segment.segment_id) six_reserved
        → f.color ≡ segment_capacity_color 0 (first_segment.capacity or_else 0))
feature_of-map_segment_example =
    feature_of-map_segment quotient rounded six_reserved first_segment line_of_four 6

departure_date-departure_change_example :
    let qs = departure_change dates 200 [] in
    let shown = departure_date dates (get_param departure_key qs) 0 in
    (shown % 300000 ≡ 0)
    × (shown ≤ 200 + 150000)
    × (200 < shown + 150000)
    × SamePlace start_side qs []
    × SamePlace end_side qs []
departure_date-departure_change_example = departure_date-departure_change dates 200 0 []

select_row-stale_example :
    let q = select_row 1 (book_settles (resolved one_booking) planner) in
    (shown_route q ≡ some slow_route)
    × (card_head q.card (some true) ≡ created (short_id one_booking.booking_id) one_booking.status)
unfolding shown_route selected_route_index route_at availability_of
select_row-stale_example =
    select_row-stale planner one_booking 1 fast_route slow_route (some true) refl refl refl

selected_run : selected_route_index none (some (fast_route ∷ slow_route ∷ [])) (some only_slow) ≡ 1
unfolding selected_route_index availability_of ◌===◌
selected_run = refl

round_to_5_run : (round_to_5 449999 ≡ 300000) × (round_to_5 450000 ≡ 600000)
unfolding round_to_5
round_to_5_run = (refl, refl)

-- ===== src/Tests/Services.antt =====
-- The services at the test data.
use traffic_service.BookRoute.Windows.{segment_windows}
use traffic_service.Assessment.Work.{work}
use traffic_service.Assessment.Run.{created_consumer, before_all}
use traffic_service.Assessment.Settled.{Runs-settles}
use traffic_service.Assessment.Effects.{created_envelope}
use traffic_service.Assessment.Answered.{no_failure}
use traffic_service.RouteMap.Features.{full_color}
use traffic_service.BookingService.Rows.{get_by_ids, is_event_processed}
use traffic_service.BookingService.Answers.{cancel_booking_handler_lem, handle_message-status_of}
use traffic_service.BookingService.Replay.{status_of, IsReplayed}
use traffic_service.BookingService.Agreement.{cancel_button-allowed}
use traffic_service.BookingService.Reached.{
  asks_new, no_bookings, one_more, BookingReach-IsReplayed,
}
use traffic_service.BookingService.Service.{
  assessed_status, invalid_transition, refused, cancel_own_booking, handle_message,
}
use traffic_service.Bookings.CardDetails.{booking_card}
use traffic_service.ConflictDetection.Reserved.{IsReserved, added, assess_route_lem}
use traffic_service.ConflictDetection.Tables.{
  Reservation, get_by_id, count_overlapping, get_capacities,
}
use traffic_service.ConflictDetection.Consumer.{
  Envelope, CreatedData, handle_booking_created, db_of, process_with_retry,
}
use traffic_service.ConflictDetection.Assessed.{IsFree, settled}
use traffic_service.ConflictDetection.Endpoints.{utilization}
use traffic_service.ConflictDetection.Preview.{candidate_available-assess_route}
use traffic_service.ConflictDetection.Delivery.{handle_booking_created-again}
use traffic_service.ConflictDetection.Kept.{at_first, created_message, IsSound, DbReach-IsSound}
use traffic_service.ConflictDetection.OnMap.{color_on_map, color_on_map-assess_route}
use traffic_service.ConflictDetection.Service.{
  assess_route, assess_and_reserve, candidate_available,
}
use traffic_service.Base.Decimal.{decimal, to_number, to_number-decimal}
use traffic_service.Base.Sets.{distinct, set_item, get_item}
use traffic_service.BookingService.Handler.{create_booking_handler, cancel_booking_handler}
use traffic_service.Tests.Data.{line_of_four, fast_route, as_text, rounded, quotient}
use traffic_service.Api.Bookings.{pending, cancelled}
use traffic_service.Api.Routes.{SegmentUtilization}
use traffic_service.Assessment.{created_events, updated_events, System, Handovers}
use traffic_service.BookingService.{can_transition}
use traffic_service.Tests.Tables.{
  one_request, pod, road_segments, stored_routes, route_of_two, one_reserved, no_tables,
  created_message_of, after_created, stored_row, shown_booking, one_row, parsed_as_is, answer_event,
  new_booking, decimal_unique, decimal_readable, parsed_back, requested_once, segment_table,
  only_first, route_of_first,
}
use traffic_service.Base.{
  if◌then◌else◌, is_some, All, Text, codes, ◌===◌, ℕ, ◌≤◌, ◌≡◌, refl, ◌≢◌, ◌↔◌, Bool, true, false,
  ◌&&◌, none, some, List, [], ◌∷◌, arith,
}

assess_route_lem_example :
    (fits : Bool) × (after : List Reservation) × (assess_route road_segments
        (codes "b1")
        1000000
        (codes "r")
        route_of_two
        one_reserved
      ≡ some (
        record { booking_id = (codes "b1"); route_id = (codes "r"); segments_available = fits },
        after,
      ))
    × ((fits ≡ true) ↔ IsFree road_segments 1000000 one_reserved route_of_two)
    × (fits ≡ true
        → (rows : List Reservation) × IsReserved
            (codes "b1")
            1000000
            route_of_two.estimated_duration
            route_of_two.segment_ids
            rows
          × (after ≡ added rows one_reserved))
    × (fits ≡ false → after ≡ one_reserved)
assess_route_lem_example =
    assess_route_lem road_segments (codes "b1") (codes "r") 1000000 route_of_two one_reserved

candidate_available-assess_route_example :
    (fits accepted : Bool) × (candidate_available road_segments 1000000 one_reserved route_of_two
      ≡ some fits)
    × (assess_route road_segments (codes "b1") 1000000 (codes "r") route_of_two one_reserved
        ≡ some (settled (codes "b1") (codes "r") 1000000 route_of_two one_reserved accepted))
    × (accepted ≡ (fits && distinct route_of_two.segment_ids))
candidate_available-assess_route_example =
    candidate_available-assess_route road_segments (codes "b1") (codes "r") 1000000 route_of_two
      one_reserved

handle_booking_created-again_example :
    db_of (
      process_with_retry no_failure
        (handle_booking_created to_number [] []
          (created_consumer pod)
          (codes "a2")
          (created_message_of (codes "e1") (codes "b1")))
        after_created)
    ≡ after_created
unfolding handle_booking_created process_with_retry to_number decimal assess_and_reserve get_by_id
    ◌===◌ get_capacities set_item get_item count_overlapping
handle_booking_created-again_example =
    handle_booking_created-again to_number stored_routes [] road_segments [] (created_consumer pod)
      (codes "a1") (codes "a2") (created_message_of (codes "e1") (codes "b1")) no_failure no_failure
      no_tables after_created refl

cancel_booking_handler_lem_example :
    let result =
      cancel_booking_handler
        (codes "e9")
        (codes "c")
        (some (codes "b1"))
        (some (codes "d"))
        one_row in
    (result.0 ≡ (elim (get_by_ids one_row (codes "b1") (codes "d")) [
      | none ↦ 500
      | some row ↦ if can_transition row.status cancelled then 200 else 409
    ]))
    × (result.0 ≢ 200 → result.1 ≡ one_row)
cancel_booking_handler_lem_example =
    cancel_booking_handler_lem (codes "e9") (codes "c") (codes "b1") (codes "d") one_row

handle_message-status_of_example :
    let (fine, after) =
      handle_message parsed_as_is (codes "e9") (codes "a1") (codes "c") answer_event one_row in
    (fine ≡ true)
    × (status_of after.bookings (codes "b1")
        ≡ some (assessed_status answer_event.segments_available))
    × (is_event_processed (codes "a1") (codes "booking-service") after ≡ true)
unfolding is_event_processed ◌===◌
handle_message-status_of_example =
    handle_message-status_of parsed_as_is (codes "e9") (codes "a1") (codes "c") answer_event one_row
      (codes "b1") cancelled refl refl refl

cancel_button-allowed_example :
    let card =
      booking_card as_text as_text shown_booking (some fast_route) none false none false true in
    (is_some card.cancel_button ≡ true) ↔ (
      cancel_own_booking (codes "e9") (codes "c") shown_booking.booking_id (codes "d") one_row
      ≢ refused invalid_transition)
unfolding get_by_ids ◌===◌
cancel_button-allowed_example =
    cancel_button-allowed as_text as_text shown_booking (some fast_route) none false none false true
      (codes "e9") (codes "c") (codes "d") one_row stored_row refl refl

DbReach-IsSound_example :
    IsSound road_segments
      ((created_consumer pod, created_message_of (codes "e1") (codes "b1")) ∷ [])
      after_created
DbReach-IsSound_example = DbReach-IsSound to_number road_segments (
    created_message stored_routes (created_consumer pod) (codes "a1")
      (created_message_of (codes "e1") (codes "b1")) no_failure at_first)

BookingReach-IsReplayed_example :
    IsReplayed
      (create_booking_handler decimal 5
        (codes "b1")
        (codes "e1")
        (codes "c")
        (some (codes "d"))
        (some new_booking)
        before_all.booking).1
BookingReach-IsReplayed_example = BookingReach-IsReplayed decimal parsed_as_is (
    one_more no_bookings (
      asks_new 5 (codes "b1") (codes "e1") (codes "c") (some (codes "d")) (some new_booking)
        before_all.booking))

Runs-settles_example :
    (k : ℕ) × (t : System) × (k ≤ work one_request)
    × Handovers to_number parsed_as_is road_segments k one_request t
    × ((id : Text) → status_of t.booking.bookings id ≢ some pending)
Runs-settles_example =
    Runs-settles decimal decimal_unique decimal to_number decimal_readable parsed_as_is parsed_back
      road_segments pod stored_routes requested_once

requests_run : work one_request ≡ 5
unfolding create_booking_handler created_events updated_events
requests_run = refl

abbrev requested_event : Envelope CreatedData
requested_event =
    created_envelope (decimal 1) (codes "c") (decimal 0) (codes "d") (codes "r") (decimal 1000000)

abbrev once_taken : System
once_taken = record one_request {
  conflict = db_of (
      process_with_retry no_failure
        (handle_booking_created to_number stored_routes road_segments (created_consumer pod)
          (decimal 2) requested_event)
        one_request.conflict);
  created_taken = 1;
}

color_on_map-assess_route_example :
    (answer : List SegmentUtilization) × (accepted : Bool) × (utilization to_number []
        (segment_windows decimal 1000000 fast_route only_first)
      ≡ some answer)
    × (assess_route segment_table (codes "b1") 1000000 (codes "r") route_of_first []
        ≡ some (settled (codes "b1") (codes "r") 1000000 route_of_first [] accepted))
    × ((accepted ≡ true)
        ↔ All
            (λ s. color_on_map quotient rounded (λ x. line_of_four) answer s ≢ full_color)
            only_first)
unfolding ◌===◌
color_on_map-assess_route_example =
    color_on_map-assess_route quotient rounded (λ x. line_of_four) decimal to_number segment_table
      (codes "b1") (codes "r") 1000000 route_of_first fast_route only_first [] to_number-decimal
      refl refl refl ((omega arith, refl), tt)

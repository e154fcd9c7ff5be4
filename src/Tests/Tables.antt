-- ===== src/Tests/Tables.antt =====
-- The tables of the services as test data, with runs of the operations on them.
use traffic_service.Assessment.Effects.{created_envelope}
use traffic_service.Assessment.Answered.{no_failure}
use traffic_service.BookingService.Rows.{BookingDb, StoredBooking}
use traffic_service.BookingService.Handler.{CreateRequest, create_booking_handler}
use traffic_service.BookingService.Service.{RouteAssessedEvent}
use traffic_service.ConflictDetection.Tables.{
  Reservation, RoadSegment, StoredRoute, Route, get_by_id, count_overlapping, create,
  delete_by_booking, get_capacities,
}
use traffic_service.ConflictDetection.Consumer.{
  Db, Envelope, CreatedData, UpdatedData, handle_booking_created, handle_booking_updated, db_of,
  process_with_retry,
}
use traffic_service.ConflictDetection.Service.{
  fits_from, reserve_from, assessed, assess_route, assess_and_reserve, release_reservations,
  candidate_available,
}
use traffic_service.Base.Decimal.{decimal, to_number, to_number-decimal}
use traffic_service.Base.Sets.{set_of, set_item, get_item}
use traffic_service.Tests.Data.{first_segment, one_booking}
use traffic_service.Api.Bookings.{cancelled, Booking}
use traffic_service.Api.Routes.{Segment}
use traffic_service.Assessment.{System}
use traffic_service.Base.{
  length, Text, codes, ◌===◌, ℕ, ◌≡◌, refl, sym, ap, ◌∙◌, true, false, Option, none, some, List, [],
  ◌∷◌, arith,
}
use traffic_service.Assessment.Run.{
  before_all, created_consumer, updated_consumer, Runs, starts, asked_new,
}

abbrev pub pod : Text
pod = codes "p1"

abbrev pub road_segments : List RoadSegment
road_segments =
    record { segment_id = codes "A"; capacity = some 1 }
    ∷ record { segment_id = codes "B"; capacity = some 2 }
    ∷ record { segment_id = codes "C"; capacity = none }
    ∷ []

abbrev pub stored_routes : List StoredRoute
stored_routes =
    record {
      route_id = codes "r";
      segment_ids = some (codes "A" ∷ codes "B" ∷ []);
      estimated_duration = some 600;
    }
    ∷ record {
      route_id = codes "t";
      segment_ids = some (codes "B" ∷ codes "B" ∷ []);
      estimated_duration = none;
    }
    ∷ []

abbrev pub route_of_two : Route
route_of_two = record {
  route_id = codes "r";
  segment_ids = codes "A" ∷ codes "B" ∷ [];
  estimated_duration = 600;
}

abbrev pub one_reserved : List Reservation
one_reserved =
    record {
      booking_id = codes "b0";
      segment_id = codes "A";
      time_window_start = 0;
      time_window_end = 900000;
    }
    ∷ []

abbrev pub no_tables : Db
no_tables = record { reservations = []; processed_events = []; outbox = [] }

abbrev pub created_message_of : Text → Text → Envelope CreatedData
created_message_of event booking =
    created_envelope event (codes "c") booking (codes "d") (codes "r") (decimal 1000000)

abbrev pub cancelled_message : Envelope UpdatedData
cancelled_message = record {
  event_id = codes "e2";
  correlation_id = codes "c";
  payload = record { booking_id = some (codes "b1"); status = some (codes "CANCELLED") };
}

assess_and_reserve_run :
    (assess_and_reserve stored_routes road_segments (codes "b1") (codes "r") 1000000 one_reserved
      ≡ some (
          assessed
            (codes "b1")
            (codes "r")
            true
            (reserve_from (codes "b1") 1000000 600 0 (codes "A" ∷ codes "B" ∷ []) one_reserved)))
    × (assess_and_reserve stored_routes road_segments (codes "b1") (codes "r") 500000 one_reserved
        ≡ some (assessed (codes "b1") (codes "r") false one_reserved))
    × (assess_and_reserve stored_routes road_segments (codes "b1") (codes "t") 1000000 one_reserved
        ≡ some (assessed (codes "b1") (codes "t") false one_reserved))
unfolding assess_and_reserve assess_route fits_from get_capacities get_by_id ◌===◌ set_item get_item
    count_overlapping
assess_and_reserve_run = (refl, refl, refl)

-- A route with a segment twice is free in the preview and is not accepted.
twice_run :
    candidate_available road_segments 1000000 [] (record {
      route_id = codes "t";
      segment_ids = codes "B" ∷ codes "B" ∷ [];
      estimated_duration = 600;
    })
    ≡ some true
unfolding candidate_available fits_from get_capacities ◌===◌ set_item set_of get_item
    count_overlapping
twice_run = refl

-- A cancellation that comes before the assessment leaves the reservations of the cancelled booking.
leaked_run :
    let first = db_of (
      process_with_retry no_failure
        (handle_booking_updated (updated_consumer pod) cancelled_message)
        no_tables) in
    let second = db_of (
      process_with_retry no_failure
        (handle_booking_created to_number stored_routes road_segments
          (created_consumer pod)
          (codes "a1")
          (created_message_of (codes "e1") (codes "b1")))
        first) in
    length second.reservations ≡ 2
unfolding process_with_retry handle_booking_updated handle_booking_created to_number decimal
    assess_and_reserve get_by_id ◌===◌ get_capacities set_item get_item count_overlapping
    release_reservations delete_by_booking create
leaked_run = refl

abbrev pub after_created : Db
after_created = db_of (
    process_with_retry no_failure
      (handle_booking_created to_number stored_routes road_segments (created_consumer pod)
        (codes "a1") (created_message_of (codes "e1") (codes "b1")))
      no_tables)

abbrev pub stored_row : StoredBooking
stored_row = record {
  booking_id = codes "b1";
  driver_id = codes "d";
  route_id = codes "r";
  departure_time = 1000000;
  estimated_arrival = none;
  status = cancelled;
  created_at = 5;
  expires_at = some 1000000;
}

abbrev pub shown_booking : Booking
shown_booking = record one_booking { booking_id = codes "b1"; status = cancelled }

abbrev pub one_row : BookingDb
one_row = record { bookings = stored_row ∷ []; outbox = []; processed = [] }

abbrev pub parsed_as_is : Text → Option Text
parsed_as_is t = some t

abbrev pub answer_event : RouteAssessedEvent
answer_event = record { booking_id = codes "b1"; route_id = codes "r"; segments_available = true }

abbrev pub new_booking : CreateRequest
new_booking = record { route_id = codes "r"; departure_time = 1000000; estimated_arrival = none }

pub decimal_unique : (m n : ℕ) → decimal m ≡ decimal n → m ≡ n
decimal_unique m n e =
    let h : some m ≡ some n = sym (to_number-decimal m) ∙ (ap to_number e ∙ to_number-decimal n) in
    ground (arith, h)

pub decimal_readable : (t : ℕ) → (instant : ℕ) × (to_number (decimal t) ≡ some instant)
decimal_readable t = (t, to_number-decimal t)

pub parsed_back : (n : ℕ) → parsed_as_is (decimal n) ≡ some (decimal n)
parsed_back n = refl

-- The services after one request, before any delivery.
abbrev pub one_request : System
one_request = record before_all {
  booking =
      (create_booking_handler decimal 5 (decimal 0) (decimal 1) (codes "c") (some (codes "d"))
        (some new_booking) before_all.booking).1;
}

abbrev pub requested_once :
    Runs decimal decimal to_number parsed_as_is road_segments pod 2 one_request
requested_once = asked_new 5 (codes "c") (some (codes "d")) (some new_booking) starts

abbrev pub segment_table : List RoadSegment
segment_table = record { segment_id = codes "s-1"; capacity = some 10 } ∷ []

abbrev pub only_first : List Segment
only_first = first_segment ∷ []

abbrev pub route_of_first : Route
route_of_first = record {
  route_id = codes "r";
  segment_ids = codes "s-1" ∷ [];
  estimated_duration = 600;
}

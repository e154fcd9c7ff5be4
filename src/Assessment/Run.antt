-- ===== src/Assessment/Run.antt =====
-- Runs of the two services in which nothing is lost: requests, expiry and deliveries in any order.
use traffic_service.Assessment.Answered.{no_failure, no_faults}
use traffic_service.BookingService.Rows.{find_expired}
use traffic_service.BookingService.Handler.{
  CreateRequest, create_booking_handler, cancel_booking_handler,
}
use traffic_service.BookingService.Service.{expire_bookings, handle_message_with_retry}
use traffic_service.ConflictDetection.Tables.{RoadSegment, StoredRoute}
use traffic_service.ConflictDetection.Consumer.{
  OutboxEvent, Envelope, CreatedData, UpdatedData, handle_booking_created, handle_booking_updated,
  db_of, process_with_retry,
}
use traffic_service.Assessment.{created_events, updated_events, route_assessed, System}
use traffic_service.Base.{
  length, get_elem?, Text, codes, ℕ, suc, ◌+◌, ◌≡◌, Option, some, List, [], ◌++◌,
}

-- The names of the consumers of an instance
abbrev pub created_consumer : Text → Text
created_consumer instance_name = codes "conflict-consumer-created-" ++ instance_name

abbrev pub updated_consumer : Text → Text
updated_consumer instance_name = codes "conflict-consumer-updated-" ++ instance_name

abbrev pub before_all : System
before_all = record {
  booking = record { bookings = []; outbox = []; processed = [] };
  conflict = record { reservations = []; processed_events = []; outbox = [] };
  created_taken = 0;
  updated_taken = 0;
  assessed_taken = 0;
}

module _ (uuid : ℕ → Text) (to_text : ℕ → Text) (from_iso : Text → Option ℕ)
    (parse_uuid : Text → Option Text) (segments : List RoadSegment) (instance_name : Text) where
  -- A state of the services that a run leads to, with the number of ids that it has used of the
  -- supply. Without faults at most one attempt at an answer makes an event, so one id is enough.
  pub data Runs : ℕ → System → Type 0 where
    starts : Runs 0 before_all
    asked_new :
        {n : ℕ} {s : System} (now : ℕ) (correlation : Text) (driver : Option Text)
        (req : Option CreateRequest)
        → Runs n s
        → Runs (suc (suc n)) (record s {
          booking =
              (create_booking_handler to_text now
                (uuid n)
                (uuid (suc n))
                correlation
                driver
                req
                s.booking).1;
        })
    asked_cancel :
        {n : ℕ} {s : System} (correlation : Text) (booking driver : Option Text)
        → Runs n s
        → Runs (suc n) (record s {
          booking = (cancel_booking_handler (uuid n) correlation booking driver s.booking).1;
        })
    passed :
        {n : ℕ} {s : System} (correlation : Text) (now : ℕ)
        → Runs n s
        → Runs
            (n + length (find_expired now s.booking))
            (record s { booking = expire_bookings (λ k. uuid (n + k)) correlation now s.booking })
    took_created :
        {n : ℕ} {s : System} (routes : List StoredRoute) (e : Envelope CreatedData)
        → get_elem? (created_events s.booking.outbox) s.created_taken ≡ some e
        → Runs n s
        → Runs (suc n) (record s {
          conflict = db_of (
              process_with_retry no_failure
                (handle_booking_created from_iso routes segments
                  (created_consumer instance_name)
                  (uuid n)
                  e)
                s.conflict);
          created_taken = suc s.created_taken;
        })
    took_updated :
        {n : ℕ} {s : System} (e : Envelope UpdatedData)
        → get_elem? (updated_events s.booking.outbox) s.updated_taken ≡ some e
        → Runs n s
        → Runs n (record s {
          conflict = db_of (
              process_with_retry no_failure
                (handle_booking_updated (updated_consumer instance_name) e)
                s.conflict);
          updated_taken = suc s.updated_taken;
        })
    took_assessed :
        {n : ℕ} {s : System} (e : OutboxEvent)
        → get_elem? s.conflict.outbox s.assessed_taken ≡ some e
        → Runs n s
        → Runs (suc n) (record s {
          booking =
              handle_message_with_retry parse_uuid no_faults
                (λ attempt. uuid n)
                e.event_id
                e.correlation_id
                (route_assessed e.payload)
                s.booking;
          assessed_taken = suc s.assessed_taken;
        })

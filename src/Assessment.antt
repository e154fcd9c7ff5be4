-- ===== src/Assessment.antt =====
-- The booking service and the conflict detection service together: each writes events to its
-- outbox, a relay (internal/infrastructure/outboxrelay/relay.go,
-- infrastructure/outbox_relay/relay.py) publishes them in their order on a stream of their type,
-- and the consumer group of the other service takes them from there, one after the other. How
-- long a relay and a stream take is when the consumer takes the next event.
pub mod OneMore
pub mod Work
pub mod Queue
pub mod Effects
pub mod Answered
pub mod Closed
pub mod Run
pub mod Open
pub mod Runs
pub mod Settled
use traffic_service.BookingService.Rows.{booking_created, booking_updated, EventEnvelope, BookingDb}
use traffic_service.BookingService.Service.{RouteAssessedEvent, handle_message_with_retry, Fault}
use traffic_service.ConflictDetection.Tables.{RoadSegment, StoredRoute}
use traffic_service.ConflictDetection.Consumer.{
  OutboxEvent, Db, Envelope, CreatedData, UpdatedData, handle_booking_created,
  handle_booking_updated, db_of, process_with_retry,
}
use traffic_service.ConflictDetection.Service.{AssessmentResult}
use traffic_service.Api.Bookings.{BookingStatus, pending, approved, rejected, cancelled, expired}
use traffic_service.Base.{get_elem?, Text, codes, ℕ, suc, ◌≡◌, Bool, Option, some, List, [], ◌∷◌}

-- The text of a status in an event
unfoldable pub status_text : BookingStatus → Text
status_text pending = codes "PENDING"
status_text approved = codes "APPROVED"
status_text rejected = codes "REJECTED"
status_text cancelled = codes "CANCELLED"
status_text expired = codes "EXPIRED"

-- The stream booking.created
unfoldable pub created_events : List EventEnvelope → List (Envelope CreatedData)
created_events [] = []
created_events (e ∷ es) = elim e.event [
  | booking_created booking driver route departure ↦
      record {
        event_id = e.event_id;
        correlation_id = e.correlation_id;
        payload = record {
          booking_id = some booking;
          route_id = some route;
          departure_time = some departure;
        };
      }
      ∷ created_events es
  | booking_updated booking driver status ↦ created_events es
]

-- The stream booking.updated
unfoldable pub updated_events : List EventEnvelope → List (Envelope UpdatedData)
unfolding status_text
updated_events [] = []
updated_events (e ∷ es) = elim e.event [
  | booking_created booking driver route departure ↦ updated_events es
  | booking_updated booking driver status ↦
      record {
        event_id = e.event_id;
        correlation_id = e.correlation_id;
        payload = record { booking_id = some booking; status = some (status_text status) };
      }
      ∷ updated_events es
]

-- What the booking service reads of an event on route.assessed
unfoldable pub route_assessed : AssessmentResult → RouteAssessedEvent
route_assessed result = record {
  booking_id = result.booking_id;
  route_id = result.route_id;
  segments_available = result.segments_available;
}

-- The tables of the two services, and how many events of each stream its consumer has taken.
pub record System : Type 0 where
  pub booking : BookingDb
  pub conflict : Db
  pub created_taken : ℕ
  pub updated_taken : ℕ
  pub assessed_taken : ℕ

module _ (from_iso : Text → Option ℕ) (parse_uuid : Text → Option Text)
    (segments : List RoadSegment) where
  -- A consumer takes the next event of its stream and processes it, gives it up or finds it
  -- processed.
  pub data Handover : System → System → Type 0 where
    takes_created :
        (routes : List StoredRoute) (consumer new_id : Text) (fails : ℕ → Bool) (s : System)
        (e : Envelope CreatedData)
        → get_elem? (created_events s.booking.outbox) s.created_taken ≡ some e
        → Handover s (record s {
          conflict = db_of (
              process_with_retry fails
                (handle_booking_created from_iso routes segments consumer new_id e)
                s.conflict);
          created_taken = suc s.created_taken;
        })
    takes_updated :
        (consumer : Text) (fails : ℕ → Bool) (s : System) (e : Envelope UpdatedData)
        → get_elem? (updated_events s.booking.outbox) s.updated_taken ≡ some e
        → Handover s (record s {
          conflict =
              db_of (process_with_retry fails (handle_booking_updated consumer e) s.conflict);
          updated_taken = suc s.updated_taken;
        })
    takes_assessed :
        (new_ids : ℕ → Text) (faults : ℕ → Fault) (s : System) (e : OutboxEvent)
        → get_elem? s.conflict.outbox s.assessed_taken ≡ some e
        → Handover s (record s {
          booking =
              handle_message_with_retry parse_uuid faults new_ids e.event_id e.correlation_id
                (route_assessed e.payload)
                s.booking;
          assessed_taken = suc s.assessed_taken;
        })

  -- This many deliveries in a row.
  pub data Handovers : ℕ → System → System → Type 0 where
    no_more : (s : System) → Handovers 0 s s
    first_then : {n : ℕ} {s t u : System} → Handover s t → Handovers n t u → Handovers (suc n) s u

-- ===== src/ConflictDetection/Consumer.antt =====
-- conflict-detection-service/src: application/use_cases.py and the handlers of
-- infrastructure/consumer/consumer.py. A transaction works on a copy of the tables, which takes
-- their place when it commits.
use traffic_service.BookRoute.Booked.{after}
use traffic_service.ConflictDetection.Tables.{Reservation, RoadSegment, StoredRoute}
use traffic_service.ConflictDetection.Service.{
  AssessmentResult, assess_and_reserve, release_reservations,
}
use traffic_service.Base.{
  if◌then◌else◌, bind_some, any, Text, codes, ◌===◌, ℕ, zero, suc, ◌+◌, Bool, ◌&&◌, ◌||◌, Option,
  none, some, List, [], ◌∷◌, ◌++◌,
}

-- A row of outbox_events: its stream and its envelope.
pub record OutboxEvent : Type 0 where
  pub stream : Text
  pub event_id : Text
  pub correlation_id : Text
  pub payload : AssessmentResult

-- A row of processed_events
pub record ProcessedEvent : Type 0 where
  pub event_id : Text
  pub consumer_name : Text
  pub stream_name : Text

pub record Db : Type 0 where
  pub reservations : List Reservation
  pub processed_events : List ProcessedEvent
  pub outbox : List OutboxEvent

-- How one run of a handler ends: it commits, a row that is there already stops it, or it fails in
-- another way.
pub data Attempt : Type 0 where
  committed : Db → Attempt
  integrity_error : Attempt
  exception : Attempt

abbrev pub same_key : Text → Text → ProcessedEvent → Bool
same_key event consumer p = (p.event_id === event) && (p.consumer_name === consumer)

-- `mark_processed` and the commit after it: the primary key of the table is the event with the
-- consumer.
unfoldable pub mark_processed : Text → Text → Text → Db → Attempt
mark_processed event consumer stream db =
    if any (same_key event consumer) db.processed_events
    then integrity_error
    else committed (record db {
      processed_events =
          record { event_id = event; consumer_name = consumer; stream_name = stream }
          ∷ db.processed_events;
    })

unfoldable pub enqueue : Text → Text → Text → AssessmentResult → Db → Db
enqueue stream new_id correlation payload db = record db {
  outbox =
      db.outbox
      ++ (record {
        stream = stream;
        event_id = new_id;
        correlation_id = correlation;
        payload = payload;
      }
          ∷ []);
}

-- An envelope that `parse_envelope` gives.
pub record Envelope (D : Type 0) : Type 0 where
  pub event_id : Text
  pub correlation_id : Text
  pub payload : D

-- `AssessRouteUseCase.execute` and the commit; the text after the departure is the id for the
-- event that it enqueues.
unfoldable pub assess_route_use_case :
    List StoredRoute
    → List RoadSegment
    → Text
    → Text
    → ℕ
    → Text
    → Text
    → Text
    → Text
    → Text
    → Db
    → Attempt
unfolding mark_processed enqueue
assess_route_use_case routes segments booking route departure new_id event consumer stream
      correlation db =
    elim (assess_and_reserve routes segments booking route departure db.reservations) [
      | none ↦ exception
      | some (result, after) ↦ mark_processed event consumer stream (
          enqueue (codes "route.assessed") new_id correlation result
            (record db { reservations = after }))
    ]

-- `ReleaseReservationsUseCase.execute` and the commit
unfoldable pub release_reservations_use_case : Text → Text → Text → Text → Db → Attempt
unfolding mark_processed
release_reservations_use_case booking event consumer stream db =
    mark_processed event consumer stream
      (record db { reservations = (release_reservations db.reservations booking).0 })

-- The data of the events, with `none` for a key that is not there.
pub record CreatedData : Type 0 where
  pub booking_id : Option Text
  pub route_id : Option Text
  pub departure_time : Option Text

pub record UpdatedData : Type 0 where
  pub booking_id : Option Text
  pub status : Option Text

abbrev pub created_stream : Text
created_stream = codes "booking.created"

abbrev pub updated_stream : Text
updated_stream = codes "booking.updated"

-- `datetime.fromisoformat`, after the replacement of "Z", is the section's function.
module _ (from_iso : Text → Option ℕ) where
  unfoldable pub handle_booking_created :
      List StoredRoute → List RoadSegment → Text → Text → Envelope CreatedData → Db → Attempt
  unfolding assess_route_use_case
  handle_booking_created routes segments consumer new_id envelope db =
      elim envelope.payload.booking_id [
        | none ↦ exception
        | some booking ↦ elim envelope.payload.route_id [
          | none ↦ exception
          | some route ↦ elim (bind_some envelope.payload.departure_time from_iso) [
            | none ↦ exception
            | some departure ↦
                assess_route_use_case routes segments booking route departure new_id
                  envelope.event_id consumer created_stream envelope.correlation_id db
          ]
        ]
      ]

-- `status in ('CANCELLED', 'EXPIRED')`
abbrev pub frees : Text → Bool
frees status = (status === codes "CANCELLED") || (status === codes "EXPIRED")

unfoldable pub handle_booking_updated : Text → Envelope UpdatedData → Db → Attempt
unfolding release_reservations_use_case mark_processed
handle_booking_updated consumer envelope db = elim envelope.payload.booking_id [
  | none ↦ exception
  | some booking ↦ elim envelope.payload.status [
    | none ↦ exception
    | some status ↦
        if frees status
        then release_reservations_use_case booking envelope.event_id consumer updated_stream db
        else mark_processed envelope.event_id consumer updated_stream db
  ]
]

-- What `process_with_retry` comes to: it returns, or it raises and the consumer puts the message
-- on the dead-letter stream. Either way the message is acknowledged.
pub data Processed : Type 0 where
  returned : Db → Processed
  dead_lettered : Db → Processed

abbrev pub db_of : Processed → Db
db_of (returned db) = db
db_of (dead_lettered db) = db

-- `process_with_retry` with this many attempts left. The function says which attempts lose the
-- database or fail in another way that the handler does not cause.
unfoldable pub attempts_left : (ℕ → Bool) → (Db → Attempt) → ℕ → ℕ → Db → Processed
attempts_left fails handler zero attempt db = dead_lettered db
attempts_left fails handler (suc left) attempt db =
    let again = attempts_left fails handler left (attempt + 1) db in
    if fails attempt then again else elim (handler db) [
      | committed after ↦ returned after
      | integrity_error ↦ returned db
      | exception ↦ again
    ]

abbrev pub max_attempts : ℕ
max_attempts = 3

unfoldable pub process_with_retry : (ℕ → Bool) → (Db → Attempt) → Db → Processed
unfolding attempts_left
process_with_retry fails handler db = attempts_left fails handler max_attempts 1 db

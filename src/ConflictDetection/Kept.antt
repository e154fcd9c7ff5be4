-- ===== src/ConflictDetection/Kept.antt =====
-- conflict-detection-service: the tables that the two consumers reach, in whatever order the
-- messages come, come again, fail and are given up.
use traffic_service.ConflictDetection.Assessed.{assess_and_reserve-total}
use traffic_service.ConflictDetection.Handled.{
  handle_booking_created-cases, handle_booking_updated-cases,
}
use traffic_service.ConflictDetection.Service.{AssessmentResult}
use traffic_service.ConflictDetection.Delivery.{is_marked, Attempt-cases}
use traffic_service.ConflictDetection.Capacity.{
  IsWithinCapacity, assess_and_reserve-IsWithinCapacity, occupancy-delete_by_booking-le,
}
use traffic_service.ConflictDetection.Tables.{RoadSegment, StoredRoute}
use traffic_service.ConflictDetection.Consumer.{
  Db, Envelope, CreatedData, UpdatedData, handle_booking_created, handle_booking_updated, db_of,
  process_with_retry, Attempt, committed, attempts_left, max_attempts, ProcessedEvent, same_key,
  mark_processed, created_stream, exception, enqueue, assess_route_use_case, updated_stream,
  OutboxEvent,
}
use traffic_service.Base.{
  Bool-cases, length, any, length-append, Text, ◌===◌, ℕ, zero, suc, ◌+◌, ◌≡◌, refl, sym, ap, ◌∙◌,
  ◌⊎◌, inl, inr, Bool, false, Option, some, List, [], ◌∷◌, ◌++◌, arith,
}

-- A message on booking.created that a consumer took.
abbrev pub Taken : Type 0
Taken = Text × Envelope CreatedData

module _ (from_iso : Text → Option ℕ) (segments : List RoadSegment) where
  -- The tables that messages lead to, with those on booking.created that were taken, the last one
  -- first: each with the routes that are stored by then. The table of segments stays as it is.
  pub data DbReach : List Taken → Db → Type 0 where
    at_first : DbReach [] (record { reservations = []; processed_events = []; outbox = [] })
    created_message :
        {log : List Taken} {db : Db} (routes : List StoredRoute) (consumer new_id : Text)
        (envelope : Envelope CreatedData) (fails : ℕ → Bool)
        → DbReach log db
        → DbReach ((consumer, envelope) ∷ log) (
            db_of (
              process_with_retry fails
                (handle_booking_created from_iso routes segments consumer new_id envelope)
                db))
    updated_message :
        {log : List Taken} {db : Db} (consumer : Text) (envelope : Envelope UpdatedData)
        (fails : ℕ → Bool)
        → DbReach log db
        → DbReach log
            (db_of (process_with_retry fails (handle_booking_updated consumer envelope) db))

abbrev pub Occurs : Taken → List Taken → Type 0
Occurs x [] = ⊥
Occurs x (y ∷ ys) = (x ≡ y) ⊎ Occurs x ys

-- The marks of booking.created, the last one first, and the answers in the outbox, the last one at
-- its end, belong together one by one: each mark is that of a message that its consumer took, and
-- its answer is for the booking of that message and has its correlation id.
pub data IsAnswered (log : List Taken) : List ProcessedEvent → List OutboxEvent → Type 0 where
  nothing_taken : IsAnswered log [] []
  other_mark :
      {ps : List ProcessedEvent} {outbox : List OutboxEvent} (p : ProcessedEvent)
      → (p.stream_name === created_stream) ≡ false
      → IsAnswered log ps outbox
      → IsAnswered log (p ∷ ps) outbox
  one_answer :
      {ps : List ProcessedEvent} {outbox : List OutboxEvent} (consumer : Text)
      (envelope : Envelope CreatedData) (m : OutboxEvent)
      → Occurs (consumer, envelope) log
      → envelope.payload.booking_id ≡ some m.payload.booking_id
      → m.correlation_id ≡ envelope.correlation_id
      → IsAnswered log ps outbox
      → IsAnswered log
          (record {
            event_id = envelope.event_id;
            consumer_name = consumer;
            stream_name = created_stream;
          }
            ∷ ps)
          (outbox ++ (m ∷ []))

IsAnswered-later :
    (x : Taken) {log : List Taken} {ps : List ProcessedEvent} {outbox : List OutboxEvent}
    → IsAnswered log ps outbox
    → IsAnswered (x ∷ log) ps outbox
IsAnswered-later x nothing_taken = nothing_taken
IsAnswered-later x (other_mark p foreign h) = other_mark p foreign (IsAnswered-later x h)
IsAnswered-later x (one_answer consumer envelope m there booking same h) =
    one_answer consumer envelope m (inr there) booking same (IsAnswered-later x h)

-- No event is marked twice by one consumer.
abbrev pub Unrepeated : List ProcessedEvent → Type 0
Unrepeated [] = Unit
Unrepeated (p ∷ ps) = (any (same_key p.event_id p.consumer_name) ps ≡ false) × Unrepeated ps

-- No segment is over its capacity at any time, no event is marked twice by one consumer, and each
-- mark of booking.created has its answer.
abbrev pub IsSound : List RoadSegment → List Taken → Db → Type 0
IsSound segments log db =
    IsWithinCapacity segments db.reservations
    × Unrepeated db.processed_events
    × IsAnswered log db.processed_events db.outbox

-- A handler that keeps a property of the tables keeps it through the retries.
pub process_with_retry-keeps :
    (P : Db → Type 0) (fails : ℕ → Bool) (handler : Db → Attempt) (db : Db)
    → ((after : Db) → handler db ≡ committed after → P after)
    → P db
    → P (db_of (process_with_retry fails handler db))
unfolding process_with_retry attempts_left
process_with_retry-keeps P fails handler db keeps h = go max_attempts 1
  where
    go : (left n : ℕ) → P (db_of (attempts_left fails handler left n db))
    go zero n = h
    go (suc left) n = elim (Bool-cases (fails n)) [
      | inl lost ↦ rw lost (go left (n + 1))
      | inr held ↦ elim (Attempt-cases (handler db)) [
        | inl (after, e) ↦ rw held (rw e (keeps after e))
        | inr (inl e) ↦ rw held (rw e h)
        | inr (inr e) ↦ rw held (rw e (go left (n + 1)))
      ]
    ]

abbrev pub with_mark : Text → Text → Text → Db → Db
with_mark event consumer stream db = record db {
  processed_events =
      record { event_id = event; consumer_name = consumer; stream_name = stream }
      ∷ db.processed_events;
}

pub mark_processed-committed :
    (event consumer stream : Text) (db after : Db)
    → mark_processed event consumer stream db ≡ committed after
    → (is_marked event consumer db ≡ false) × (with_mark event consumer stream db ≡ after)
unfolding mark_processed
mark_processed-committed event consumer stream db after e =
    elim (Bool-cases (is_marked event consumer db)) [
      | inl m ↦ ground (arith, m, e)
      | inr m ↦ (m, ground (arith, m, e))
    ]

updated_mark-IsSound :
    (segments : List RoadSegment) (log : List Taken) (event consumer : Text) (db after : Db)
    → IsSound segments log db
    → mark_processed event consumer updated_stream db ≡ committed after
    → IsSound segments log after
unfolding ◌===◌
updated_mark-IsSound segments log event consumer db after (w, u, answers) e =
    let (m, same) = mark_processed-committed event consumer updated_stream db after e in
    rw (sym same) (w, (m, u), other_mark _ refl answers)

pub length-enqueue :
    (stream new_id correlation : Text) (payload : AssessmentResult) (db : Db)
    → length (enqueue stream new_id correlation payload db).outbox ≡ suc (length db.outbox)
unfolding enqueue
length-enqueue stream new_id correlation payload db = omega (
  arith,
  length-append db.outbox (
      record { stream = stream; event_id = new_id; correlation_id = correlation; payload = payload }
      ∷ []),
)

pub not_committed : (after : Db) → exception ≡ committed after → ⊥
not_committed after e = ground arith

module _ (from_iso : Text → Option ℕ) (segments : List RoadSegment) where
  assess_route_use_case-IsSound :
      (log : List Taken) (routes : List StoredRoute) (booking route : Text) (departure : ℕ)
      (new_id consumer : Text) (envelope : Envelope CreatedData) (db after : Db)
      → Occurs (consumer, envelope) log
      → envelope.payload.booking_id ≡ some booking
      → IsSound segments log db
      → assess_route_use_case routes segments booking route departure new_id envelope.event_id
          consumer created_stream envelope.correlation_id db
        ≡ committed after
      → IsSound segments log after
  unfolding assess_route_use_case enqueue
  assess_route_use_case-IsSound log routes booking route departure new_id consumer envelope db after
        there names h e =
      let (result, a, w) =
        assess_and_reserve-IsWithinCapacity routes segments booking route departure db.reservations
          h.0 in
      let (other_result, again, its) =
        assess_and_reserve-total routes segments booking route departure db.reservations in
      let own : result.0.booking_id ≡ booking = ground (arith, a, again, its) in
      let (m, same) =
        mark_processed-committed envelope.event_id consumer created_stream _ after
          (rw (assess_route_use_case, a) at e) in
      rw (sym same)
        (w, (m, h.1), one_answer consumer envelope _ there (names ∙ ap some (sym own)) refl h.2)

  handle_booking_created-IsSound :
      (log : List Taken) (routes : List StoredRoute) (consumer new_id : Text)
      (envelope : Envelope CreatedData) (db after : Db)
      → Occurs (consumer, envelope) log
      → IsSound segments log db
      → handle_booking_created from_iso routes segments consumer new_id envelope db
        ≡ committed after
      → IsSound segments log after
  handle_booking_created-IsSound log routes consumer new_id envelope db after there h e =
      elim (handle_booking_created-cases from_iso routes segments consumer new_id envelope db) [
        | inl x ↦ absurd (not_committed after (sym x ∙ e))
        | inr (booking, route, departure, b, x) ↦
            assess_route_use_case-IsSound log routes booking route departure new_id consumer
              envelope db after there b h (sym x ∙ e)
      ]

  handle_booking_updated-IsSound :
      (log : List Taken) (consumer : Text) (envelope : Envelope UpdatedData) (db after : Db)
      → IsSound segments log db
      → handle_booking_updated consumer envelope db ≡ committed after
      → IsSound segments log after
  handle_booking_updated-IsSound log consumer envelope db after h e =
      elim (handle_booking_updated-cases consumer envelope db) [
        | inl x ↦ absurd (not_committed after (sym x ∙ e))
        | inr (inl (booking, x)) ↦
            updated_mark-IsSound segments log envelope.event_id consumer _ after
              (
                (λ id time. omega (
                  arith,
                  h.0 id time,
                  occupancy-delete_by_booking-le db.reservations booking id time,
                )),
                h.1,
                h.2,
              )
              (sym x ∙ e)
        | inr (inr x) ↦
            updated_mark-IsSound segments log envelope.event_id consumer db after h (sym x ∙ e)
      ]

  -- While the table of road segments stays as it is, in all tables that the consumers reach no
  -- segment has at any time more reservations than its capacity, no event is marked twice by one
  -- consumer, and the marks of booking.created and the answers in the outbox belong together one by
  -- one in their order: each mark is of a message that its consumer took, and its answer is for the
  -- booking of that message, with its correlation id.
  pub DbReach-IsSound :
      {log : List Taken} {db : Db} → DbReach from_iso segments log db → IsSound segments log db
  DbReach-IsSound at_first = ((λ id time. omega arith), tt, nothing_taken)
  DbReach-IsSound (created_message {log} {db} routes consumer new_id envelope fails r) =
      let (w, u, answers) = DbReach-IsSound r in
      let taken : Taken = (consumer, envelope) in
      let h : IsSound segments (taken ∷ log) db = (w, u, IsAnswered-later taken answers) in
      process_with_retry-keeps (IsSound segments (taken ∷ log)) fails _ db
        (λ after.
          handle_booking_created-IsSound (taken ∷ log) routes consumer new_id envelope db after
            (inl refl) h)
        h
  DbReach-IsSound (updated_message {log} {db} consumer envelope fails r) =
      let h = DbReach-IsSound r in
      process_with_retry-keeps (IsSound segments log) fails _ db
        (λ after. handle_booking_updated-IsSound log consumer envelope db after h) h

-- ===== src/ConflictDetection/Delivery.antt =====
-- conflict-detection-service: a message that is delivered again changes nothing more.
use traffic_service.ConflictDetection.Handled.{
  handle_booking_created-cases, handle_booking_updated-cases,
}
use traffic_service.ConflictDetection.Tables.{RoadSegment, StoredRoute}
use traffic_service.ConflictDetection.Service.{assess_and_reserve}
use traffic_service.ConflictDetection.Consumer.{
  Db, Attempt, committed, integrity_error, same_key, mark_processed, returned, db_of, attempts_left,
  exception, enqueue, Envelope, assess_route_use_case, CreatedData, UpdatedData, created_stream,
  updated_stream, handle_booking_created, handle_booking_updated, max_attempts, process_with_retry,
}
use traffic_service.Base.{
  Bool-cases, Option-cases, any, Text, ===_refl, ℕ, zero, suc, ◌+◌, ◌≡◌, refl, sym, ap, ◌∙◌, ◌⊎◌,
  inl, inr, Bool, true, false, Option, List, arith,
}

-- The event is marked as processed by the consumer.
abbrev pub is_marked : Text → Text → Db → Bool
is_marked event consumer db = any (same_key event consumer) db.processed_events

-- What one run of a handler does with an event: it commits only an event that was not marked and
-- marks it, and a row that is there already stops it only where the event was marked.
abbrev pub Marks : Attempt → Text → Text → Db → Type 0
Marks run event consumer db =
    ((after : Db)
      → run ≡ committed after
      → (is_marked event consumer db ≡ false) × (is_marked event consumer after ≡ true))
    × (run ≡ integrity_error → is_marked event consumer db ≡ true)

pub Attempt-cases :
    (a : Attempt) → ((after : Db) × (a ≡ committed after)) ⊎ (a ≡ integrity_error) ⊎ (a ≡ exception)
Attempt-cases (committed after) = inl (after, refl)
Attempt-cases integrity_error = inr (inl refl)
Attempt-cases exception = inr (inr refl)

attempts_left-cases :
    (fails : ℕ → Bool) (handler : Db → Attempt) (left n : ℕ) (db after : Db)
    → attempts_left fails handler left n db ≡ returned after
    → (handler db ≡ committed after) ⊎ ((handler db ≡ integrity_error) × (after ≡ db))
unfolding attempts_left
attempts_left-cases fails handler zero n db after e = ground arith
attempts_left-cases fails handler (suc left) n db after e =
    ground (arith, attempts_left-cases fails handler left (n + 1) db after)

attempts_left-marked :
    (fails : ℕ → Bool) (handler : Db → Attempt) (event consumer : Text) (left n : ℕ) (db : Db)
    → Marks (handler db) event consumer db
    → is_marked event consumer db ≡ true
    → db_of (attempts_left fails handler left n db) ≡ db
unfolding attempts_left
attempts_left-marked fails handler event consumer zero n db marks m = refl
attempts_left-marked fails handler event consumer (suc left) n db marks m =
    let again = attempts_left-marked fails handler event consumer left (n + 1) db marks m in
    elim (Attempt-cases (handler db)) [
      | inl (after, e) ↦ ground (arith, marks.0 after e, m)
      | inr (inl e) ↦ ground (arith, e, again)
      | inr (inr e) ↦ ground (arith, e, again)
    ]

abbrev marked_by : Text → Text → Attempt → Bool
marked_by event consumer (committed after) = is_marked event consumer after
marked_by event consumer integrity_error = false
marked_by event consumer exception = false

mark_processed-Marks :
    (event consumer stream : Text) (db changed : Db)
    → changed.processed_events ≡ db.processed_events
    → Marks (mark_processed event consumer stream changed) event consumer db
unfolding mark_processed
mark_processed-Marks event consumer stream db changed same =
    rw (sym same) (elim (Bool-cases (is_marked event consumer changed)) [
      | inl m ↦ rw m ((λ after e. ground arith), (λ e. refl))
      | inr m ↦ rw m (
        (λ after e. (
          refl,
          sym (ap (marked_by event consumer) e) ∙ ground (arith, ===_refl event, ===_refl consumer),
        )),
        (λ e. ground arith),
      )
    ])

exception-Marks : (event consumer : Text) (db : Db) → Marks exception event consumer db
exception-Marks event consumer db = ((λ after e. ground arith), (λ e. ground arith))

assess_route_use_case-Marks :
    (routes : List StoredRoute) (segments : List RoadSegment) (booking route : Text) (departure : ℕ)
    (new_id event consumer stream correlation : Text) (db : Db)
    → Marks
        (assess_route_use_case routes segments booking route departure new_id event consumer stream
          correlation db)
        event
        consumer
        db
unfolding assess_route_use_case enqueue
assess_route_use_case-Marks routes segments booking route departure new_id event consumer stream
      correlation db =
    elim (Option-cases
      (assess_and_reserve routes segments booking route departure db.reservations)) [
        | inl a ↦ rw (assess_route_use_case, a) (exception-Marks event consumer db)
        | inr (result, a) ↦
            rw (assess_route_use_case, a) (mark_processed-Marks event consumer stream db _ refl)
      ]

handle_booking_created-Marks :
    (from_iso : Text → Option ℕ) (routes : List StoredRoute) (segments : List RoadSegment)
    (consumer new_id : Text) (envelope : Envelope CreatedData) (db : Db)
    → Marks
        (handle_booking_created from_iso routes segments consumer new_id envelope db)
        envelope.event_id
        consumer
        db
handle_booking_created-Marks from_iso routes segments consumer new_id envelope db =
    elim (handle_booking_created-cases from_iso routes segments consumer new_id envelope db) [
      | inl e ↦ rw e (exception-Marks envelope.event_id consumer db)
      | inr (booking, route, departure, b, e) ↦ rw e (
          assess_route_use_case-Marks routes segments booking route departure new_id
            envelope.event_id consumer created_stream envelope.correlation_id db)
    ]

handle_booking_updated-Marks :
    (consumer : Text) (envelope : Envelope UpdatedData) (db : Db)
    → Marks (handle_booking_updated consumer envelope db) envelope.event_id consumer db
handle_booking_updated-Marks consumer envelope db =
    elim (handle_booking_updated-cases consumer envelope db) [
      | inl e ↦ rw e (exception-Marks envelope.event_id consumer db)
      | inr (inl (booking, e)) ↦
          rw e (mark_processed-Marks envelope.event_id consumer updated_stream db _ refl)
      | inr (inr e) ↦
          rw e (mark_processed-Marks envelope.event_id consumer updated_stream db db refl)
    ]

-- Two runs on one event: where the first returned, the second changes nothing.
run-again :
    (fails later_fails : ℕ → Bool) (first second : Db → Attempt) (event consumer : Text)
    (db after : Db)
    → Marks (first db) event consumer db
    → Marks (second after) event consumer after
    → process_with_retry fails first db ≡ returned after
    → db_of (process_with_retry later_fails second after) ≡ after
unfolding process_with_retry
run-again fails later_fails first second event consumer db after m n e =
    attempts_left-marked later_fails second event consumer max_attempts 1 after n
      (elim (attempts_left-cases fails first max_attempts 1 db after e) [
        | inl run ↦ (m.0 after run).1
        | inr (run, same) ↦ rw same (m.1 run)
      ])

-- After a message on booking.created has been processed, its event leaves the tables as they are
-- when it comes again to the same consumer, whatever the tables of routes and segments hold by then.
pub handle_booking_created-again :
    (from_iso : Text → Option ℕ) (routes later_routes : List StoredRoute)
    (segments later_segments : List RoadSegment) (consumer new_id other_id : Text)
    (envelope : Envelope CreatedData) (fails later_fails : ℕ → Bool) (db after : Db)
    → process_with_retry fails
        (handle_booking_created from_iso routes segments consumer new_id envelope)
        db
      ≡ returned after
    → db_of (
        process_with_retry later_fails
          (handle_booking_created from_iso later_routes later_segments consumer other_id envelope)
          after)
      ≡ after
handle_booking_created-again from_iso routes later_routes segments later_segments consumer new_id
      other_id envelope fails later_fails db after e =
    run-again fails later_fails _ _ envelope.event_id consumer db after
      (handle_booking_created-Marks from_iso routes segments consumer new_id envelope db)
      (handle_booking_created-Marks from_iso later_routes later_segments consumer other_id envelope
        after)
      e

-- So does the event of a message on booking.updated.
pub handle_booking_updated-again :
    (consumer : Text) (envelope : Envelope UpdatedData) (fails later_fails : ℕ → Bool)
    (db after : Db)
    → process_with_retry fails (handle_booking_updated consumer envelope) db ≡ returned after
    → db_of (process_with_retry later_fails (handle_booking_updated consumer envelope) after)
      ≡ after
handle_booking_updated-again consumer envelope fails later_fails db after e =
    run-again fails later_fails _ _ envelope.event_id consumer db after
      (handle_booking_updated-Marks consumer envelope db)
      (handle_booking_updated-Marks consumer envelope after) e

-- ===== src/Assessment/Answered.antt =====
-- What the deliveries to the conflict detection service do where nothing fails: an event on
-- booking.created is answered.
use traffic_service.ConflictDetection.Assessed.{assess_and_reserve-total}
use traffic_service.BookingService.Service.{Fault, no_fault}
use traffic_service.Assessment.Effects.{created_envelope}
use traffic_service.RouteMap.Synced.{apart}
use traffic_service.ConflictDetection.Handled.{handle_booking_updated-cases}
use traffic_service.ConflictDetection.Tables.{RoadSegment, StoredRoute}
use traffic_service.ConflictDetection.Consumer.{
  OutboxEvent, Db, committed, mark_processed, enqueue, Envelope, assess_route_use_case, UpdatedData,
  created_stream, updated_stream, handle_booking_created, handle_booking_updated, db_of,
  attempts_left, process_with_retry,
}
use traffic_service.ConflictDetection.Delivery.{is_marked}
use traffic_service.ConflictDetection.Kept.{
  process_with_retry-keeps, with_mark, mark_processed-committed, not_committed,
}
use traffic_service.Base.{
  Text, codes, ◌===◌, ℕ, ◌≡◌, refl, sym, ◌∙◌, inl, inr, Bool, true, false, ◌||◌, Option, some, List,
  [], ◌∷◌, ◌++◌, arith,
}

-- Nothing is lost.
abbrev pub no_failure : ℕ → Bool
no_failure n = false

abbrev pub no_faults : ℕ → Fault
no_faults n = no_fault

-- At most this event is marked by this consumer.
abbrev pub MarksOnly : Text → Text → Db → Db → Type 0
MarksOnly event consumer db after =
    (id : Text)
    → is_marked id consumer after ≡ true
    → ((event === id) || is_marked id consumer db) ≡ true

-- The outbox has one event more, for this booking and with this id.
abbrev pub AnswersFor : Text → Text → Db → Db → Type 0
AnswersFor booking new_id db after =
    (m : OutboxEvent) × (m.event_id ≡ new_id)
    × (m.payload.booking_id ≡ booking)
    × (after.outbox ≡ db.outbox ++ (m ∷ []))

mark_processed-unmarked :
    (event consumer stream : Text) (db : Db)
    → is_marked event consumer db ≡ false
    → mark_processed event consumer stream db ≡ committed (with_mark event consumer stream db)
unfolding mark_processed
mark_processed-unmarked event consumer stream db m = rw m refl

-- An event on booking.created that is not marked is answered and marked.
pub takes_created_lem :
    (from_iso : Text → Option ℕ) (to_text : ℕ → Text) (routes : List StoredRoute)
    (segments : List RoadSegment) (consumer new_id event correlation booking driver route : Text)
    (departure instant : ℕ) (db : Db)
    → from_iso (to_text departure) ≡ some instant
    → is_marked event consumer db ≡ false
    → let after = db_of (
        process_with_retry no_failure
          (handle_booking_created from_iso routes segments consumer new_id
            (created_envelope event correlation booking driver route (to_text departure)))
          db) in
      AnswersFor booking new_id db after × MarksOnly event consumer db after
unfolding process_with_retry attempts_left handle_booking_created assess_route_use_case enqueue
takes_created_lem from_iso to_text routes segments consumer new_id event correlation booking driver
      route departure instant db reads unmarked =
    let (result, a, same) =
      assess_and_reserve-total routes segments booking route instant db.reservations in
    rw reads (
      rw (assess_route_use_case, a)
        (rw
          (mark_processed-unmarked event consumer created_stream
            (enqueue (codes "route.assessed") new_id correlation result.0
              (record db { reservations = result.1 }))
            unmarked)
          (
            (
              record {
                stream = codes "route.assessed";
                event_id = new_id;
                correlation_id = correlation;
                payload = result.0;
              },
              refl,
              same,
              refl,
            ),
            λ id h. ground (arith, h),
          )))

-- An event on booking.updated is not answered, and the other consumer's marks stay.
pub takes_updated_lem :
    (consumer other_consumer : Text) (envelope : Envelope UpdatedData) (fails : ℕ → Bool) (db : Db)
    → (consumer === other_consumer) ≡ false
    → let after = db_of (process_with_retry fails (handle_booking_updated consumer envelope) db) in
      (after.outbox ≡ db.outbox)
      × ((id : Text) → is_marked id other_consumer after ≡ is_marked id other_consumer db)
takes_updated_lem consumer other_consumer envelope fails db apart =
    process_with_retry-keeps
      (λ after.
        (after.outbox ≡ db.outbox)
        × ((id : Text) → is_marked id other_consumer after ≡ is_marked id other_consumer db))
      fails (handle_booking_updated consumer envelope) db
      (λ after e. elim (handle_booking_updated-cases consumer envelope db) [
        | inl x ↦ absurd (not_committed after (sym x ∙ e))
        | inr (inl (booking, x)) ↦
            rw
              (sym
                (mark_processed-committed envelope.event_id consumer updated_stream _ after
                  (sym x ∙ e)).1)
              (refl, λ id. ground (arith, apart))
        | inr (inr x) ↦
            rw
              (sym
                (mark_processed-committed envelope.event_id consumer updated_stream db after
                  (sym x ∙ e)).1)
              (refl, λ id. ground (arith, apart))
      ])
      (refl, λ id. refl)

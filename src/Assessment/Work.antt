-- ===== src/Assessment/Work.antt =====
-- The deliveries between the two services come to an end by themselves.
use traffic_service.Assessment.OneMore.{message_attempts-adds}
use traffic_service.ConflictDetection.Handled.{
  handle_booking_created-cases, handle_booking_updated-cases,
}
use traffic_service.ConflictDetection.Tables.{RoadSegment, StoredRoute}
use traffic_service.ConflictDetection.Consumer.{
  Db, committed, Envelope, assess_route_use_case, CreatedData, UpdatedData, created_stream,
  updated_stream, handle_booking_created, handle_booking_updated,
}
use traffic_service.ConflictDetection.Kept.{
  process_with_retry-keeps, mark_processed-committed, length-enqueue, not_committed,
}
use traffic_service.ConflictDetection.Service.{assess_and_reserve}
use traffic_service.BookingService.Service.{handle_message_with_retry}
use traffic_service.Assessment.{
  created_events, updated_events, System, route_assessed, Handover, takes_created, takes_updated,
  takes_assessed, Handovers, no_more, first_then,
}
use traffic_service.Base.{
  Option-cases, length, get_elem?, Text, codes, ℕ, zero, suc, ◌+◌, ◌-◌, ◌*◌, ◌≤◌, ◌<◌, ◌≡◌, sym,
  ◌∙◌, inl, inr, Option, some, List, [], ◌∷◌, arith,
}

-- What is left to do: an event on booking.created may lead to one on route.assessed, and that to
-- three on booking.updated, one for each attempt.
abbrev pub work : System → ℕ
work s =
    5 * (length (created_events s.booking.outbox) - s.created_taken)
    + 4 * (length s.conflict.outbox - s.assessed_taken)
    + (length (updated_events s.booking.outbox) - s.updated_taken)

pub get_elem?-lt {ℓ} :
    {A : Type ℓ} (xs : List A) (i : ℕ) (x : A) → get_elem? xs i ≡ some x → i < length xs
get_elem?-lt [] i x e = ground arith
get_elem?-lt (y ∷ xs) zero x e = omega arith
get_elem?-lt (y ∷ xs) (suc i) x e = omega (arith, get_elem?-lt xs i x e)

assess_route_use_case-outbox :
    (routes : List StoredRoute) (segments : List RoadSegment) (booking route : Text) (departure : ℕ)
    (new_id event consumer stream correlation : Text) (db after : Db)
    → assess_route_use_case routes segments booking route departure new_id event consumer stream
        correlation db
      ≡ committed after
    → length after.outbox ≤ suc (length db.outbox)
unfolding assess_route_use_case
assess_route_use_case-outbox routes segments booking route departure new_id event consumer stream
      correlation db after e =
    elim (Option-cases
      (assess_and_reserve routes segments booking route departure db.reservations)) [
        | inl a ↦ absurd (not_committed after (rw (assess_route_use_case, a) at e))
        | inr (result, a) ↦
            let (m, same) =
              mark_processed-committed event consumer stream _ after
                (rw (assess_route_use_case, a) at e) in
            rw (sym same) (
              omega (
                arith,
                length-enqueue (codes "route.assessed") new_id correlation result.0
                    (record db { reservations = result.1 }),
              ))
      ]

-- A handler of the conflict detection service adds at most one event on route.assessed.
handle_booking_created-outbox :
    (from_iso : Text → Option ℕ) (routes : List StoredRoute) (segments : List RoadSegment)
    (consumer new_id : Text) (envelope : Envelope CreatedData) (db after : Db)
    → handle_booking_created from_iso routes segments consumer new_id envelope db ≡ committed after
    → length after.outbox ≤ suc (length db.outbox)
handle_booking_created-outbox from_iso routes segments consumer new_id envelope db after e =
    elim (handle_booking_created-cases from_iso routes segments consumer new_id envelope db) [
      | inl x ↦ absurd (not_committed after (sym x ∙ e))
      | inr (booking, route, departure, b, x) ↦
          assess_route_use_case-outbox routes segments booking route departure new_id
            envelope.event_id consumer created_stream envelope.correlation_id db after (sym x ∙ e)
    ]

handle_booking_updated-outbox :
    (consumer : Text) (envelope : Envelope UpdatedData) (db after : Db)
    → handle_booking_updated consumer envelope db ≡ committed after
    → length after.outbox ≤ length db.outbox
handle_booking_updated-outbox consumer envelope db after e =
    elim (handle_booking_updated-cases consumer envelope db) [
      | inl x ↦ absurd (not_committed after (sym x ∙ e))
      | inr (inl (booking, x)) ↦
          rw
            (sym
              (mark_processed-committed envelope.event_id consumer updated_stream _ after
                (sym x ∙ e)).1)
            (omega arith)
      | inr (inr x) ↦
          rw
            (sym
              (mark_processed-committed envelope.event_id consumer updated_stream db after
                (sym x ∙ e)).1)
            (omega arith)
    ]

module _ (from_iso : Text → Option ℕ) (parse_uuid : Text → Option Text)
    (segments : List RoadSegment) where
  -- Each delivery lowers what is left to do.
  pub Handover-work-lt :
      {s t : System} → Handover from_iso parse_uuid segments s t → work t < work s
  unfolding handle_message_with_retry
  Handover-work-lt (takes_created routes consumer new_id fails s e h) =
      let more =
        process_with_retry-keeps (λ after. length after.outbox ≤ suc (length s.conflict.outbox))
          fails (handle_booking_created from_iso routes segments consumer new_id e) s.conflict
          (λ after.
            handle_booking_created-outbox from_iso routes segments consumer new_id e s.conflict
              after)
          (omega arith) in
      omega (arith, more, get_elem?-lt (created_events s.booking.outbox) s.created_taken e h)
  Handover-work-lt (takes_updated consumer fails s e h) =
      let more =
        process_with_retry-keeps (λ after. length after.outbox ≤ length s.conflict.outbox) fails
          (handle_booking_updated consumer e) s.conflict
          (λ after. handle_booking_updated-outbox consumer e s.conflict after) (omega arith) in
      omega (arith, more, get_elem?-lt (updated_events s.booking.outbox) s.updated_taken e h)
  Handover-work-lt (takes_assessed new_ids faults s e h) =
      let more =
        message_attempts-adds parse_uuid faults new_ids e.event_id e.correlation_id
          (route_assessed e.payload) 3 1 s.booking in
      rw more.0 (omega (arith, more.1, get_elem?-lt s.conflict.outbox s.assessed_taken e h))

  pub Handovers-work-le :
      {n : ℕ} {s t : System} → Handovers from_iso parse_uuid segments n s t → n + work t ≤ work s
  Handovers-work-le (no_more s) = omega arith
  Handovers-work-le (first_then d ds) = omega (arith, Handover-work-lt d, Handovers-work-le ds)

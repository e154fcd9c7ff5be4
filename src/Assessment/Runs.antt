-- ===== src/Assessment/Runs.antt =====
-- The invariant of the runs of the two services without failures.
use traffic_service.Assessment.Closed.{takes_assessed_lem}
use traffic_service.Assessment.Answered.{
  no_failure, takes_created_lem, takes_updated_lem, no_faults,
}
use traffic_service.ConflictDetection.Delivery.{is_marked}
use traffic_service.Assessment.Run.{
  created_consumer, updated_consumer, Runs, starts, asked_new, asked_cancel, passed, took_created,
  took_updated, took_assessed,
}
use traffic_service.Assessment.Open.{
  IsOpen, Quiet-IsOpen, Added-IsOpen, updated-IsOpen, waiting, answers, created-IsOpen,
  assessed-IsOpen,
}
use traffic_service.Assessment.Effects.{
  cancel_booking_handler-Quiet, expire_each-Quiet, create_booking_handler-Added,
}
use traffic_service.BookingService.Rows.{find_expired, is_event_processed}
use traffic_service.BookingService.Handler.{
  CreateRequest, create_booking_handler, cancel_booking_handler,
}
use traffic_service.BookingService.Reached.{
  create_booking_handler-IsReplayed, cancel_booking_handler-IsReplayed, expire_each-IsReplayed,
  handle_message_with_retry-IsReplayed,
}
use traffic_service.BookingService.Service.{expire_bookings, handle_message_with_retry}
use traffic_service.ConflictDetection.Tables.{RoadSegment, StoredRoute}
use traffic_service.ConflictDetection.Consumer.{
  OutboxEvent, Envelope, CreatedData, handle_booking_created, db_of, process_with_retry,
  handle_booking_updated,
}
use traffic_service.Assessment.{created_events, route_assessed, System}
use traffic_service.Base.{
  length, get_elem?, drop, drop-get_elem?, Text, codes, ===_refl, ◌===◌, ℕ, suc, ◌+◌, ◌≡◌, refl,
  sym, ap, inl, inr, false, Option, some, List, ◌∷◌, arith,
}

module _ (uuid : ℕ → Text) (unique : (m n : ℕ) → uuid m ≡ uuid n → m ≡ n) (to_text : ℕ → Text)
    (from_iso : Text → Option ℕ)
    (reads : (t : ℕ) → (instant : ℕ) × (from_iso (to_text t) ≡ some instant))
    (parse_uuid : Text → Option Text) (parses : (n : ℕ) → parse_uuid (uuid n) ≡ some (uuid n))
    (segments : List RoadSegment) (instance_name : Text) where
  abbrev pub Open : ℕ → System → Type 0
  Open n s = IsOpen uuid unique to_text parse_uuid instance_name n s

  consumers_differ : (updated_consumer instance_name === created_consumer instance_name) ≡ false
  unfolding ◌===◌
  consumers_differ = refl

  asked_new-Open :
      (n : ℕ) (s : System) (now : ℕ) (correlation : Text) (driver : Option Text)
      (req : Option CreateRequest)
      → Open n s
      → Open (suc (suc n)) (record s {
        booking =
            (create_booking_handler to_text now
              (uuid n)
              (uuid (suc n))
              correlation
              driver
              req
              s.booking).1;
      })
  asked_new-Open n s now correlation driver req h =
      let replayed =
        create_booking_handler-IsReplayed to_text parse_uuid now (uuid n) (uuid (suc n)) correlation
          driver req s.booking h.0 in
      elim (create_booking_handler-Added to_text now (uuid n) (uuid (suc n)) correlation driver req
        s.booking) [
          | inl quiet ↦
              Quiet-IsOpen uuid unique to_text parse_uuid instance_name n (suc (suc n)) s _
                (omega arith) quiet replayed h
          | inr more ↦
              Added-IsOpen uuid unique to_text parse_uuid instance_name n s _ (parses n) more
                replayed h
        ]

  took_created-Open :
      (n : ℕ) (s : System) (routes : List StoredRoute) (e : Envelope CreatedData)
      → get_elem? (created_events s.booking.outbox) s.created_taken ≡ some e
      → Open n s
      → Open (suc n) (record s {
        conflict = db_of (
            process_with_retry no_failure
              (handle_booking_created from_iso routes segments
                (created_consumer instance_name)
                (uuid n)
                e)
              s.conflict);
        created_taken = suc s.created_taken;
      })
  took_created-Open n s routes e here h =
      let rest = drop (suc s.created_taken) (created_events s.booking.outbox) in
      let front : waiting s ≡ e ∷ rest =
        drop-get_elem? s.created_taken (created_events s.booking.outbox) e here in
      let (r, c, a, w, q, p, u, open_) = h in
      let (correlation, booking, driver, route, departure, shape, readable) = (rw front at w).0 in
      let unmarked : is_marked e.event_id (created_consumer instance_name) s.conflict ≡ false =
        (rw front at q).0 e.event_id (ground (arith, ===_refl e.event_id)) in
      let answered =
        takes_created_lem from_iso to_text routes segments (created_consumer instance_name) (uuid n)
          e.event_id correlation booking driver route departure (reads departure).0 s.conflict
          (reads departure).1 unmarked in
      let same = rw (sym shape) at answered in
      created-IsOpen uuid unique to_text parse_uuid instance_name n s e booking
        (db_of (
          process_with_retry no_failure
            (handle_booking_created from_iso routes segments (created_consumer instance_name)
              (uuid n) e)
            s.conflict))
        here (ap (λ (x : Envelope CreatedData). x.payload.booking_id) shape) readable same.0 same.1
        h

  took_assessed-Open :
      (n : ℕ) (s : System) (m : OutboxEvent)
      → get_elem? s.conflict.outbox s.assessed_taken ≡ some m
      → Open n s
      → Open (suc n) (record s {
        booking =
            handle_message_with_retry parse_uuid no_faults
              (λ attempt. uuid n)
              m.event_id
              m.correlation_id
              (route_assessed m.payload)
              s.booking;
        assessed_taken = suc s.assessed_taken;
      })
  unfolding route_assessed
  took_assessed-Open n s m here h =
      let front : answers s ≡ m ∷ drop (suc s.assessed_taken) s.conflict.outbox =
        drop-get_elem? s.assessed_taken s.conflict.outbox m here in
      let (r, c, a, w, q, p, u, open_) = h in
      let unseen : is_event_processed m.event_id (codes "booking-service") s.booking ≡ false =
        (rw front at u).0 m.event_id (ground (arith, ===_refl m.event_id)) in
      assessed-IsOpen uuid unique to_text parse_uuid instance_name n s m _ here
        (takes_assessed_lem parse_uuid (uuid n) m.event_id m.correlation_id
          (route_assessed m.payload) s.booking (rw front at p).0 unseen)
        (handle_message_with_retry-IsReplayed to_text parse_uuid no_faults (λ attempt. uuid n)
          m.event_id m.correlation_id (route_assessed m.payload) s.booking r)
        h

  -- What holds of the open bookings holds in every run.
  pub Runs-Open :
      {n : ℕ} {s : System}
      → Runs uuid to_text from_iso parse_uuid segments instance_name n s
      → Open n s
  unfolding expire_bookings created_events is_event_processed
  Runs-Open starts = (
    (refl, λ id. refl),
    omega arith,
    omega arith,
    tt,
    ((λ id m. refl), refl, (λ id m. absurd (ground (arith, m)))),
    tt,
    ((λ id m. refl), refl, (λ id m. absurd (ground (arith, m)))),
    (λ id h. ground (arith, h)),
  )
  Runs-Open (asked_new {n} {s} now correlation driver req r) =
      asked_new-Open n s now correlation driver req (Runs-Open r)
  Runs-Open (asked_cancel {n} {s} correlation booking driver r) =
      let h = Runs-Open r in
      Quiet-IsOpen uuid unique to_text parse_uuid instance_name n (suc n) s
        (cancel_booking_handler (uuid n) correlation booking driver s.booking).1 (omega arith)
        (cancel_booking_handler-Quiet (uuid n) correlation booking driver s.booking h.0)
        (cancel_booking_handler-IsReplayed to_text parse_uuid (uuid n) correlation booking driver
          s.booking h.0)
        h
  Runs-Open (passed {n} {s} correlation now r) =
      let h = Runs-Open r in
      Quiet-IsOpen uuid unique to_text parse_uuid instance_name n
        (n + length (find_expired now s.booking)) s
        (expire_bookings (λ k. uuid (n + k)) correlation now s.booking) (omega arith)
        (expire_each-Quiet (λ k. uuid (n + k)) 0 correlation (find_expired now s.booking) s.booking)
        (expire_each-IsReplayed to_text parse_uuid (λ k. uuid (n + k)) 0 correlation
          (find_expired now s.booking) s.booking h.0)
        h
  Runs-Open (took_created {n} {s} routes e here r) =
      took_created-Open n s routes e here (Runs-Open r)
  Runs-Open (took_updated {n} {s} e here r) =
      let kept =
        takes_updated_lem (updated_consumer instance_name) (created_consumer instance_name) e
          no_failure s.conflict consumers_differ in
      updated-IsOpen uuid unique to_text parse_uuid instance_name n (suc s.updated_taken) s
        (db_of (
          process_with_retry no_failure (handle_booking_updated (updated_consumer instance_name) e)
            s.conflict))
        kept.0 kept.1 (Runs-Open r)
  Runs-Open (took_assessed {n} {s} m here r) = took_assessed-Open n s m here (Runs-Open r)

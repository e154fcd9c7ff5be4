-- ===== src/Assessment/Settled.antt =====
-- Once the deliveries are done, every booking is decided.
use traffic_service.Assessment.Runs.{Runs-Open}
use traffic_service.Assessment.Answered.{no_failure, no_faults}
use traffic_service.Assessment.Work.{work, Handover-work-lt, Handovers-work-le}
use traffic_service.Assessment.Run.{created_consumer, Runs, took_created, took_assessed}
use traffic_service.BookingService.Replay.{status_of}
use traffic_service.ConflictDetection.Tables.{RoadSegment, StoredRoute}
use traffic_service.Api.Bookings.{pending}
use traffic_service.Assessment.{
  created_events, System, takes_created, takes_assessed, Handovers, no_more, Handover, first_then,
}
use traffic_service.Base.{
  Option-cases, get_elem?, drop-none, Text, ℕ, zero, suc, ◌≤◌, ◌≡◌, ◌≢◌, ◌⊎◌, inl, inr, Option,
  none, some, List, arith,
}

module _ (uuid : ℕ → Text) (unique : (m n : ℕ) → uuid m ≡ uuid n → m ≡ n) (to_text : ℕ → Text)
    (from_iso : Text → Option ℕ)
    (reads : (t : ℕ) → (instant : ℕ) × (from_iso (to_text t) ≡ some instant))
    (parse_uuid : Text → Option Text) (parses : (n : ℕ) → parse_uuid (uuid n) ≡ some (uuid n))
    (segments : List RoadSegment) (instance_name : Text) where
  -- Where ids do not repeat, times and ids can be read again and nothing is lost, no booking is
  -- pending once the events on booking.created and on route.assessed have been taken, whatever
  -- requests came before and in whatever order the events were taken.
  pub Runs-decided :
      {n : ℕ} {s : System}
      → Runs uuid to_text from_iso parse_uuid segments instance_name n s
      → get_elem? (created_events s.booking.outbox) s.created_taken ≡ none
      → get_elem? s.conflict.outbox s.assessed_taken ≡ none
      → (id : Text) → status_of s.booking.bookings id ≢ some pending
  Runs-decided {n} {s} r events_taken answers_taken id h =
      let (r0, c, a, w, q, p, u, open_) =
        Runs-Open uuid unique to_text from_iso reads parse_uuid parses segments instance_name r in
      absurd (
        ground (
          arith,
          rw (drop-none s.created_taken (created_events s.booking.outbox) events_taken) at
              (rw (drop-none s.assessed_taken s.conflict.outbox answers_taken) at (open_ id h)),
        ))

  -- Either there is an event to take, or every booking is decided.
  next_delivery :
      (routes : List StoredRoute) {n : ℕ} {s : System}
      → Runs uuid to_text from_iso parse_uuid segments instance_name n s
      → ((t : System) × Handover from_iso parse_uuid segments s t
          × Runs uuid to_text from_iso parse_uuid segments instance_name (suc n) t)
        ⊎ ((id : Text) → status_of s.booking.bookings id ≢ some pending)
  next_delivery routes {n} {s} r =
      elim (Option-cases (get_elem? (created_events s.booking.outbox) s.created_taken)) [
        | inr (e, here) ↦ inl (
          _,
          takes_created routes (created_consumer instance_name) (uuid n) no_failure s e here,
          took_created routes e here r,
        )
        | inl events_taken ↦ elim (Option-cases (get_elem? s.conflict.outbox s.assessed_taken)) [
          | inr (m, here) ↦
              inl (_, takes_assessed (λ attempt. uuid n) no_faults s m here, took_assessed m here r)
          | inl answers_taken ↦ inr (Runs-decided r events_taken answers_taken)
        ]
      ]

  settles_within :
      (routes : List StoredRoute) (fuel : ℕ) {n : ℕ} {s : System}
      → work s ≤ fuel
      → Runs uuid to_text from_iso parse_uuid segments instance_name n s
      → (k : ℕ) × (m : ℕ) × (t : System) × Handovers from_iso parse_uuid segments k s t
        × Runs uuid to_text from_iso parse_uuid segments instance_name m t
        × ((id : Text) → status_of t.booking.bookings id ≢ some pending)
  settles_within routes zero {n} {s} enough r = elim (next_delivery routes r) [
    | inl (t, d, next_run) ↦
        absurd (omega (arith, Handover-work-lt from_iso parse_uuid segments d, enough))
    | inr decided ↦ (0, n, s, no_more s, r, decided)
  ]
  settles_within routes (suc fuel) {n} {s} enough r = elim (next_delivery routes r) [
    | inl (t, d, next_run) ↦
        let (k, m, u, ds, last_run, decided) =
          settles_within routes fuel {n = suc n} {s = t}
            (omega (arith, Handover-work-lt from_iso parse_uuid segments d, enough)) next_run in
        (suc k, m, u, first_then d ds, last_run, decided)
    | inr decided ↦ (0, n, s, no_more s, r, decided)
  ]

  -- Where ids do not repeat, times and ids can be read again and nothing is lost, from every state
  -- that requests and deliveries lead to, deliveries alone lead to one in which no booking is
  -- pending, and no more of them than the work that is left.
  pub Runs-settles :
      (routes : List StoredRoute) {n : ℕ} {s : System}
      → Runs uuid to_text from_iso parse_uuid segments instance_name n s
      → (k : ℕ) × (t : System) × (k ≤ work s)
        × Handovers from_iso parse_uuid segments k s t
        × ((id : Text) → status_of t.booking.bookings id ≢ some pending)
  Runs-settles routes {n} {s} r =
      let (k, m, t, ds, last_run, decided) = settles_within routes (work s) (omega arith) r in
      (k, t, omega (arith, Handovers-work-le from_iso parse_uuid segments ds), ds, decided)

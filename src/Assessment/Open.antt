-- ===== src/Assessment/Open.antt =====
-- Every pending booking has an event on its way.
use traffic_service.Assessment.Closed.{SettlesOnly}
use traffic_service.Assessment.Answered.{MarksOnly, AnswersFor}
use traffic_service.Assessment.Work.{get_elem?-lt}
use traffic_service.Assessment.Queue.{
  IsFreshQueue, IsFreshQueue-later, IsFreshQueue-push, IsFreshQueue-pop,
}
use traffic_service.Assessment.Run.{created_consumer}
use traffic_service.Assessment.Effects.{Quiet, created_envelope, Added}
use traffic_service.BookingService.Rows.{BookingDb, is_event_processed}
use traffic_service.BookingService.Replay.{status_of, replayed, IsReplayed}
use traffic_service.ConflictDetection.Consumer.{OutboxEvent, Envelope, CreatedData, Db}
use traffic_service.ConflictDetection.Delivery.{is_marked}
use traffic_service.Base.Sets.{contains}
use traffic_service.Api.Bookings.{pending}
use traffic_service.Assessment.{created_events, System}
use traffic_service.Base.{
  ◌or_else◌, length, get_elem?, drop, All, length-append, All-append, drop-append, drop-get_elem?,
  Text, codes, ===_iff, ◌===◌, ℕ, suc, ◌≤◌, ◌≡◌, refl, sym, ◌⊎◌, inl, inr, true, ◌||◌, Option, some,
  List, [], ◌∷◌, ◌++◌, arith,
}

-- The ids of the events and of their bookings
abbrev pub created_ids : List (Envelope CreatedData) → List Text
created_ids [] = []
created_ids (e ∷ es) = e.event_id ∷ created_ids es

abbrev pub created_bookings : List (Envelope CreatedData) → List Text
created_bookings [] = []
created_bookings (e ∷ es) = (e.payload.booking_id or_else []) ∷ created_bookings es

abbrev pub answer_ids : List OutboxEvent → List Text
answer_ids [] = []
answer_ids (m ∷ ms) = m.event_id ∷ answer_ids ms

abbrev pub answer_bookings : List OutboxEvent → List Text
answer_bookings [] = []
answer_bookings (m ∷ ms) = m.payload.booking_id ∷ answer_bookings ms

-- The events that the consumers have not taken.
abbrev pub waiting : System → List (Envelope CreatedData)
waiting s = drop s.created_taken (created_events s.booking.outbox)

abbrev pub answers : System → List OutboxEvent
answers s = drop s.assessed_taken s.conflict.outbox

module _ (uuid : ℕ → Text) (unique : (m n : ℕ) → uuid m ≡ uuid n → m ≡ n) (to_text : ℕ → Text)
    (parse_uuid : Text → Option Text) (instance_name : Text) where
  -- An event for a new booking, with an id that can be read.
  abbrev pub IsWellFormed : Envelope CreatedData → Type 0
  IsWellFormed e =
      (correlation : Text) × (booking : Text) × (driver : Text) × (route : Text) × (departure : ℕ)
      × (e ≡ created_envelope e.event_id correlation booking driver route (to_text departure))
      × (parse_uuid booking ≡ some booking)

  -- Both queues are in order, and each pending booking has an event in one of them.
  abbrev pub IsOpen : ℕ → System → Type 0
  IsOpen n s =
      IsReplayed s.booking
      × (s.created_taken ≤ length (created_events s.booking.outbox))
      × (s.assessed_taken ≤ length s.conflict.outbox)
      × All IsWellFormed (waiting s)
      × IsFreshQueue uuid unique n (λ id. is_marked id (created_consumer instance_name) s.conflict)
          (created_ids (waiting s))
      × All (λ (m : OutboxEvent). parse_uuid m.payload.booking_id ≡ some m.payload.booking_id)
          (answers s)
      × IsFreshQueue uuid unique n (λ id. is_event_processed id (codes "booking-service") s.booking)
          (answer_ids (answers s))
      × ((id : Text)
          → status_of s.booking.bookings id ≡ some pending
          → (contains id (created_bookings (waiting s))
              || contains id (answer_bookings (answers s)))
            ≡ true)

  -- A request that adds no event on booking.created.
  pub Quiet-IsOpen :
      (n k : ℕ) (s : System) (after : BookingDb)
      → n ≤ k
      → Quiet s.booking after
      → IsReplayed after
      → IsOpen n s
      → IsOpen k (record s { booking = after })
  unfolding is_event_processed
  Quiet-IsOpen n k s after le (same, marks, none_new) replayed (r, c, a, w, q, p, u, open_) =
      rw same (
        rw marks (
          replayed,
          c,
          a,
          w,
          IsFreshQueue-later uuid unique n k _ _ (created_ids (waiting s)) le (λ id. refl) q,
          p,
          IsFreshQueue-later uuid unique n k _ _ (answer_ids (answers s)) le (λ id. refl) u,
          (λ id h. open_ id (none_new id h)),
        ))

  created_ids-append :
      (es : List (Envelope CreatedData)) (e : Envelope CreatedData)
      → created_ids (es ++ (e ∷ [])) ≡ created_ids es ++ (e.event_id ∷ [])
  created_ids-append [] e = refl
  created_ids-append (d ∷ es) e = rw (created_ids-append es e) refl

  created_bookings-append :
      (es : List (Envelope CreatedData)) (e : Envelope CreatedData) (id : Text)
      → contains id (created_bookings (es ++ (e ∷ [])))
        ≡ (contains id (created_bookings es) || ((e.payload.booking_id or_else []) === id))
  created_bookings-append [] e id = ground arith
  created_bookings-append (d ∷ es) e id = ground (arith, created_bookings-append es e id)

  answer_ids-append :
      (ms : List OutboxEvent) (m : OutboxEvent)
      → answer_ids (ms ++ (m ∷ [])) ≡ answer_ids ms ++ (m.event_id ∷ [])
  answer_ids-append [] m = refl
  answer_ids-append (d ∷ ms) m = rw (answer_ids-append ms m) refl

  answer_bookings-append :
      (ms : List OutboxEvent) (m : OutboxEvent) (id : Text)
      → contains id (answer_bookings (ms ++ (m ∷ [])))
        ≡ (contains id (answer_bookings ms) || (m.payload.booking_id === id))
  answer_bookings-append [] m id = ground arith
  answer_bookings-append (d ∷ ms) m id = ground (arith, answer_bookings-append ms m id)

  -- A request that adds a booking, with two new ids.
  pub Added-IsOpen :
      (n : ℕ) (s : System) (after : BookingDb)
      → parse_uuid (uuid n) ≡ some (uuid n)
      → Added to_text s.booking after (uuid n) (uuid (suc n))
      → IsReplayed after
      → IsOpen n s
      → IsOpen (suc (suc n)) (record s { booking = after })
  unfolding is_event_processed
  Added-IsOpen n s after reads ((correlation, driver, route, departure, more), marks, only) replayed
        (r, c, a, w, q, p, u, open_) =
      let event : Envelope CreatedData =
        created_envelope (uuid (suc n)) correlation (uuid n) driver route (to_text departure) in
      let longer = drop-append s.created_taken (created_events s.booking.outbox) (event ∷ []) c in
      let opened : (id : Text)
          → (status_of s.booking.bookings id ≡ some pending) ⊎ (id ≡ uuid n)
          → (contains id (created_bookings (waiting s ++ (event ∷ [])))
              || contains id (answer_bookings (answers s)))
            ≡ true =
        λ id h. elim h [
          | inl old ↦ ground (arith, open_ id old, created_bookings-append (waiting s) event id)
          | inr e ↦
              ground (
                arith,
                (===_iff (uuid n) id).1 (sym e),
                created_bookings-append (waiting s) event id,
              )
        ] in
      rw more (
        rw marks (
          rw longer (
            replayed,
            omega (arith, c, length-append (created_events s.booking.outbox) (event ∷ [])),
            a,
            All-append IsWellFormed (waiting s) (event ∷ []) w
                ((correlation, uuid n, driver, route, departure, refl, reads), tt),
            rw (created_ids-append (waiting s) event) (
                IsFreshQueue-push uuid unique n (suc n) _ (created_ids (waiting s)) (omega arith)
                  q),
            p,
            IsFreshQueue-later uuid unique n (suc (suc n)) _ _ (answer_ids (answers s))
                (omega arith) (λ id. refl) u,
            (λ id h. opened id (only id h)),
          )))

  -- An event on booking.created is taken and answered.
  pub created-IsOpen :
      (n : ℕ) (s : System) (e : Envelope CreatedData) (booking : Text) (after : Db)
      → get_elem? (created_events s.booking.outbox) s.created_taken ≡ some e
      → e.payload.booking_id ≡ some booking
      → parse_uuid booking ≡ some booking
      → AnswersFor booking (uuid n) s.conflict after
      → MarksOnly e.event_id (created_consumer instance_name) s.conflict after
      → IsOpen n s
      → IsOpen (suc n) (record s { conflict = after; created_taken = suc s.created_taken })
  created-IsOpen n s e booking after here names parses (m, m_id, m_booking, more) marks
        (r, c, a, w, q, p, u, open_) =
      let rest = drop (suc s.created_taken) (created_events s.booking.outbox) in
      let front : waiting s ≡ e ∷ rest =
        drop-get_elem? s.created_taken (created_events s.booking.outbox) e here in
      let longer = drop-append s.assessed_taken s.conflict.outbox (m ∷ []) a in
      let open_now : (id : Text)
          → status_of s.booking.bookings id ≡ some pending
          → (contains id (created_bookings (e ∷ rest)) || contains id (answer_bookings (answers s)))
            ≡ true =
        λ id h. rw front at (open_ id h) in
      rw more (
        rw longer (
          r,
          get_elem?-lt (created_events s.booking.outbox) s.created_taken e here,
          omega (arith, a, length-append s.conflict.outbox (m ∷ [])),
          (rw front at w).1,
          IsFreshQueue-later uuid unique n (suc n) _ _ (created_ids rest) (omega arith) (λ id. refl)
              (IsFreshQueue-pop uuid unique n _ _ e.event_id (created_ids rest) marks
                (rw front at q)),
          All-append _ (answers s) (m ∷ []) p (rw m_booking parses, tt),
          rw (answer_ids-append (answers s) m) (
              rw m_id
                (IsFreshQueue-push uuid unique n n _ (answer_ids (answers s)) (omega arith) u)),
          (λ id h.
              ground
                (arith, open_now id h, names, m_booking, answer_bookings-append (answers s) m id)),
        ))

  -- An event on booking.updated is taken.
  pub updated-IsOpen :
      (n k : ℕ) (s : System) (after : Db)
      → after.outbox ≡ s.conflict.outbox
      → ((id : Text)
          → is_marked id (created_consumer instance_name) after
            ≡ is_marked id (created_consumer instance_name) s.conflict)
      → IsOpen n s
      → IsOpen n (record s { conflict = after; updated_taken = k })
  updated-IsOpen n k s after same marks (r, c, a, w, q, p, u, open_) = rw same (
    r,
    c,
    a,
    w,
    IsFreshQueue-later uuid unique n n _ _ (created_ids (waiting s)) (omega arith) marks q,
    p,
    u,
    open_,
  )

  -- An answer is taken and settles its booking.
  pub assessed-IsOpen :
      (n : ℕ) (s : System) (m : OutboxEvent) (after : BookingDb)
      → get_elem? s.conflict.outbox s.assessed_taken ≡ some m
      → SettlesOnly m.event_id m.payload.booking_id s.booking after
      → IsReplayed after
      → IsOpen n s
      → IsOpen (suc n) (record s { booking = after; assessed_taken = suc s.assessed_taken })
  assessed-IsOpen n s m after here (same, marks, none_new) replayed (r, c, a, w, q, p, u, open_) =
      let rest = drop (suc s.assessed_taken) s.conflict.outbox in
      let front : answers s ≡ m ∷ rest = drop-get_elem? s.assessed_taken s.conflict.outbox m here in
      let open_now : (id : Text)
          → status_of s.booking.bookings id ≡ some pending
          → (contains id (created_bookings (waiting s)) || contains id (answer_bookings (m ∷ rest)))
            ≡ true =
        λ id h. rw front at (open_ id h) in
      rw same (
        replayed,
        c,
        get_elem?-lt s.conflict.outbox s.assessed_taken m here,
        w,
        IsFreshQueue-later uuid unique n (suc n) _ _ (created_ids (waiting s)) (omega arith)
            (λ id. refl) q,
        (rw front at p).1,
        IsFreshQueue-later uuid unique n (suc n) _ _ (answer_ids rest) (omega arith) (λ id. refl)
            (IsFreshQueue-pop uuid unique n _ _ m.event_id (answer_ids rest) marks (rw front at u)),
        (λ id h. ground (arith, open_now id (none_new id h).0, (none_new id h).1)),
      )

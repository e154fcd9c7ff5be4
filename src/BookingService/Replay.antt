-- ===== src/BookingService/Replay.antt =====
-- The booking service's events against its table: replaying the outbox gives the statuses.
use traffic_service.BookingService.Service.{updated_envelope}
use traffic_service.BookingService.Rows.{
  StoredBooking, BookingEvent, booking_created, booking_updated, EventEnvelope, BookingDb,
  set_status, update_status, insert_outbox, get_by_ids, cancel_row,
}
use traffic_service.Base.Sets.{distinct, contains}
use traffic_service.Api.Bookings.{BookingStatus, pending, cancelled}
use traffic_service.Base.{
  if◌then◌else◌, Option-cases, is_some, find, any, Text, ===_iff, ===_refl, ◌===◌, ◌≡◌, refl, sym,
  ◌∙◌, inl, inr, Bool, true, false, ◌&&◌, ◌||◌, Option, none, some, List, [], ◌∷◌, ◌++◌, arith,
}

-- The status of the row with an id.
abbrev pub status_of : List StoredBooking → Text → Option BookingStatus
status_of [] id = none
status_of (b ∷ bs) id = if b.booking_id === id then some b.status else status_of bs id

-- What an event says of the status of a booking.
abbrev pub applied : BookingEvent → Text → Option BookingStatus → Option BookingStatus
applied (booking_created b d r t) id status = if b === id then some pending else status
applied (booking_updated b d s) id status = if b === id then some s else status

-- The status of a booking after the events in their order.
abbrev pub replayed : List EventEnvelope → Text → Option BookingStatus → Option BookingStatus
replayed [] id status = status
replayed (e ∷ es) id status = replayed es id (applied e.event id status)

abbrev pub booking_ids : List StoredBooking → List Text
booking_ids [] = []
booking_ids (b ∷ bs) = b.booking_id ∷ booking_ids bs

-- No two rows have one id, and the outbox tells the status of each booking and no other booking.
abbrev pub IsReplayed : BookingDb → Type 0
IsReplayed db =
    (distinct (booking_ids db.bookings) ≡ true)
    × ((id : Text) → replayed db.outbox id none ≡ status_of db.bookings id)

replayed-append :
    (es : List EventEnvelope) (e : EventEnvelope) (id : Text) (status : Option BookingStatus)
    → replayed (es ++ (e ∷ [])) id status ≡ applied e.event id (replayed es id status)
replayed-append [] e id status = refl
replayed-append (d ∷ es) e id status = replayed-append es e id (applied d.event id status)

abbrev has_id : Text → StoredBooking → Bool
has_id k b = b.booking_id === k

abbrev has_ids : Text → Text → StoredBooking → Bool
has_ids k d b = (b.booking_id === k) && (b.driver_id === d)

booking_ids-set_status :
    (s : BookingStatus) (p : StoredBooking → Bool) (bs : List StoredBooking)
    → booking_ids (set_status s p bs) ≡ booking_ids bs
booking_ids-set_status s p [] = refl
booking_ids-set_status s p (b ∷ bs) = ground (arith, booking_ids-set_status s p bs)

abbrev pub changed : BookingStatus → Option BookingStatus → Option BookingStatus
changed s none = none
changed s (some old) = some s

pub status_of-set_status :
    (s : BookingStatus) (k id : Text) (bs : List StoredBooking)
    → status_of (set_status s (has_id k) bs) id
      ≡ (if k === id then changed s (status_of bs id) else status_of bs id)
status_of-set_status s k id [] = ground arith
status_of-set_status s k id (b ∷ bs) = ground (
  arith,
  status_of-set_status s k id bs,
  ===_iff b.booking_id k,
  ===_iff b.booking_id id,
  ===_iff k id,
)

pub is_some-find :
    (k : Text) (bs : List StoredBooking) → is_some (find (has_id k) bs) ≡ is_some (status_of bs k)
is_some-find k [] = refl
is_some-find k (b ∷ bs) = ground (arith, is_some-find k bs)

pub find-has_id :
    (k : Text) (bs : List StoredBooking) (b : StoredBooking)
    → find (has_id k) bs ≡ some b
    → b.booking_id ≡ k
find-has_id k [] b e = ground arith
find-has_id k (c ∷ bs) b e = ground (arith, find-has_id k bs b, ===_iff c.booking_id k)

-- The rows with an id change their status, and the outbox has an event that says so.
set_status-IsReplayed :
    (k d : Text) (s : BookingStatus) (envelope : EventEnvelope) (db : BookingDb)
    → envelope.event ≡ booking_updated k d s
    → is_some (find (has_id k) db.bookings) ≡ true
    → IsReplayed db
    → IsReplayed
        (insert_outbox envelope (record db { bookings = set_status s (has_id k) db.bookings }))
set_status-IsReplayed k d s envelope db says found h = (
  rw (booking_ids-set_status s (has_id k) db.bookings) h.0,
  λ id. rw (replayed-append db.outbox envelope id none) (
      rw says (
        ground (
          arith,
          h.1 id,
          status_of-set_status s k id db.bookings,
          is_some-find k db.bookings,
          ===_iff k id,
          found,
        ))),
)

pub update_status-IsReplayed :
    (k : Text) (s : BookingStatus) (new_id correlation : Text) (db : BookingDb)
    → IsReplayed db
    → IsReplayed (update_status k s (updated_envelope new_id correlation s) db).1
unfolding update_status
update_status-IsReplayed k s new_id correlation db h =
    elim (Option-cases (find (has_id k) db.bookings)) [
      | inl e ↦ rw (update_status, e) h
      | inr (b, e) ↦
          rw (update_status, e)
            (set_status-IsReplayed k b.driver_id s (updated_envelope new_id correlation s b) db
              (rw (find-has_id k db.bookings b e) refl) (rw e refl) h)
    ]

has_ids-off :
    (k d : Text) (s : BookingStatus) (bs : List StoredBooking)
    → contains k (booking_ids bs) ≡ false
    → (find (has_ids k d) bs ≡ none) × (set_status s (has_ids k d) bs ≡ set_status s (has_id k) bs)
has_ids-off k d s [] off = (refl, refl)
has_ids-off k d s (c ∷ bs) off = ground (arith, has_ids-off k d s bs, off)

pub find-has_ids :
    (k d : Text) (s : BookingStatus) (bs : List StoredBooking) (b : StoredBooking)
    → distinct (booking_ids bs) ≡ true
    → find (has_ids k d) bs ≡ some b
    → (find (has_id k) bs ≡ some b) × (set_status s (has_ids k d) bs ≡ set_status s (has_id k) bs)
find-has_ids k d s [] b u e = ground arith
find-has_ids k d s (c ∷ bs) b u e =
    ground (arith, find-has_ids k d s bs b, has_ids-off k d s bs, ===_iff c.booking_id k)

booking_ids-append :
    (bs : List StoredBooking) (row : StoredBooking) (k : Text)
    → contains k (booking_ids (bs ++ (row ∷ [])))
      ≡ (contains k (booking_ids bs) || (row.booking_id === k))
booking_ids-append [] row k = ground arith
booking_ids-append (b ∷ bs) row k = ground (arith, booking_ids-append bs row k)

distinct-append :
    (bs : List StoredBooking) (row : StoredBooking)
    → contains row.booking_id (booking_ids bs) ≡ false
    → distinct (booking_ids bs) ≡ true
    → distinct (booking_ids (bs ++ (row ∷ []))) ≡ true
distinct-append [] row off d = refl
distinct-append (b ∷ bs) row off d = ground (
  arith,
  distinct-append bs row,
  booking_ids-append bs row b.booking_id,
  ===_iff b.booking_id row.booking_id,
  ===_iff row.booking_id b.booking_id,
  off,
  d,
)

pub status_of-append :
    (bs : List StoredBooking) (row : StoredBooking) (id : Text)
    → contains row.booking_id (booking_ids bs) ≡ false
    → status_of (bs ++ (row ∷ [])) id
      ≡ (if row.booking_id === id then some row.status else status_of bs id)
status_of-append [] row id off = refl
status_of-append (b ∷ bs) row id off = ground (
  arith,
  status_of-append bs row id,
  ===_iff b.booking_id id,
  ===_iff row.booking_id id,
  ===_iff b.booking_id row.booking_id,
  off,
)

pub any-booking_ids :
    (k : Text) (bs : List StoredBooking) → any (has_id k) bs ≡ contains k (booking_ids bs)
any-booking_ids k [] = refl
any-booking_ids k (b ∷ bs) = ground (arith, any-booking_ids k bs)

-- A row with an id that is not there, and an event that says so.
pub created-IsReplayed :
    (row : StoredBooking) (driver route departure : Text) (envelope : EventEnvelope)
    (db : BookingDb)
    → any (λ b. b.booking_id === row.booking_id) db.bookings ≡ false
    → row.status ≡ pending
    → envelope.event ≡ booking_created row.booking_id driver route departure
    → IsReplayed db
    → IsReplayed (insert_outbox envelope (record db { bookings = db.bookings ++ (row ∷ []) }))
created-IsReplayed row driver route departure envelope db off first_use says h =
    let absent : contains row.booking_id (booking_ids db.bookings) ≡ false =
      sym (any-booking_ids row.booking_id db.bookings) ∙ off in
    (
      distinct-append db.bookings row absent h.0,
      λ id.
          rw (replayed-append db.outbox envelope id none) (
            rw says
              (ground (arith, h.1 id, status_of-append db.bookings row id absent, first_use))),
    )

-- The driver's own booking is cancelled.
pub cancel_row-IsReplayed :
    (booking driver : Text) (envelope : EventEnvelope) (db : BookingDb) (row : StoredBooking)
    → get_by_ids db booking driver ≡ some row
    → envelope.event ≡ booking_updated booking driver cancelled
    → IsReplayed db
    → IsReplayed (cancel_row booking driver envelope db).1
unfolding cancel_row get_by_ids
cancel_row-IsReplayed booking driver envelope db row e says h =
    let (found, same) = find-has_ids booking driver cancelled db.bookings row h.0 e in
    rw (cancel_row, e)
      (rw same (set_status-IsReplayed booking driver cancelled envelope db says (rw found refl) h))

-- A change of status by id finds the row that is there.
pub update_status_lem :
    (k : Text) (s old : BookingStatus) (build : StoredBooking → EventEnvelope) (db : BookingDb)
    → status_of db.bookings k ≡ some old
    → (is_some (update_status k s build db).0 ≡ true)
      × (status_of (update_status k s build db).1.bookings k ≡ some s)
      × ((update_status k s build db).1.processed ≡ db.processed)
unfolding update_status
update_status_lem k s old build db e = elim (Option-cases (find (has_id k) db.bookings)) [
  | inl none_there ↦ absurd (ground (arith, none_there, is_some-find k db.bookings, e))
  | inr (b, found) ↦
      rw (update_status, found)
        (refl, ground (arith, status_of-set_status s k k db.bookings, e, ===_refl k), refl)
]

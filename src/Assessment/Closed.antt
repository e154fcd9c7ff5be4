-- ===== src/Assessment/Closed.antt =====
-- What the deliveries to the booking service do where nothing fails: an answer settles its
-- booking.
use traffic_service.Assessment.Answered.{no_faults}
use traffic_service.BookingService.Rows.{
  BookingDb, update_status, is_event_processed, mark_event_processed, StoredBooking, EventEnvelope,
}
use traffic_service.BookingService.Replay.{status_of, update_status_lem, is_some-find}
use traffic_service.BookingService.Service.{
  updated_envelope, RouteAssessedEvent, assessed_status, handle_route_assessed, handle_message,
  message_attempts, handle_message_with_retry, handle_message_under,
}
use traffic_service.Api.Bookings.{BookingStatus, pending}
use traffic_service.Assessment.{created_events}
use traffic_service.Bookings.{same_status}
use traffic_service.Assessment.Effects.{update_status-Quiet}
use traffic_service.Base.{
  Bool-cases, Option-cases, find, Text, codes, ===_iff, ◌===◌, ℕ, zero, suc, ◌+◌, ◌≡◌, refl, sym,
  ap, ◌∙◌, inl, inr, Bool, true, false, ◌||◌, Option, none, some, List, arith,
}

-- No event on booking.created is added, at most this one is marked, and of the bookings that are
-- pending none became so and this one is not among them.
abbrev pub SettlesOnly : Text → Text → BookingDb → BookingDb → Type 0
SettlesOnly event booking db after =
    (created_events after.outbox ≡ created_events db.outbox)
    × ((id : Text)
        → is_event_processed id (codes "booking-service") after ≡ true
        → ((event === id) || is_event_processed id (codes "booking-service") db) ≡ true)
    × ((id : Text)
        → status_of after.bookings id ≡ some pending
        → (status_of db.bookings id ≡ some pending) × ((booking === id) ≡ false))

mark_event_processed-marks :
    (event consumer : Text) (db : BookingDb) (id : Text)
    → is_event_processed id consumer (mark_event_processed event consumer db) ≡ true
    → ((event === id) || is_event_processed id consumer db) ≡ true
unfolding mark_event_processed is_event_processed
mark_event_processed-marks event consumer db id h =
    elim (Bool-cases (is_event_processed event consumer db)) [
      | inl seen ↦ ground (arith, rw seen at h)
      | inr unseen ↦ ground (arith, rw unseen at h)
    ]

mark_event_processed-rest :
    (event consumer : Text) (db : BookingDb)
    → ((mark_event_processed event consumer db).outbox ≡ db.outbox)
      × ((mark_event_processed event consumer db).bookings ≡ db.bookings)
unfolding mark_event_processed
mark_event_processed-rest event consumer db =
    elim (Bool-cases (is_event_processed event consumer db)) [
      | inl seen ↦ rw seen (refl, refl)
      | inr unseen ↦ rw unseen (refl, refl)
    ]

assessed_status-closes : (fits : Bool) → same_status (assessed_status fits) pending ≡ false
assessed_status-closes true = refl
assessed_status-closes false = refl

other_id :
    (booking id : Text) (status : BookingStatus) (bs : List StoredBooking)
    → status_of bs booking ≡ some status
    → same_status status pending ≡ false
    → status_of bs id ≡ some pending
    → (booking === id) ≡ false
other_id booking id status bs set closes h = elim (Bool-cases (booking === id)) [
  | inr e ↦ e
  | inl e ↦
      let same : booking ≡ id = (===_iff booking id).0 e in
      absurd (ground (arith, closes, sym set ∙ (ap (status_of bs) same ∙ h)))
]

missing_id :
    (booking id : Text) (bs : List StoredBooking)
    → status_of bs booking ≡ none
    → status_of bs id ≡ some pending
    → (booking === id) ≡ false
missing_id booking id bs missing h = elim (Bool-cases (booking === id)) [
  | inr e ↦ e
  | inl e ↦
      let same : booking ≡ id = (===_iff booking id).0 e in
      absurd (ground (arith, sym missing ∙ (ap (status_of bs) same ∙ h)))
]

update_status-missing :
    (k : Text) (s : BookingStatus) (build : StoredBooking → EventEnvelope) (db : BookingDb)
    → status_of db.bookings k ≡ none
    → update_status k s build db ≡ (none, db)
unfolding update_status
update_status-missing k s build db missing =
    elim (Option-cases (find (λ b. b.booking_id === k) db.bookings)) [
      | inl e ↦ rw (update_status, e) refl
      | inr (b, e) ↦ absurd (ground (arith, missing, e, is_some-find k db.bookings))
    ]

module _ (parse_uuid : Text → Option Text) (new_id event_id correlation : Text)
    (event : RouteAssessedEvent) where
  message_attempts-stays :
      (left n : ℕ) (db : BookingDb)
      → handle_message parse_uuid new_id event_id correlation event db ≡ (false, db)
      → message_attempts parse_uuid no_faults
          (λ attempt. new_id)
          event_id
          correlation
          event
          left
          n
          db
        ≡ db
  unfolding message_attempts handle_message_under
  message_attempts-stays zero n db e = refl
  message_attempts-stays (suc left) n db e = rw e (message_attempts-stays left (n + 1) db e)

  message_attempts-first :
      (left n : ℕ) (db : BookingDb)
      → (handle_message parse_uuid new_id event_id correlation event db).0 ≡ true
      → message_attempts parse_uuid no_faults
          (λ attempt. new_id)
          event_id
          correlation
          event
          (suc left)
          n
          db
        ≡ (handle_message parse_uuid new_id event_id correlation event db).1
  unfolding message_attempts handle_message_under
  message_attempts-first left n db e = rw e refl

module _ (parse_uuid : Text → Option Text) (new_id event_id correlation : Text)
    (event : RouteAssessedEvent) (db : BookingDb)
    (parses : parse_uuid event.booking_id ≡ some event.booking_id)
    (unseen : is_event_processed event_id (codes "booking-service") db ≡ false) where
  handle_message-SettlesOnly :
      (old : BookingStatus)
      → status_of db.bookings event.booking_id ≡ some old
      → let (fine, after) = handle_message parse_uuid new_id event_id correlation event db in
        (fine ≡ true) × SettlesOnly event_id event.booking_id db after
  unfolding handle_message handle_route_assessed is_event_processed
  handle_message-SettlesOnly old there =
      let booking = event.booking_id in
      let status = assessed_status event.segments_available in
      let after =
        (update_status booking status (updated_envelope new_id correlation status) db).1 in
      let (found, set, same) =
        update_status_lem booking status old (updated_envelope new_id correlation status) db
          there in
      let quiet =
        update_status-Quiet booking status new_id correlation db
          (assessed_status-closes event.segments_available) in
      let marked : (id : Text)
          → ((event_id === id) || is_event_processed id (codes "booking-service") after) ≡ true
          → ((event_id === id) || is_event_processed id (codes "booking-service") db) ≡ true =
        λ id h. rw same at h in
      let opened : (id : Text)
          → status_of after.bookings id ≡ some pending
          → (status_of db.bookings id ≡ some pending) × ((booking === id) ≡ false) =
        λ id h. (
          quiet.2 id h,
          other_id booking id status after.bookings set
              (assessed_status-closes event.segments_available) h,
        ) in
      let rest = mark_event_processed-rest event_id (codes "booking-service") after in
      rw (handle_message, unseen)
        (rw (handle_route_assessed, parses)
          (rw found (
            refl,
            (
              ap created_events rest.0 ∙ quiet.0,
              (λ id h.
                  marked id
                    (mark_event_processed-marks event_id (codes "booking-service") after id h)),
              (λ id h. opened id (sym (ap (λ bs. status_of bs id) rest.1) ∙ h)),
            ),
          )))

  handle_message-missing :
      status_of db.bookings event.booking_id ≡ none
      → handle_message parse_uuid new_id event_id correlation event db ≡ (false, db)
  unfolding handle_message handle_route_assessed
  handle_message-missing missing =
      rw (handle_message, unseen)
        (rw (handle_route_assessed, parses)
          (rw
            (update_status-missing event.booking_id (assessed_status event.segments_available)
              (updated_envelope new_id correlation (assessed_status event.segments_available)) db
              missing)
            refl))

  -- An answer that the service has not seen settles its booking.
  pub takes_assessed_lem : SettlesOnly event_id event.booking_id db (
      handle_message_with_retry parse_uuid no_faults
        (λ attempt. new_id)
        event_id
        correlation
        event
        db)
  unfolding handle_message_with_retry
  takes_assessed_lem = elim (Option-cases (status_of db.bookings event.booking_id)) [
    | inl missing ↦
        rw
          (message_attempts-stays parse_uuid new_id event_id correlation event 3 1 db
            (handle_message-missing missing))
          (
            refl,
            (λ id h. ground (arith, h)),
            (λ id h. (h, missing_id event.booking_id id db.bookings missing h)),
          )
    | inr (old, there) ↦
        let (fine, settles) = handle_message-SettlesOnly old there in
        rw (message_attempts-first parse_uuid new_id event_id correlation event 2 1 db fine) settles
  ]

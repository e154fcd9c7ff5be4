-- ===== src/Assessment/Effects.antt =====
-- What each request and each delivery does to the streams, the marks and the statuses.
use traffic_service.Assessment.OneMore.{BookingEvent-cases, created_events-append}
use traffic_service.ConflictDetection.Consumer.{Envelope, CreatedData}
use traffic_service.BookingService.Handler.{
  booking_of, CreateRequest, create_booking_handler, cancel_booking_handler,
}
use traffic_service.BookingService.{can_transition}
use traffic_service.BookRoute.Booked.{after}
use traffic_service.BookingService.Rows.{
  booking_updated, EventEnvelope, BookingDb, insert_outbox, set_status, update_status,
  StoredBooking, booking_created, get_by_ids, cancel_row,
}
use traffic_service.BookingService.Replay.{
  status_of, status_of-set_status, IsReplayed, find-has_ids, status_of-append, any-booking_ids,
}
use traffic_service.BookingService.Service.{
  updated_envelope, expire_each, cancel_envelope, cancel_own_booking,
}
use traffic_service.Api.Bookings.{BookingStatus, pending, cancelled, expired}
use traffic_service.Assessment.{created_events}
use traffic_service.Bookings.{same_status}
use traffic_service.Base.{
  ltb, Bool-cases, Option-cases, find, any, Text, ===_iff, ◌===◌, ℕ, suc, ◌≡◌, refl, sym, ◌∙◌, ◌⊎◌,
  inl, inr, false, Option, none, some, List, [], ◌∷◌, ◌++◌, arith,
}

-- No event on booking.created is added, no event is marked and no booking becomes pending.
abbrev pub Quiet : BookingDb → BookingDb → Type 0
Quiet db after =
    (created_events after.outbox ≡ created_events db.outbox)
    × (after.processed ≡ db.processed)
    × ((id : Text)
        → status_of after.bookings id ≡ some pending
        → status_of db.bookings id ≡ some pending)

pub Quiet-refl : (db : BookingDb) → Quiet db db
Quiet-refl db = (refl, refl, λ id h. h)

pub Quiet-trans : (a b c : BookingDb) → Quiet a b → Quiet b c → Quiet a c
Quiet-trans a b c h k = (k.0 ∙ h.0, k.1 ∙ h.1, λ id p. h.2 id (k.2 id p))

set_status-Quiet :
    (k j d : Text) (s : BookingStatus) (envelope : EventEnvelope) (db : BookingDb)
    → same_status s pending ≡ false
    → envelope.event ≡ booking_updated j d s
    → Quiet db (
        insert_outbox envelope
          (record db { bookings = set_status s (λ b. b.booking_id === k) db.bookings }))
set_status-Quiet k j d s envelope db closes says = (
  created_events-append db.outbox j d s envelope says,
  refl,
  λ id h. ground (arith, status_of-set_status s k id db.bookings, h, closes),
)

pub update_status-Quiet :
    (k : Text) (s : BookingStatus) (new_id correlation : Text) (db : BookingDb)
    → same_status s pending ≡ false
    → Quiet db (update_status k s (updated_envelope new_id correlation s) db).1
unfolding update_status
update_status-Quiet k s new_id correlation db closes =
    elim (Option-cases (find (λ b. b.booking_id === k) db.bookings)) [
      | inl e ↦ rw (update_status, e) (Quiet-refl db)
      | inr (b, e) ↦
          rw (update_status, e) (set_status-Quiet k b.booking_id b.driver_id s _ db closes refl)
    ]

cancel_row-Quiet :
    (new_id correlation booking driver : Text) (db : BookingDb) (row : StoredBooking)
    → IsReplayed db
    → get_by_ids db booking driver ≡ some row
    → Quiet db (cancel_row booking driver (cancel_envelope new_id correlation booking driver) db).1
unfolding cancel_row get_by_ids
cancel_row-Quiet new_id correlation booking driver db row h e =
    let (found, same) = find-has_ids booking driver cancelled db.bookings row h.0 e in
    rw (cancel_row, e)
      (rw same (
        set_status-Quiet booking booking driver cancelled
          (cancel_envelope new_id correlation booking driver) db refl refl))

pub cancel_booking_handler-Quiet :
    (new_id correlation : Text) (booking driver : Option Text) (db : BookingDb)
    → IsReplayed db
    → Quiet db (cancel_booking_handler new_id correlation booking driver db).1
unfolding cancel_booking_handler
cancel_booking_handler-Quiet new_id correlation none driver db h = Quiet-refl db
cancel_booking_handler-Quiet new_id correlation (some booking) none db h = Quiet-refl db
cancel_booking_handler-Quiet new_id correlation (some booking) (some driver) db h =
    elim (Option-cases (get_by_ids db booking driver)) [
      | inl e ↦ rw (cancel_booking_handler, cancel_own_booking, e) (Quiet-refl db)
      | inr (row, e) ↦ elim (Bool-cases (can_transition row.status cancelled)) [
        | inr barred ↦
            rw (cancel_booking_handler, cancel_own_booking, e) (rw barred (Quiet-refl db))
        | inl may ↦
            let quiet = cancel_row-Quiet new_id correlation booking driver db row h e in
            rw (cancel_booking_handler, cancel_own_booking, e)
              (rw may
                (elim (Option-cases
                  (cancel_row booking driver (cancel_envelope new_id correlation booking driver)
                    db).0) [ inl gone ↦ rw gone quiet | inr (b, gave) ↦ rw gave quiet ]))
      ]
    ]

pub expire_each-Quiet :
    (new_ids : ℕ → Text) (n : ℕ) (correlation : Text) (bs : List StoredBooking) (db : BookingDb)
    → Quiet db (expire_each new_ids n correlation bs db)
unfolding expire_each
expire_each-Quiet new_ids n correlation [] db = Quiet-refl db
expire_each-Quiet new_ids n correlation (b ∷ bs) db =
    Quiet-trans db _ _ (update_status-Quiet b.booking_id expired (new_ids n) correlation db refl)
      (expire_each-Quiet new_ids (suc n) correlation bs _)

-- The event on booking.created for a new booking.
abbrev pub created_envelope : Text → Text → Text → Text → Text → Text → Envelope CreatedData
created_envelope new_id correlation booking driver route departure = record {
  event_id = new_id;
  correlation_id = correlation;
  payload = record {
    booking_id = some booking;
    route_id = some route;
    departure_time = some departure;
  };
}

-- The new booking is the only one that may have become pending, and its event is the last on
-- booking.created.
abbrev pub Added : (ℕ → Text) → BookingDb → BookingDb → Text → Text → Type 0
Added to_text db after booking new_id =
    ((correlation : Text) × (driver : Text) × (route : Text) × (departure : ℕ) × (created_events
          after.outbox
        ≡ created_events db.outbox
          ++ (created_envelope new_id correlation booking driver route (to_text departure) ∷ [])))
    × (after.processed ≡ db.processed)
    × ((id : Text)
        → status_of after.bookings id ≡ some pending
        → (status_of db.bookings id ≡ some pending) ⊎ (id ≡ booking))

created_events-added :
    (es : List EventEnvelope) (new_id correlation booking driver route departure : Text)
    → created_events (
        es
        ++ (record {
          event_id = new_id;
          correlation_id = correlation;
          event = booking_created booking driver route departure;
        }
            ∷ []))
      ≡ created_events es
        ++ (created_envelope new_id correlation booking driver route departure ∷ [])
unfolding created_events
created_events-added [] new_id correlation booking driver route departure = refl
created_events-added (e ∷ es) new_id correlation booking driver route departure =
    elim (BookingEvent-cases e.event) [
      | inl (b, d, r, t, c) ↦
          rw c (rw (created_events-added es new_id correlation booking driver route departure) refl)
      | inr (b, d, s, c) ↦
          rw c (created_events-added es new_id correlation booking driver route departure)
    ]

pub create_booking_handler-Added :
    (to_text : ℕ → Text) (now : ℕ) (new_booking_id new_id correlation : Text) (driver : Option Text)
    (req : Option CreateRequest) (db : BookingDb)
    → let after =
        (create_booking_handler to_text now new_booking_id new_id correlation driver req db).1 in
      Quiet db after ⊎ Added to_text db after new_booking_id new_id
unfolding create_booking_handler booking_of
create_booking_handler-Added to_text now new_booking_id new_id correlation none req db =
    inl (Quiet-refl db)
create_booking_handler-Added to_text now new_booking_id new_id correlation (some driver) none db =
    inl (Quiet-refl db)
create_booking_handler-Added to_text now new_booking_id new_id correlation (some driver) (some req)
      db =
    elim (Bool-cases (ltb req.departure_time now)) [
      | inl past ↦ rw past (inl (Quiet-refl db))
      | inr future ↦
          rw future (elim (Bool-cases (any (λ b. b.booking_id === new_booking_id) db.bookings)) [
            | inl taken ↦ rw taken (inl (Quiet-refl db))
            | inr first_use ↦
                let row : StoredBooking = record (booking_of driver now req) {
                  booking_id = new_booking_id;
                } in
                rw first_use (
                  inr (
                    (
                      correlation,
                      driver,
                      req.route_id,
                      req.departure_time,
                      created_events-added db.outbox new_id correlation new_booking_id driver
                          req.route_id (to_text req.departure_time),
                    ),
                    refl,
                    λ id h. elim (Bool-cases (new_booking_id === id)) [
                      | inl e ↦ inr (sym ((===_iff new_booking_id id).0 e))
                      | inr e ↦ inl (
                          ground (
                            arith,
                            status_of-append db.bookings row id
                                (sym (any-booking_ids new_booking_id db.bookings) ∙ first_use),
                            h,
                            e,
                          ))
                    ],
                  ))
          ])
    ]

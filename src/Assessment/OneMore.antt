-- ===== src/Assessment/OneMore.antt =====
-- What an answer on route.assessed adds to the outbox of the booking service.

use traffic_service.BookingService.Service.{
  updated_envelope, RouteAssessedEvent, assessed_status, handle_route_assessed, handle_message,
  message_attempts, Fault, no_fault, lost_before_update, lost_before_mark, handle_message_under,
}
use traffic_service.BookingService.Rows.{
  booking_updated, EventEnvelope, BookingEvent, booking_created, BookingDb, update_status,
  is_event_processed, mark_event_processed,
}
use traffic_service.Api.Bookings.{BookingStatus}
use traffic_service.Assessment.{created_events, updated_events}
use traffic_service.Base.{
  Bool-cases, Option-cases, length, find, Text, codes, ◌===◌, ℕ, zero, suc, ◌+◌, ◌≤◌, ◌≡◌, refl, ap,
  ◌∙◌, ◌⊎◌, inl, inr, false, Option, none, List, [], ◌∷◌, ◌++◌, arith,
}

pub BookingEvent-cases :
    (e : BookingEvent)
    → ((booking : Text) × (driver : Text) × (route : Text) × (departure : Text) × (e
          ≡ booking_created booking driver route departure))
      ⊎ ((booking : Text) × (driver : Text) × (status : BookingStatus) × (e
            ≡ booking_updated booking driver status))
BookingEvent-cases (booking_created booking driver route departure) =
    inl (booking, driver, route, departure, refl)
BookingEvent-cases (booking_updated booking driver status) = inr (booking, driver, status, refl)

-- One event more at the end of an outbox.
pub created_events-append :
    (es : List EventEnvelope) (k d : Text) (s : BookingStatus) (envelope : EventEnvelope)
    → envelope.event ≡ booking_updated k d s
    → created_events (es ++ (envelope ∷ [])) ≡ created_events es
unfolding created_events
created_events-append [] k d s envelope says = rw says refl
created_events-append (e ∷ es) k d s envelope says = elim (BookingEvent-cases e.event) [
  | inl (booking, driver, route, departure, c) ↦
      rw c (rw (created_events-append es k d s envelope says) refl)
  | inr (booking, driver, status, c) ↦ rw c (created_events-append es k d s envelope says)
]

pub length-updated_events-append :
    (es : List EventEnvelope) (k d : Text) (s : BookingStatus) (envelope : EventEnvelope)
    → envelope.event ≡ booking_updated k d s
    → length (updated_events (es ++ (envelope ∷ []))) ≡ suc (length (updated_events es))
unfolding updated_events
length-updated_events-append [] k d s envelope says = rw says refl
length-updated_events-append (e ∷ es) k d s envelope says = elim (BookingEvent-cases e.event) [
  | inl (booking, driver, route, departure, c) ↦
      rw c (length-updated_events-append es k d s envelope says)
  | inr (booking, driver, status, c) ↦
      rw c (ap suc (length-updated_events-append es k d s envelope says))
]

-- The booking service's streams have at most one event more, on booking.updated.
abbrev pub OneMore : BookingDb → BookingDb → Type 0
OneMore db after =
    (created_events after.outbox ≡ created_events db.outbox)
    × (length (updated_events after.outbox) ≤ suc (length (updated_events db.outbox)))

pub update_status-OneMore :
    (k : Text) (s : BookingStatus) (new_id correlation : Text) (db : BookingDb)
    → let (row, after) = update_status k s (updated_envelope new_id correlation s) db in
      OneMore db after × (row ≡ none → after ≡ db)
unfolding update_status
update_status-OneMore k s new_id correlation db =
    elim (Option-cases (find (λ b. b.booking_id === k) db.bookings)) [
      | inl e ↦ rw (update_status, e) ((refl, omega arith), λ h. refl)
      | inr (b, e) ↦
          rw (update_status, e)
            (
              (
                created_events-append db.outbox b.booking_id b.driver_id s _ refl,
                omega (
                  arith,
                  length-updated_events-append db.outbox b.booking_id b.driver_id s
                      (updated_envelope new_id correlation s (record b { status = s })) refl,
                ),
              ),
              λ h. ground arith,
            )
    ]

mark_event_processed-outbox :
    (event consumer : Text) (db : BookingDb)
    → (mark_event_processed event consumer db).outbox ≡ db.outbox
unfolding mark_event_processed
mark_event_processed-outbox event consumer db =
    elim (Bool-cases (is_event_processed event consumer db)) [
      | inl seen ↦ rw seen refl
      | inr unseen ↦ rw unseen refl
    ]

module _ (parse_uuid : Text → Option Text) where
  handle_route_assessed-OneMore :
      (new_id correlation : Text) (event : RouteAssessedEvent) (db : BookingDb)
      → let (fine, after) = handle_route_assessed parse_uuid new_id correlation event db in
        OneMore db after × (fine ≡ false → after ≡ db)
  unfolding handle_route_assessed
  handle_route_assessed-OneMore new_id correlation event db =
      elim (Option-cases (parse_uuid event.booking_id)) [
        | inl e ↦ rw (handle_route_assessed, e) ((refl, omega arith), λ h. refl)
        | inr (booking, e) ↦
            let status = assessed_status event.segments_available in
            let h = update_status-OneMore booking status new_id correlation db in
            rw (handle_route_assessed, e) (h.0, λ no_row. h.1 (ground arith))
      ]

  pub handle_message-OneMore :
      (new_id event_id correlation : Text) (event : RouteAssessedEvent) (db : BookingDb)
      → let (fine, after) = handle_message parse_uuid new_id event_id correlation event db in
        OneMore db after × (fine ≡ false → after ≡ db)
  unfolding handle_message
  handle_message-OneMore new_id event_id correlation event db =
      let (more, same) = handle_route_assessed-OneMore new_id correlation event db in
      elim (Bool-cases (is_event_processed event_id (codes "booking-service") db)) [
        | inl seen ↦ rw (handle_message, seen) ((refl, omega arith), λ h. refl)
        | inr unseen ↦
            elim (Bool-cases (handle_route_assessed parse_uuid new_id correlation event db).0) [
              | inl fine ↦
                  rw (handle_message, unseen)
                    (rw fine (
                      rw
                        (mark_event_processed-outbox event_id (codes "booking-service")
                          (handle_route_assessed parse_uuid new_id correlation event db).1)
                        (more, λ h. ground arith)))
              | inr failing ↦ rw (handle_message, unseen) (rw failing (more, λ h. same failing))
            ]
      ]

  handle_message_under-OneMore :
      (fault : Fault) (new_id event_id correlation : Text) (event : RouteAssessedEvent)
      (db : BookingDb)
      → OneMore db (handle_message_under parse_uuid fault new_id event_id correlation event db).1
  unfolding handle_message_under
  handle_message_under-OneMore no_fault new_id event_id correlation event db =
      (handle_message-OneMore new_id event_id correlation event db).0
  handle_message_under-OneMore lost_before_update new_id event_id correlation event db =
      (refl, omega arith)
  handle_message_under-OneMore lost_before_mark new_id event_id correlation event db =
      elim (Bool-cases (is_event_processed event_id (codes "booking-service") db)) [
        | inl seen ↦ rw seen (refl, omega arith)
        | inr unseen ↦ rw unseen (handle_route_assessed-OneMore new_id correlation event db).0
      ]

  -- Each attempt adds at most one event on booking.updated, also where it fails.
  pub message_attempts-adds :
      (faults : ℕ → Fault) (new_ids : ℕ → Text) (event_id correlation : Text)
      (event : RouteAssessedEvent) (left n : ℕ) (db : BookingDb)
      → let after =
          message_attempts parse_uuid faults new_ids event_id correlation event left n db in
        (created_events after.outbox ≡ created_events db.outbox)
        × (length (updated_events after.outbox) ≤ left + length (updated_events db.outbox))
  unfolding message_attempts
  message_attempts-adds faults new_ids event_id correlation event zero n db = (refl, omega arith)
  message_attempts-adds faults new_ids event_id correlation event (suc left) n db =
      let result =
        handle_message_under parse_uuid (faults n) (new_ids n) event_id correlation event db in
      let more =
        handle_message_under-OneMore (faults n) (new_ids n) event_id correlation event db in
      let again =
        message_attempts-adds faults new_ids event_id correlation event left (n + 1) result.1 in
      elim (Bool-cases result.0) [
        | inl fine ↦ rw fine (more.0, omega (arith, more.1))
        | inr failing ↦ rw failing (again.0 ∙ more.0, omega (arith, more.1, again.1))
      ]

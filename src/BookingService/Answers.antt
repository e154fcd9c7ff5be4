-- ===== src/BookingService/Answers.antt =====
-- The booking service's answers to a cancellation, and what an answer on route.assessed does.
use traffic_service.BookingService.Rows.{
  BookingDb, get_by_ids, cancel_row, is_event_processed, mark_event_processed,
}
use traffic_service.BookingService.Replay.{status_of, update_status_lem}
use traffic_service.BookingService.Handler.{cancel_booking_handler}
use traffic_service.BookingService.Service.{
  RouteAssessedEvent, assessed_status, handle_route_assessed, cancel_own_booking, handle_message,
  updated_envelope,
}
use traffic_service.Api.Bookings.{BookingStatus, cancelled}
use traffic_service.BookingService.{can_transition}
use traffic_service.Base.{
  if◌then◌else◌, Bool-cases, Option-cases, Text, codes, ===_refl, ◌≡◌, refl, ◌≢◌, inl, inr, true,
  false, Option, none, some, arith,
}

-- A cancellation with readable ids is answered with 500 where the driver has no such booking, with
-- 409 where its status forbids it, and otherwise with 200; only then do the tables change. There
-- is no 404.
pub cancel_booking_handler_lem :
    (new_id correlation booking driver : Text) (db : BookingDb)
    → let result = cancel_booking_handler new_id correlation (some booking) (some driver) db in
      (result.0 ≡ (elim (get_by_ids db booking driver) [
        | none ↦ 500
        | some row ↦ if can_transition row.status cancelled then 200 else 409
      ]))
      × (result.0 ≢ 200 → result.1 ≡ db)
unfolding cancel_booking_handler cancel_own_booking cancel_row get_by_ids
cancel_booking_handler_lem new_id correlation booking driver db =
    elim (Option-cases (get_by_ids db booking driver)) [
      | inl e ↦ rw (cancel_booking_handler, cancel_own_booking, e) (refl, λ h. refl)
      | inr (row, e) ↦ elim (Bool-cases (can_transition row.status cancelled)) [
        | inr barred ↦
            rw (cancel_booking_handler, cancel_own_booking, e) (rw barred (refl, λ h. refl))
        | inl may ↦
            rw (cancel_booking_handler, cancel_own_booking, e)
              (rw may (rw e (refl, λ h. absurd (h refl))))
      ]
    ]

-- An answer that the service has not seen sets the status of the booking that it names, whatever
-- the status was: a booking that was cancelled or has expired becomes approved or rejected too.
pub handle_message-status_of :
    (parse_uuid : Text → Option Text) (new_id event_id correlation : Text)
    (event : RouteAssessedEvent) (db : BookingDb) (id : Text) (old : BookingStatus)
    → parse_uuid event.booking_id ≡ some id
    → status_of db.bookings id ≡ some old
    → is_event_processed event_id (codes "booking-service") db ≡ false
    → let (fine, after) = handle_message parse_uuid new_id event_id correlation event db in
      (fine ≡ true)
      × (status_of after.bookings id ≡ some (assessed_status event.segments_available))
      × (is_event_processed event_id (codes "booking-service") after ≡ true)
unfolding handle_message handle_route_assessed mark_event_processed is_event_processed
handle_message-status_of parse_uuid new_id event_id correlation event db id old p s n =
    let status = assessed_status event.segments_available in
    let (there, set, same) =
      update_status_lem id status old (updated_envelope new_id correlation status) db s in
    rw (handle_message, n)
      (rw (handle_route_assessed, p)
        (rw there (
          rw same (
            rw n
              (refl, set, ground (arith, ===_refl event_id, ===_refl (codes "booking-service")))))))

-- ===== src/BookingService/Service.antt =====
-- services/booking-service/internal/application/booking_service.go. An operation takes the ids of
-- the events that it makes, and the correlation id of its context.
use mathlib.Core.Option
use traffic_service.BookingService.Rows.{
  booking_created, booking_updated, EventEnvelope, create_row, get_by_ids, update_status,
  cancel_row, find_expired, is_event_processed, mark_event_processed, StoredBooking, BookingDb,
}
use traffic_service.Api.Bookings.{BookingStatus, approved, rejected, cancelled, expired}
use traffic_service.Api.Http.{to_text}
use traffic_service.BookingService.{can_transition}
use traffic_service.Base.{
  if◌then◌else◌, is_some, Text, codes, ℕ, zero, suc, ◌+◌, Bool, true, false, not, Option, none,
  some, List, [], ◌∷◌,
}

abbrev pub updated_envelope : Text → Text → BookingStatus → StoredBooking → EventEnvelope
updated_envelope new_id correlation status b = record {
  event_id = new_id;
  correlation_id = correlation;
  event = booking_updated b.booking_id b.driver_id status;
}

-- `domain.RouteAssessedEvent`
pub record RouteAssessedEvent : Type 0 where
  pub booking_id : Text
  pub route_id : Text
  pub segments_available : Bool

abbrev pub assessed_status : Bool → BookingStatus
assessed_status fits = if fits then approved else rejected

-- `HandleRouteAssessed`: the db afterwards, and whether it returned no error. The function is
-- `uuid.Parse`.
unfoldable pub handle_route_assessed :
    (Text → Option Text) → Text → Text → RouteAssessedEvent → BookingDb → Bool × BookingDb
unfolding update_status
handle_route_assessed parse_uuid new_id correlation event db = elim (parse_uuid event.booking_id) [
  | none ↦ (false, db)
  | some booking ↦
      let status : BookingStatus = assessed_status event.segments_available in
      let (row, after) =
        update_status booking status (updated_envelope new_id correlation status) db in
      (is_some row, after)
]

-- The loop of `ExpireBookings` over the bookings that it found; its updates do not fail.
unfoldable pub expire_each : (ℕ → Text) → ℕ → Text → List StoredBooking → BookingDb → BookingDb
expire_each new_ids n correlation [] db = db
expire_each new_ids n correlation (b ∷ bs) db =
    expire_each new_ids (suc n) correlation bs
      (update_status b.booking_id expired (updated_envelope (new_ids n) correlation expired) db).1

unfoldable pub expire_bookings : (ℕ → Text) → Text → ℕ → BookingDb → BookingDb
unfolding expire_each find_expired
expire_bookings new_ids correlation now db =
    expire_each new_ids 0 correlation (find_expired now db) db

-- `CreateBooking`: `none` where the insert fails. The function is the text of a time, and the new
-- id of the booking is that of `uuid.New`.
unfoldable pub create_new_booking :
    (ℕ → Text) → Text → Text → Text → StoredBooking → BookingDb → Option (StoredBooking × BookingDb)
unfolding create_row
create_new_booking to_text new_booking_id new_id correlation booking db =
    let row : StoredBooking = record booking { booking_id = new_booking_id } in
    let envelope : EventEnvelope = record {
      event_id = new_id;
      correlation_id = correlation;
      event =
          booking_created row.booking_id row.driver_id row.route_id (to_text row.departure_time);
    } in
    Option.map (λ after. (row, after)) (create_row row envelope db)

-- The errors of `CancelBooking`
pub data CancelError : Type 0 where
  not_found invalid_transition : CancelError

pub data Cancelled : Type 0 where
  refused : CancelError → Cancelled
  cancelled_row : Option StoredBooking → BookingDb → Cancelled

abbrev pub cancel_envelope : Text → Text → Text → Text → EventEnvelope
cancel_envelope new_id correlation booking driver = record {
  event_id = new_id;
  correlation_id = correlation;
  event = booking_updated booking driver cancelled;
}

-- `CancelBooking`
unfoldable pub cancel_own_booking : Text → Text → Text → Text → BookingDb → Cancelled
unfolding get_by_ids cancel_row can_transition
cancel_own_booking new_id correlation booking driver db = elim (get_by_ids db booking driver) [
  | none ↦ refused not_found
  | some row ↦
      if not (can_transition row.status cancelled)
      then refused invalid_transition
      else let (result, after) =
          cancel_row booking driver (cancel_envelope new_id correlation booking driver) db in
        cancelled_row result after
]

-- `handleMessage` of infrastructure/redisconsumer/consumer.go, on a message that it can parse
unfoldable pub handle_message :
    (Text → Option Text) → Text → Text → Text → RouteAssessedEvent → BookingDb → Bool × BookingDb
unfolding is_event_processed mark_event_processed handle_route_assessed
handle_message parse_uuid new_id event_id correlation event db =
    if is_event_processed event_id (codes "booking-service") db
    then (true, db)
    else let (fine, after) = handle_route_assessed parse_uuid new_id correlation event db in
      if fine
      then (true, mark_event_processed event_id (codes "booking-service") after)
      else (false, after)

-- What befalls the database in an attempt: nothing, it is lost before the update of the booking has
-- committed, or after that and before the event is marked.
pub data Fault : Type 0 where
  no_fault lost_before_update lost_before_mark : Fault

-- `handleMessage` under a fault; the update and the mark are transactions of their own.
unfoldable pub handle_message_under :
    (Text → Option Text)
    → Fault
    → Text
    → Text
    → Text
    → RouteAssessedEvent
    → BookingDb
    → Bool × BookingDb
unfolding handle_message is_event_processed handle_route_assessed
handle_message_under parse_uuid no_fault new_id event_id correlation event db =
    handle_message parse_uuid new_id event_id correlation event db
handle_message_under parse_uuid lost_before_update new_id event_id correlation event db =
    (false, db)
handle_message_under parse_uuid lost_before_mark new_id event_id correlation event db =
    if is_event_processed event_id (codes "booking-service") db
    then (true, db)
    else (false, (handle_route_assessed parse_uuid new_id correlation event db).1)

-- `handleMessageWithRetry` with this many attempts left, from an attempt on. Each attempt has its
-- fault, and the id of the event that it makes; a message that is given up goes to the dead-letter
-- stream.
unfoldable pub message_attempts :
    (Text → Option Text)
    → (ℕ → Fault)
    → (ℕ → Text)
    → Text
    → Text
    → RouteAssessedEvent
    → ℕ
    → ℕ
    → BookingDb
    → BookingDb
unfolding handle_message_under
message_attempts parse_uuid faults new_ids event_id correlation event zero attempt db = db
message_attempts parse_uuid faults new_ids event_id correlation event (suc left) attempt db =
    let (fine, after) =
      handle_message_under parse_uuid (faults attempt) (new_ids attempt) event_id correlation event
        db in
    let next =
      message_attempts parse_uuid faults new_ids event_id correlation event left (attempt + 1)
        after in
    if fine then after else next

unfoldable pub handle_message_with_retry :
    (Text → Option Text)
    → (ℕ → Fault)
    → (ℕ → Text)
    → Text
    → Text
    → RouteAssessedEvent
    → BookingDb
    → BookingDb
unfolding message_attempts
handle_message_with_retry parse_uuid faults new_ids event_id correlation event db =
    message_attempts parse_uuid faults new_ids event_id correlation event 3 1 db

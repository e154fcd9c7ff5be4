-- ===== src/BookingService/Handler.antt =====
-- services/booking-service/internal/infrastructure/handler/booking.go: the requests that create
-- and cancel bookings, with the status code of the answer. Ids come parsed, `none` where
-- `uuid.Parse` fails; times in whole milliseconds.
use traffic_service.BookRoute.Booked.{after}
use traffic_service.BookingService.Rows.{StoredBooking, BookingDb}
use traffic_service.BookingService.Service.{
  not_found, invalid_transition, refused, cancelled_row, create_new_booking, cancel_own_booking,
}
use traffic_service.Api.Bookings.{pending}
use traffic_service.Api.Http.{to_text}
use traffic_service.Base.{ltb, if◌then◌else◌, ◌or_else◌, Text, ℕ, Option, none, some, []}

-- `CreateBookingRequestDto`
pub record CreateRequest : Type 0 where
  pub route_id : Text
  pub departure_time : ℕ
  pub estimated_arrival : Option ℕ

-- The booking that `CreateBooking` makes of a request; its id is set later, and the time of its
-- creation comes from the database.
unfoldable pub booking_of : Text → ℕ → CreateRequest → StoredBooking
booking_of driver created_at req = record {
  booking_id = [];
  driver_id = driver;
  route_id = req.route_id;
  departure_time = req.departure_time;
  estimated_arrival = req.estimated_arrival;
  status = pending;
  created_at = created_at;
  expires_at = some (req.estimated_arrival or_else req.departure_time);
}

-- `(*BookingHandler).CreateBooking` at a time, which is the row's creation time too; a body that cannot be decoded is `none`.
unfoldable pub create_booking_handler :
    (ℕ → Text)
    → ℕ
    → Text
    → Text
    → Text
    → Option Text
    → Option CreateRequest
    → BookingDb
    → ℕ × BookingDb
unfolding create_new_booking booking_of
create_booking_handler to_text now new_booking_id new_id correlation none req db = (400, db)
create_booking_handler to_text now new_booking_id new_id correlation (some driver) none db =
    (400, db)
create_booking_handler to_text now new_booking_id new_id correlation (some driver) (some req) db =
    if ltb req.departure_time now
    then (400, db)
    else elim (create_new_booking to_text new_booking_id new_id correlation
        (booking_of driver now req) db) [ none ↦ (500, db) | some (row, after) ↦ (202, after) ]

-- `(*BookingHandler).CancelBooking`
unfoldable pub cancel_booking_handler :
    Text → Text → Option Text → Option Text → BookingDb → ℕ × BookingDb
unfolding cancel_own_booking
cancel_booking_handler new_id correlation none driver db = (400, db)
cancel_booking_handler new_id correlation (some booking) none db = (400, db)
cancel_booking_handler new_id correlation (some booking) (some driver) db =
    elim (cancel_own_booking new_id correlation booking driver db) [
      | refused invalid_transition ↦ (409, db)
      | refused not_found ↦ (500, db)
      | cancelled_row none after ↦ (404, after)
      | cancelled_row (some row) after ↦ (200, after)
    ]

-- ===== src/Api/Bookings.antt =====
-- api/bookings.ts. `token` is the token of the store at the call.
use traffic_service.Api.Http.{
  get, post, delete, Request, Outcome, Fetch, ◌>>=◌, handle_response, check_response, auth_headers,
}
use traffic_service.Base.Json.{obj, end, Fields}
use traffic_service.Api.Auth.{text_field}
use traffic_service.Base.{Text, codes, String, Option, none, some, List, [], ◌++◌}

pub data BookingStatus : Type 0 where
  pending approved rejected cancelled expired : BookingStatus

pub record Booking : Type 0 where
  pub booking_id : Text
  pub driver_id : Text
  pub route_id : Text
  pub departure_time : Text
  pub estimated_arrival : Option Text
  pub status : BookingStatus
  pub created_at : Text
  pub expires_at : Option Text

pub record CreateBookingDto : Type 0 where
  pub route_id : Text
  pub departure_time : Text
  pub estimated_arrival : Option Text

pub record SegmentReservation : Type 0 where
  pub reservation_id : Text
  pub segment_id : Text
  pub time_window_start : Text
  pub time_window_end : Text

unfoldable pub bookings_request : Option Text → Request
bookings_request token = record {
  method = get;
  url = codes "/api/booking/bookings";
  query = [];
  headers = auth_headers token;
  body = none;
}

unfoldable pub fetch_bookings : Option Text → Fetch (List Booking) → Outcome (List Booking)
unfolding bookings_request handle_response
fetch_bookings token fetch = do
  response ← fetch (bookings_request token)
  handle_response response (codes "Failed to fetch bookings")

-- `JSON.stringify` leaves a property out that is `undefined`.
abbrev pub optional_field : String → Option Text → Fields Text → Fields Text
optional_field k none fs = fs
optional_field k (some v) fs = text_field k v fs

unfoldable pub create_request : Option Text → CreateBookingDto → Request
create_request token dto = record {
  method = post;
  url = codes "/api/booking/bookings";
  query = [];
  headers = auth_headers token;
  body = some (
      obj (
        text_field "route_id" dto.route_id (
          text_field "departure_time" dto.departure_time
            (optional_field "estimated_arrival" dto.estimated_arrival end))));
}

unfoldable pub create_booking : Option Text → Fetch Booking → CreateBookingDto → Outcome Booking
unfolding create_request handle_response
create_booking token fetch dto = do
  response ← fetch (create_request token dto)
  handle_response response (codes "Failed to create booking")

unfoldable pub reservations_request : Option Text → Text → Request
reservations_request token booking_id = record {
  method = get;
  url = codes "/api/conflict-detection/bookings/" ++ (booking_id ++ codes "/reservations");
  query = [];
  headers = auth_headers token;
  body = none;
}

unfoldable pub fetch_booking_reservations :
    Option Text → Fetch (List SegmentReservation) → Text → Outcome (List SegmentReservation)
unfolding reservations_request handle_response
fetch_booking_reservations token fetch booking_id = do
  response ← fetch (reservations_request token booking_id)
  handle_response response (codes "Failed to fetch reservations")

unfoldable pub cancel_request : Option Text → Text → Request
cancel_request token booking_id = record {
  method = delete;
  url = codes "/api/booking/bookings/" ++ booking_id;
  query = [];
  headers = auth_headers token;
  body = none;
}

unfoldable pub cancel_booking : Option Text → Fetch (Unit {0}) → Text → Outcome (Unit {0})
unfolding cancel_request check_response
cancel_booking token fetch booking_id = do
  response ← fetch (cancel_request token booking_id)
  check_response response (codes "Failed to cancel booking")

-- ===== src/Tests/Data.antt =====
-- The data of the tests, and instances of the interfaces to third-party code.
use traffic_service.BookRoute.Params.{Coord}
use traffic_service.Base.Json.{Json, null, num, str, arr, obj, Items, nil, cons, end, field}
use traffic_service.Api.Messages.{Message}
use traffic_service.Api.Bookings.{BookingStatus, pending, approved, cancelled, expired, Booking}
use traffic_service.Api.Http.{okay, resolved, Fetch}
use traffic_service.Api.Routes.{RouteResult, Segment, SegmentUtilization, RouteAvailability}
use traffic_service.Datetime.Suffix.{has_zone-append}
use traffic_service.BookRoute.Departure.{Dates}
use traffic_service.Session.Forms.{ChecksRules}
use traffic_service.Base.Double.{Double, is_nan, FloatText}
use traffic_service.Base.Decimal.{decimal, to_number, to_number-decimal}
use traffic_service.Api.Auth.{
  car, DriverProfile, RegisterDriverDto, DriverResponseDto, LoginDriverDto,
}
use traffic_service.Session.{Rules, DriverState, signed_out, Session}
use traffic_service.Base.{
  leb, if◌then◌else◌, ◌or_else◌, length, Text, codes, ◌===◌, ℕ, ◌+◌, ◌*◌, ◌≤◌, ◌<◌, String, ◌≡◌,
  refl, ap, Bool, true, false, Option, none, some, List, [], ◌∷◌, ◌++◌, arith,
}

-- Doubles that are printed as they stand, but for the missing one.
abbrev read_double : Text → Double
read_double [] = codes "NaN"
read_double (c ∷ s) = c ∷ s

abbrev show_double : ℕ → Double → Text
show_double k [] = codes "0"
show_double k (c ∷ s) = c ∷ s

pub fixed_number :
    (k : ℕ) (x : Double) → is_nan x ≡ false → is_nan (read_double (show_double k x)) ≡ false
unfolding ◌===◌
fixed_number k [] h = refl
fixed_number k (c ∷ s) h = h

abbrev pub doubles : FloatText
doubles = record {
  parse_float = read_double;
  to_fixed = show_double;
  fixed_is_number = fixed_number;
  empty_is_nan = refl;
}

-- Dates that are printed as their milliseconds and a "Z".
abbrev without_last : Text → Text
without_last [] = []
without_last (c ∷ []) = []
without_last (c ∷ d ∷ s) = c ∷ without_last (d ∷ s)

pub without_last_lem : (s : Text) (c : ℕ) → without_last (s ++ c ∷ []) ≡ s
without_last_lem [] c = refl
without_last_lem (a ∷ []) c = refl
without_last_lem (a ∷ b ∷ s) c = ap (λ (t : Text). a ∷ t) (without_last_lem (b ∷ s) c)

abbrev pub millis_text : ℕ → Text
millis_text t = decimal t ++ b'Z' ∷ []

abbrev pub dates : Dates
dates = record {
  parse_iso = λ s. to_number (without_last s);
  of_fields = λ f. some (((f.day * 24 + f.hours) * 60 + f.minutes) * 60000);
  to_iso = millis_text;
  iso_has_zone = λ t. has_zone-append (decimal t);
  parse-iso = λ t. rw (without_last_lem (decimal t) b'Z') (to_number-decimal t);
}

-- The rules of the form library: a text that is there and has the length asked for.
abbrev pub check_field : Rules → Text → Option Text
check_field r [] = some r.required
check_field r (c ∷ s) = elim r.min_length [
  | none ↦ none
  | some (n, message) ↦ if leb n (length (c ∷ s)) then none else some message
]

pub needs_text_here : (r : Rules) (t : Text) → check_field r t ≡ none → 0 < length t
needs_text_here r [] h = ground arith
needs_text_here r (c ∷ s) h = omega arith

pub needs_length_here :
    (m t v : Text) (n : ℕ)
    → check_field (record { required = m; min_length = some (n, t) }) v ≡ none
    → n ≤ length v
needs_length_here m t [] n h = ground arith
needs_length_here m t (c ∷ s) n h = ground arith

abbrev pub rules_hold : ChecksRules check_field
rules_hold = record { needs_text = needs_text_here; needs_length = needs_length_here }

abbrev pub profile : DriverProfile
profile = record {
  driver_id = codes "d-1";
  name = codes "Ada Byrne";
  email = codes "ada@example.ie";
  license_number = codes "L-77";
  vehicle_type = some car;
  region = codes "Dublin";
  created_at = codes "5Z";
}

abbrev pub login_dto : LoginDriverDto
login_dto = record { email = codes "ada@example.ie"; password = codes "secret" }

abbrev pub register_dto : RegisterDriverDto
register_dto = record {
  name = codes "Ada Byrne";
  email = codes "ada@example.ie";
  password = codes "long-secret";
  license_number = codes "L-77";
  vehicle_type = codes "CAR";
  region = codes "Dublin";
}

abbrev pub accepted : DriverResponseDto
accepted = record { driver = profile; access_token = codes "tok" }

-- A service that accepts every driver.
abbrev pub accepting : Fetch DriverResponseDto
accepting request = resolved (okay (some accepted))

abbrev pub fresh : Session
fresh = record { store = signed_out; location = codes "/login" }

abbrev pub signed_in : DriverState
signed_in = record { driver = some profile; token = some (codes "tok") }

-- The line through (0, 0), (1, 0), (2, 0) and (3, 1).
abbrev point : String → String → Json Double
point x y = arr (cons (num (codes x)) (cons (num (codes y)) nil))

abbrev line_of : Items Double → Json Double
line_of points =
    obj (
      field (codes "type") (str (codes "LineString"))
        (field (codes "coordinates") (arr points) end))

abbrev pub line_of_four : Json Double
line_of_four =
    line_of (
      cons (point "0" "0") (cons (point "1" "0") (cons (point "2" "0") (cons (point "3" "1") nil))))

abbrev route_named : String → Option ℕ → Json Double → RouteResult
route_named id duration shape = record {
  route_id = codes id;
  origin = codes "53.35, -6.26";
  destination = codes "53.34, -6.25";
  segment_ids = some (codes "s-1" ∷ codes "s-2" ∷ []);
  geometry = shape;
  estimated_duration = duration;
  created_at = codes "5Z";
}

abbrev pub fast_route : RouteResult
fast_route = route_named "ab12-cd" (some 600) line_of_four

abbrev pub slow_route : RouteResult
slow_route = route_named "ff00-11" (some 900) line_of_four

-- The fast route is full and the slow one is free.
abbrev pub only_slow : List RouteAvailability
only_slow =
    record { route_id = codes "ab12-cd"; available = false }
    ∷ record { route_id = codes "ff00-11"; available = true }
    ∷ []

abbrev booking_of : String → BookingStatus → String → Booking
booking_of id status made = record {
  booking_id = codes id;
  driver_id = codes "d-1";
  route_id = codes "ab12-cd";
  departure_time = codes "3000";
  estimated_arrival = none;
  status = status;
  created_at = codes made;
  expires_at = none;
}

abbrev pub one_booking : Booking
one_booking = booking_of "b-1" pending "20Z"

abbrev pub four_bookings : List Booking
four_bookings =
    one_booking
    ∷ booking_of "b-2" approved "40Z"
    ∷ booking_of "b-3" expired "10Z"
    ∷ booking_of "b-4" cancelled "40Z"
    ∷ []

abbrev message_of : String → Bool → Message
message_of id seen = record {
  message_id = codes id;
  driver_id = codes "d-1";
  booking_id = codes "b-1";
  content = codes "Your booking was approved";
  is_read = seen;
  created_at = codes "7Z";
}

abbrev pub three_messages : List Message
three_messages = message_of "m-1" false ∷ message_of "m-2" true ∷ message_of "m-3" false ∷ []

abbrev segment_of : String → Option ℕ → Segment
segment_of id capacity = record {
  segment_id = codes id;
  osm_way_id = none;
  name = codes "Dame Street";
  region = codes "Dublin";
  capacity = capacity;
  coordinates = null;
}

abbrev pub first_segment : Segment
first_segment = segment_of "s-1" (some 10)

abbrev pub two_segments : List Segment
two_segments = first_segment ∷ segment_of "s-2" none ∷ []

-- Six of the ten places of the first segment are reserved.
abbrev pub six_reserved : List SegmentUtilization
six_reserved = record { segment_id = codes "s-1"; active_reservations = 6 } ∷ []

-- Where the page finds the number of milliseconds in a text, and how it prints a time.
abbrev pub time_of : Text → ℕ
time_of t = dates.parse_iso t or_else 0

abbrev pub as_text : Text → Text
as_text t = t

abbrev pub rounded : Double → ℕ → ℕ
rounded x n = n

abbrev pub quotient : ℕ → ℕ → Double
quotient a b = decimal a

abbrev pub same_path : Text → Text → Bool
same_path path location = path === location

abbrev pub dublin : Coord
dublin = record { lng = codes "-6.26"; lat = codes "53.35" }

abbrev pub howth : Coord
howth = record { lng = codes "-6.07"; lat = codes "53.39" }

-- ===== src/Tests/Calls.antt =====
-- Calls of the services at the test data.
use traffic_service.Geocoding.Pattern.{Numeral, IsNumeral, print, coords_match-print}
use traffic_service.Geocoding.Named.{BeginsWith, location_query_lem}
use traffic_service.Base.Json.{Json, str, obj, end, field, lookup_field}
use traffic_service.Tests.Data.{doubles, login_dto, register_dto, fast_route}
use traffic_service.Api.Credentials.{Carries, requests-Carries}
use traffic_service.Api.Messages.{messages_request, fetch_messages, mark_request, mark_as_read}
use traffic_service.Api.Auth.{
  DriverResponseDto, login_request, login_driver, register_request, register_driver,
}
use traffic_service.Api.Bookings.{
  CreateBookingDto, bookings_request, fetch_bookings, create_request, create_booking,
  reservations_request, fetch_booking_reservations, cancel_request, cancel_booking,
}
use traffic_service.Api.Http.{
  get, Request, failed, thrown, network, resolved, raised, Fetch, handle_response,
}
use traffic_service.Api.Refused.{Rejects, operations-Rejects}
use traffic_service.Api.Routes.{
  find_request, find_routes, segments_request, get_route_segments, route_request, fetch_route,
  utilization_request, get_segment_utilization, availability_request, check_routes_availability,
}
use traffic_service.Geocoding.{coords_match, GeocodingData, location_query, named, location_text}
use traffic_service.Base.{
  All, Text, codes, ◌===◌, ◌≡◌, refl, ◌⊎◌, true, false, Option, none, some, [], ◌∷◌, ◌++◌,
}

abbrev booking_order : CreateBookingDto
booking_order = record {
  route_id = codes "ab12-cd";
  departure_time = codes "3000Z";
  estimated_arrival = none;
}

abbrev numeral_lat : Numeral
numeral_lat = record {
  minus = false;
  first = b'5';
  whole = codes "3";
  fraction = some (codes "35");
}

abbrev numeral_lng : Numeral
numeral_lng = record { minus = true; first = b'6'; whole = []; fraction = some (codes "26") }

digits_lat : IsNumeral numeral_lat
digits_lat = (refl, (refl, tt), (refl, (refl, tt)))

digits_lng : IsNumeral numeral_lng
digits_lng = (refl, tt, (refl, (refl, tt)))

abbrev unreachable : Fetch GeocodingData
unreachable request = raised network

abbrev refusal : Option (Json Text)
refusal = some (obj (field (codes "detail") (str (codes "No such driver")) end))

requests-Carries_example :
    All (Carries (some (codes "tok"))) (
      bookings_request (some (codes "tok"))
      ∷ create_request (some (codes "tok")) booking_order
      ∷ reservations_request (some (codes "tok")) (codes "ab12")
      ∷ cancel_request (some (codes "tok")) (codes "ab12")
      ∷ messages_request (some (codes "tok"))
      ∷ mark_request (some (codes "tok")) (codes "ab12")
      ∷ find_request
          (some (codes "tok"))
          (codes "53.35")
          (codes "-6.26")
          (codes "53.34")
          (codes "-6.25")
      ∷ segments_request (some (codes "tok")) (codes "ab12")
      ∷ route_request (some (codes "tok")) (codes "ab12")
      ∷ utilization_request (some (codes "tok")) []
      ∷ availability_request (some (codes "tok")) (fast_route ∷ []) (codes "ab12")
      ∷ [])
    × All (Carries none) (login_request login_dto ∷ register_request register_dto ∷ [])
requests-Carries_example =
    requests-Carries (some (codes "tok")) (codes "ab12") booking_order (codes "53.35")
      (codes "-6.26") (codes "53.34") (codes "-6.25") [] (fast_route ∷ []) login_dto register_dto

coords_match-print_example :
    coords_match (print numeral_lat ++ ([] ++ (b',' ∷ ((codes " ") ++ print numeral_lng))))
    ≡ some (print numeral_lat, print numeral_lng)
coords_match-print_example =
    coords_match-print numeral_lat numeral_lng [] (codes " ") digits_lat digits_lng tt (refl, tt)

location_query_lem_example :
    let value = print numeral_lat ++ ([] ++ (b',' ∷ ((codes " ") ++ print numeral_lng))) in
    let y = doubles.parse_float (print numeral_lat) in
    let x = doubles.parse_float (print numeral_lng) in
    (sent : Request) × (name : Text) × (sent.url
      ≡ codes "https://api.mapbox.com/geocoding/v5/mapbox.places/"
        ++ (x ++ (codes "," ++ (y ++ codes ".json"))))
    × (location_query doubles (codes "pk") unreachable value ≡ resolved name)
    × (location_text value (some name) false ≡ named name value)
    × (sent.method ≡ get)
    × (BeginsWith (unreachable sent) name
        ⊎ (((first : Text) → ¬ BeginsWith (unreachable sent) first)
            × (name ≡ doubles.to_fixed 4 y ++ (codes ", " ++ doubles.to_fixed 4 x))))
location_query_lem_example =
    location_query_lem doubles (codes "pk") unreachable numeral_lat numeral_lng [] (codes " ")
      digits_lat digits_lng tt (refl, tt)

operations-Rejects_example :
    Rejects
      (field (codes "detail") (str (codes "No such driver")) end)
      (codes "No such driver")
      (codes "Failed to fetch bookings")
      (fetch_bookings (some (codes "tok")))
    × Rejects
        (field (codes "detail") (str (codes "No such driver")) end)
        (codes "No such driver")
        (codes "Failed to create booking")
        (λ fetch. create_booking (some (codes "tok")) fetch booking_order)
    × Rejects
        (field (codes "detail") (str (codes "No such driver")) end)
        (codes "No such driver")
        (codes "Failed to fetch reservations")
        (λ fetch. fetch_booking_reservations (some (codes "tok")) fetch (codes "ab12"))
    × Rejects
        (field (codes "detail") (str (codes "No such driver")) end)
        (codes "No such driver")
        (codes "Failed to cancel booking")
        (λ fetch. cancel_booking (some (codes "tok")) fetch (codes "ab12"))
    × Rejects
        (field (codes "detail") (str (codes "No such driver")) end)
        (codes "No such driver")
        (codes "Failed to fetch messages")
        (fetch_messages (some (codes "tok")))
    × Rejects
        (field (codes "detail") (str (codes "No such driver")) end)
        (codes "No such driver")
        (codes "Failed to mark message as read")
        (λ fetch. mark_as_read (some (codes "tok")) fetch (codes "ab12"))
    × Rejects
        (field (codes "detail") (str (codes "No such driver")) end)
        (codes "No such driver")
        (codes "Failed to find route")
        (λ fetch.
          find_routes
            (some (codes "tok"))
            fetch
            (codes "53.35")
            (codes "-6.26")
            (codes "53.34")
            (codes "-6.25"))
    × Rejects
        (field (codes "detail") (str (codes "No such driver")) end)
        (codes "No such driver")
        (codes "Failed to fetch route segments")
        (λ fetch. get_route_segments (some (codes "tok")) fetch (codes "ab12"))
    × Rejects
        (field (codes "detail") (str (codes "No such driver")) end)
        (codes "No such driver")
        (codes "Failed to fetch route")
        (λ fetch. fetch_route (some (codes "tok")) fetch (codes "ab12"))
    × Rejects
        (field (codes "detail") (str (codes "No such driver")) end)
        (codes "No such driver")
        (codes "Failed to fetch utilization")
        (λ fetch. get_segment_utilization (some (codes "tok")) fetch [])
    × Rejects
        (field (codes "detail") (str (codes "No such driver")) end)
        (codes "No such driver")
        (codes "Failed to check route availability")
        (λ fetch.
          check_routes_availability (some (codes "tok")) fetch (fast_route ∷ []) (codes "ab12"))
    × Rejects
        (field (codes "detail") (str (codes "No such driver")) end)
        (codes "No such driver")
        (codes "Login failed")
        (λ fetch. login_driver fetch login_dto)
    × Rejects
        (field (codes "detail") (str (codes "No such driver")) end)
        (codes "No such driver")
        (codes "Registration failed")
        (λ fetch. register_driver fetch register_dto)
unfolding lookup_field ◌===◌
operations-Rejects_example =
    operations-Rejects (some (codes "tok")) (codes "ab12") booking_order (codes "53.35")
      (codes "-6.26") (codes "53.34") (codes "-6.25") [] (fast_route ∷ []) login_dto register_dto
      (field (codes "detail") (str (codes "No such driver")) end) (codes "No such driver") refl

detail_run :
    handle_response {T = DriverResponseDto} (failed refusal) (codes "Login failed")
    ≡ raised (thrown (codes "No such driver"))
unfolding handle_response lookup_field ◌===◌
detail_run = refl

coords_match_run : coords_match (codes "53.35 , -6.26") ≡ some (codes "53.35", codes "-6.26")
unfolding coords_match
coords_match_run = refl

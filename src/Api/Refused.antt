-- ===== src/Api/Refused.antt =====
-- api/*.ts: what every operation says where the service refuses it.
use traffic_service.Base.Double.{Double}
use traffic_service.Base.Json.{Json, str, obj, Fields, lookup_field}
use traffic_service.Api.Messages.{fetch_messages, mark_as_read}
use traffic_service.Api.Auth.{RegisterDriverDto, LoginDriverDto, login_driver, register_driver}
use traffic_service.Api.Bookings.{
  CreateBookingDto, fetch_bookings, create_booking, fetch_booking_reservations, cancel_booking,
}
use traffic_service.Api.Http.{
  failed, thrown, Outcome, resolved, raised, Fetch, error_of, failure_of, handle_response,
  check_response,
}
use traffic_service.Api.Routes.{
  RouteResult, find_routes, get_route_segments, fetch_route, SegmentWindow, get_segment_utilization,
  check_routes_availability,
}
use traffic_service.Base.{Text, codes, ◌≡◌, refl, ap, Option, none, some, List}

-- A service that answers every request with a status other than 2xx and this body, or with one that
-- is no JSON.
abbrev pub refusing : {T : Type 0} → Option (Json Text) → Fetch T
refusing body request = resolved (failed body)

-- The operation is rejected: with the text that the body has under "detail", and with the
-- operation's own text where the body is no JSON.
abbrev pub Rejects :
    {A : Type 0} {B : Type 0} → Fields Text → Text → Text → (Fetch A → Outcome B) → Type 0
Rejects fs said own operation =
    (operation (refusing (some (obj fs))) ≡ raised (thrown said))
    × (operation (refusing none) ≡ raised (thrown own))

said_lem :
    (fs : Fields Text) (said fallback : Text)
    → lookup_field (codes "detail") fs ≡ some (str said)
    → failure_of fallback (some (obj fs)) ≡ thrown said
unfolding failure_of
said_lem fs said fallback e = rw (e, error_of) refl

-- Where the service refuses a request with an object that has a text under "detail", each of the
-- thirteen operations is rejected with that text; where the body is no JSON, each is rejected with
-- a text of its own.
pub operations-Rejects :
    (token : Option Text) (id : Text) (dto : CreateBookingDto) (a b c d : Double)
    (windows : List SegmentWindow) (routes : List RouteResult) (login : LoginDriverDto)
    (register : RegisterDriverDto) (fs : Fields Text) (said : Text)
    → lookup_field (codes "detail") fs ≡ some (str said)
    → Rejects fs said (codes "Failed to fetch bookings") (fetch_bookings token)
      × Rejects fs said (codes "Failed to create booking") (λ fetch. create_booking token fetch dto)
      × Rejects fs said
          (codes "Failed to fetch reservations")
          (λ fetch. fetch_booking_reservations token fetch id)
      × Rejects fs said (codes "Failed to cancel booking") (λ fetch. cancel_booking token fetch id)
      × Rejects fs said (codes "Failed to fetch messages") (fetch_messages token)
      × Rejects fs said
          (codes "Failed to mark message as read")
          (λ fetch. mark_as_read token fetch id)
      × Rejects fs said (codes "Failed to find route") (λ fetch. find_routes token fetch a b c d)
      × Rejects fs said
          (codes "Failed to fetch route segments")
          (λ fetch. get_route_segments token fetch id)
      × Rejects fs said (codes "Failed to fetch route") (λ fetch. fetch_route token fetch id)
      × Rejects fs said
          (codes "Failed to fetch utilization")
          (λ fetch. get_segment_utilization token fetch windows)
      × Rejects fs said
          (codes "Failed to check route availability")
          (λ fetch. check_routes_availability token fetch routes id)
      × Rejects fs said (codes "Login failed") (λ fetch. login_driver fetch login)
      × Rejects fs said (codes "Registration failed") (λ fetch. register_driver fetch register)
unfolding fetch_bookings create_booking fetch_booking_reservations cancel_booking fetch_messages
    mark_as_read find_routes get_route_segments fetch_route get_segment_utilization
    check_routes_availability login_driver register_driver handle_response check_response
operations-Rejects token id dto a b c d windows routes login register fs said e =
    let says : (fallback : Text) → failure_of fallback (some (obj fs)) ≡ thrown said =
      λ fallback. said_lem fs said fallback e in
    (
      (ap raised (says _), refl),
      (ap raised (says _), refl),
      (ap raised (says _), refl),
      (ap raised (says _), refl),
      (ap raised (says _), refl),
      (ap raised (says _), refl),
      (ap raised (says _), refl),
      (ap raised (says _), refl),
      (ap raised (says _), refl),
      (ap raised (says _), refl),
      (ap raised (says _), refl),
      (ap raised (says _), refl),
      (ap raised (says _), refl),
    )

-- ===== src/Api/Credentials.antt =====
-- api: the headers that every request carries.
use traffic_service.Base.Double.{Double}
use traffic_service.Api.Messages.{messages_request, mark_request}
use traffic_service.Api.Auth.{RegisterDriverDto, LoginDriverDto, login_request, register_request}
use traffic_service.Api.Bookings.{
  CreateBookingDto, bookings_request, create_request, reservations_request, cancel_request,
}
use traffic_service.Api.Http.{Request, content_type, bearer, auth_headers, property, assign}
use traffic_service.Api.Routes.{
  RouteResult, find_request, segments_request, route_request, SegmentWindow, utilization_request,
  availability_request,
}
use traffic_service.Base.{
  if◌then◌else◌, ◌or_else◌, All, Text, codes, is_truthy, ◌===◌, ◌≡◌, refl, Option, none, some, List,
  [], ◌∷◌,
}

-- The headers of a JSON request with the bearer token of the store, and of one with no
-- credential where the store has no token.
abbrev pub CarriesIn : Option Text → List (Text × Text) → Type 0
CarriesIn token headers =
    (property (codes "Content-Type") headers ≡ some (codes "application/json"))
    × (property (codes "Authorization") headers
        ≡ (if is_truthy token then some (bearer (token or_else [])) else none))

abbrev pub Carries : Option Text → Request → Type 0
Carries token r = CarriesIn token r.headers

auth_headers-Carries : (token : Option Text) → CarriesIn token (auth_headers token)
unfolding auth_headers property ◌===◌
auth_headers-Carries none = (refl, refl)
auth_headers-Carries (some []) = (refl, refl)
auth_headers-Carries (some (c ∷ s)) = (refl, refl)

assign-auth_headers :
    (token : Option Text)
    → assign content_type.0 content_type.1 (auth_headers token) ≡ auth_headers token
unfolding auth_headers assign ◌===◌
assign-auth_headers none = refl
assign-auth_headers (some []) = refl
assign-auth_headers (some (c ∷ s)) = refl

-- Every request for a driver's data carries the token of the store as a bearer credential and
-- none if the store has no token or an empty one; signing in and registering carry none.
pub requests-Carries :
    (token : Option Text) (id : Text) (dto : CreateBookingDto) (a b c d : Double)
    (windows : List SegmentWindow) (routes : List RouteResult) (login : LoginDriverDto)
    (register : RegisterDriverDto)
    → All (Carries token) (
        bookings_request token
        ∷ create_request token dto
        ∷ reservations_request token id
        ∷ cancel_request token id
        ∷ messages_request token
        ∷ mark_request token id
        ∷ find_request token a b c d
        ∷ segments_request token id
        ∷ route_request token id
        ∷ utilization_request token windows
        ∷ availability_request token routes id
        ∷ [])
      × All (Carries none) (login_request login ∷ register_request register ∷ [])
unfolding bookings_request create_request reservations_request cancel_request messages_request
    mark_request find_request segments_request route_request utilization_request
    availability_request login_request register_request property ◌===◌
requests-Carries token id dto a b c d windows routes login register =
    let h = auth_headers-Carries token in
    let h' : CarriesIn token (assign content_type.0 content_type.1 (auth_headers token)) =
      rw (assign-auth_headers token) h in
    let plain = auth_headers-Carries none in
    (
      (h, (h, (h, (h, (h, (h, (h, (h, (h, (h', (h', tt))))))))))),
      (unfold auth_headers in (plain, (plain, tt))),
    )

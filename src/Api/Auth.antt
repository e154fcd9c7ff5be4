-- ===== src/Api/Auth.antt =====
-- api/auth.ts: signing in and registering.
use traffic_service.Api.Http.{post, Request, Outcome, Fetch, ◌>>=◌, handle_response, content_type}
use traffic_service.Base.Json.{str, obj, end, field, Fields}
use traffic_service.Base.{Text, codes, String, Option, some, [], ◌∷◌}

pub data VehicleType : Type 0 where
  car motorcycle truck hgv : VehicleType

pub record RegisterDriverDto : Type 0 where
  pub name : Text
  pub email : Text
  pub password : Text
  pub license_number : Text
  pub vehicle_type : Text
  pub region : Text

pub record DriverProfile : Type 0 where
  pub driver_id : Text
  pub name : Text
  pub email : Text
  pub license_number : Text
  pub vehicle_type : Option VehicleType
  pub region : Text
  pub created_at : Text

-- `RegisterDriverResponseDto` and `LoginDriverResponseDto`
pub record DriverResponseDto : Type 0 where
  pub driver : DriverProfile
  pub access_token : Text

pub record LoginDriverDto : Type 0 where
  pub email : Text
  pub password : Text

abbrev pub text_field : String → Text → Fields Text → Fields Text
text_field k v = field (codes k) (str v)

unfoldable pub login_request : LoginDriverDto → Request
login_request dto = record {
  method = post;
  url = codes "/api/driver/auth/login";
  query = [];
  headers = content_type ∷ [];
  body = some (obj (text_field "email" dto.email (text_field "password" dto.password end)));
}

unfoldable pub login_driver : Fetch DriverResponseDto → LoginDriverDto → Outcome DriverResponseDto
unfolding login_request handle_response
login_driver fetch dto = do
  response ← fetch (login_request dto)
  handle_response response (codes "Login failed")

unfoldable pub register_request : RegisterDriverDto → Request
register_request dto = record {
  method = post;
  url = codes "/api/driver/auth/register";
  query = [];
  headers = content_type ∷ [];
  body = some (
      obj (
        text_field "name" dto.name (
          text_field "email" dto.email (
            text_field "password" dto.password (
              text_field "license_number" dto.license_number (
                text_field "vehicle_type" dto.vehicle_type
                  (text_field "region" dto.region end)))))));
}

unfoldable pub register_driver :
    Fetch DriverResponseDto → RegisterDriverDto → Outcome DriverResponseDto
unfolding register_request handle_response
register_driver fetch dto = do
  response ← fetch (register_request dto)
  handle_response response (codes "Registration failed")

-- ===== src/Session.antt =====
-- The signed-in driver: stores/driverStore.ts, components/ProtectedRoute.tsx, the routes of
-- App.tsx, components/Navbar.tsx, and the forms of pages/Login and pages/Register. The `persist`
-- middleware, the router's matching and the form library's rule checks are third-party code: the
-- first only saves the store, the others are arguments. Class names and layout are left out.
pub mod Forms
pub mod Reach
pub mod Guard
use traffic_service.Api.Messages.{Message}
use traffic_service.Api.Auth.{
  RegisterDriverDto, DriverProfile, DriverResponseDto, LoginDriverDto, login_driver,
  register_driver,
}
use traffic_service.Api.Http.{Failure, Outcome, resolved, raised, Fetch}
use mathlib.Core.Option
use traffic_service.Base.{
  ltb, if◌then◌else◌, ◌or_else◌, is_some, length, filter, any, Text, codes, is_truthy, ℕ, String,
  Bool, true, false, not, Option, none, some, List, [], ◌∷◌,
}

pub record DriverState : Type 0 where
  pub driver : Option DriverProfile
  pub token : Option Text

unfoldable pub signed_out : DriverState
signed_out = record { driver = none; token = none }

unfoldable pub login : DriverProfile → Text → DriverState → DriverState
login driver token s = record s { driver = some driver; token = some token }

unfoldable pub logout : DriverState → DriverState
logout s = record s { driver = none; token = none }

pub data Page : Type 0 where
  home_page login_page register_page bookings_page inbox_page book_route_page : Page

-- What a place of the page shows: a page, a redirect, or nothing.
pub data Shown : Type 0 where
  page : Page → Shown
  navigate_to : Text → Shown
  nothing : Shown

unfoldable pub protected_route : DriverState → Page → Shown
protected_route s p = if is_truthy s.token then page p else navigate_to (codes "/login")

-- The `<Routes>` of `App`; `matches` is the router's test of a route's path against the location.
unfoldable pub app_routes : (Text → Text → Bool) → DriverState → Text → Shown
unfolding protected_route
app_routes matches s location =
    if matches (codes "/") location
    then page home_page
    else if matches (codes "/login") location
    then page login_page
    else if matches (codes "/register") location
    then page register_page
    else if matches (codes "/bookings") location
    then protected_route s bookings_page
    else if matches (codes "/inbox") location
    then protected_route s inbox_page
    else if matches (codes "/routes") location
    then protected_route s book_route_page
    else nothing

abbrev pub is_unread : Message → Bool
is_unread m = not m.is_read

-- `messages?.filter((m) => !m.is_read).length ?? 0`
unfoldable pub unread_count : Option (List Message) → ℕ
unread_count none = 0
unread_count (some ms) = length (filter is_unread ms)

-- The label of a link and its badge, which `NavItem` shows for a positive count.
unfoldable pub nav_badge : Option ℕ → Option ℕ
nav_badge none = none
nav_badge (some n) = if ltb 0 n then some n else none

pub record NavLink : Type 0 where
  pub to : Text
  pub label : Text
  pub badge : Option ℕ

pub data NavMenu : Type 0 where
  account : Text → NavMenu
  sign_in_buttons : NavMenu

pub record NavView : Type 0 where
  pub links : List NavLink
  pub menu : NavMenu
  pub polls_messages : Bool

unfoldable pub navbar : DriverState → Option (List Message) → NavView
unfolding unread_count nav_badge
navbar s messages =
    if is_truthy s.token
    then record {
      links =
          record { to = codes "/routes"; label = codes "Book Route"; badge = nav_badge none }
          ∷ record { to = codes "/bookings"; label = codes "Bookings"; badge = nav_badge none }
          ∷ record {
            to = codes "/inbox";
            label = codes "Inbox";
            badge = nav_badge (some (unread_count messages));
          }
          ∷ [];
      menu = account (Option.map (λ (d : DriverProfile). d.name) s.driver or_else codes "Account");
      polls_messages = true;
    }
    else record { links = []; menu = sign_in_buttons; polls_messages = false }

-- The store and the location of the browser, which the handlers change.
pub record Session : Type 0 where
  pub store : DriverState
  pub location : Text

-- `handleLogout` of the menu
unfoldable pub handle_logout : Session → Session
unfolding logout
handle_logout s = record s { store = logout s.store; location = codes "/" }

-- The options that a field is registered with: the message of `required`, and `minLength`.
pub record Rules : Type 0 where
  pub required : Text
  pub min_length : Option (ℕ × Text)

-- The form library's check of a field: the message of the first rule that fails.
abbrev pub Check : Type 0
Check = Rules → Text → Option Text

abbrev pub required_only : String → Rules
required_only m = record { required = codes m; min_length = none }

abbrev pub with_length : String → ℕ → String → Rules
with_length m n t = record { required = codes m; min_length = some (n, codes t) }

-- The messages under the fields, in the order of the form.
unfoldable pub login_errors : Check → LoginDriverDto → List (Option Text)
login_errors check dto =
    check (required_only "Email is required") dto.email
    ∷ check (with_length "Password is required" 2 "Password must be at least 2 characters")
        dto.password
    ∷ []

unfoldable pub register_errors : Check → RegisterDriverDto → List (Option Text)
register_errors check dto =
    check (required_only "Name is required") dto.name
    ∷ check (required_only "Email is required") dto.email
    ∷ check (with_length "Password is required" 8 "Password must be at least 8 characters")
        dto.password
    ∷ check (required_only "License number is required") dto.license_number
    ∷ check (required_only "Vehicle type is required") dto.vehicle_type
    ∷ check (required_only "Region is required") dto.region
    ∷ []

-- What a form shows after it was submitted: messages under fields, or the failure of the call.
pub record FormView : Type 0 where
  pub errors : List (Option Text)
  pub error : Option Failure

-- `onSuccess` of both forms, and the failure that stands above the fields.
unfoldable pub on_settled :
    Outcome DriverResponseDto → List (Option Text) → Session → Session × FormView
unfolding login
on_settled (resolved r) errors s = (
  record { store = login r.driver r.access_token s.store; location = codes "/routes" },
  record { errors = errors; error = none },
)
on_settled (raised e) errors s = (s, record { errors = errors; error = some e })

-- `handleSubmit(onSubmit)`: the call is made only if every field passes.
unfoldable pub submit_login :
    Check → Fetch DriverResponseDto → LoginDriverDto → Session → Session × FormView
unfolding login_errors on_settled
submit_login check fetch dto s =
    let errors = login_errors check dto in
    if any is_some errors
    then (s, record { errors = errors; error = none })
    else on_settled (login_driver fetch dto) errors s

unfoldable pub submit_register :
    Check → Fetch DriverResponseDto → RegisterDriverDto → Session → Session × FormView
unfolding register_errors on_settled
submit_register check fetch dto s =
    let errors = register_errors check dto in
    if any is_some errors
    then (s, record { errors = errors; error = none })
    else on_settled (register_driver fetch dto) errors s

-- ===== src/Dashboard.antt =====
-- services/bff/traffic-frontend/src/pages/Home/HomePage.tsx and pages/Inbox/InboxPage.tsx. Both
-- show what the queries hold, which the pages share. Class names and layout are left out.
pub mod Counts
pub mod Recent
use traffic_service.Bookings.CardDetails.{BadgeColor, status_color}
use traffic_service.Api.Bookings.{BookingStatus, pending, approved, rejected, Booking}
use traffic_service.Bookings.{status_text, same_status}
use traffic_service.Base.Newest.{sort_newest}
use traffic_service.Datetime.{split, short_id, ensure_utc_suffix}
use traffic_service.Session.{unread_count, is_unread, nav_badge, DriverState}
use traffic_service.Api.Messages.{Message}
use traffic_service.Api.Auth.{DriverProfile}
use traffic_service.Api.Http.{Failure}
use traffic_service.Base.{
  if◌then◌else◌, ◌or_else◌, length, get_elem?, take, filter, Text, codes, is_truthy, ℕ, Bool, true,
  false, not, Option, none, some, List, [], ◌∷◌, ◌++◌, map,
}

-- A row of "Recent bookings": the reference, the departure and the badge.
pub record BookingRow : Type 0 where
  pub reference : Text
  pub departure : Text
  pub badge : Text × BadgeColor

pub record MessageRow : Type 0 where
  pub reference : Text
  pub is_new : Bool
  pub content : Text

-- `none` for the lists' texts when there is nothing to list.
pub record Dashboard : Type 0 where
  pub greeting : Text
  pub numbers : List (Text × ℕ)
  pub recent : Option (List BookingRow)
  pub recent_messages : Option (List MessageRow)

-- Signed out, the page shows links to sign in and to create an account.
pub data HomeView : Type 0 where
  welcome : HomeView
  dashboard : Dashboard → HomeView

abbrev has_status : BookingStatus → Booking → Bool
has_status s b = same_status b.status s

unfoldable pub greeting : Option DriverProfile → Text
greeting none = codes "Welcome back"
greeting (some d) = elim d.name [
  | [] ↦ codes "Welcome back"
  | _ ↦ codes "Welcome back, " ++ (get_elem? (split b' ' d.name) 0 or_else [])
]

abbrev or_empty {ℓ} : {A : Type ℓ} → List A → Option (List A)
or_empty [] = none
or_empty (x ∷ xs) = some (x ∷ xs)

-- The section's functions are `new Date(t).getTime()`, and the printing of a date.
module _ (get_time : Text → ℕ) (to_locale : Text → Text) where
  unfoldable pub recent_bookings : Option (List Booking) → List Booking
  recent_bookings bookings =
      take 3 (sort_newest (λ (b : Booking). get_time b.created_at) (bookings or_else []))

  unfoldable pub recent_messages_of : Option (List Message) → List Message
  recent_messages_of messages =
      take 3 (sort_newest (λ (m : Message). get_time m.created_at) (messages or_else []))

  abbrev booking_row : Booking → BookingRow
  booking_row b = record {
    reference = codes "Route " ++ short_id b.route_id;
    departure = to_locale (ensure_utc_suffix b.departure_time);
    badge = (status_text b.status, status_color b.status);
  }

  abbrev message_row : Message → MessageRow
  message_row m = record {
    reference = codes "Ref " ++ short_id m.booking_id;
    is_new = is_unread m;
    content = m.content;
  }

  unfoldable pub home_page_view :
      DriverState → Option (List Booking) → Option (List Message) → HomeView
  unfolding recent_bookings recent_messages_of
  home_page_view s bookings messages =
      let bs = bookings or_else [] in
      if not (is_truthy s.token)
      then welcome
      else dashboard record {
        greeting = greeting s.driver;
        numbers =
            (codes "Total", length bs)
            ∷ (codes "Pending", length (filter (has_status pending) bs))
            ∷ (codes "Approved", length (filter (has_status approved) bs))
            ∷ (codes "Rejected", length (filter (has_status rejected) bs))
            ∷ (codes "Unread Inbox", unread_count messages)
            ∷ [];
        recent = or_empty (map booking_row (recent_bookings bookings));
        recent_messages = or_empty (map message_row (recent_messages_of messages));
      }

-- An item of the inbox: whether it is emphasised, its text, its reference and its time.
pub record MessageItem : Type 0 where
  pub emphasised : Bool
  pub content : Text
  pub reference : Text
  pub created : Text

pub record InboxView : Type 0 where
  pub badge : Option ℕ
  pub loading : Bool
  pub error : Option Failure
  pub empty_notice : Bool
  pub items : List MessageItem

-- The argument is `new Date(t).toLocaleString()`.
abbrev message_item : (Text → Text) → Message → MessageItem
message_item to_locale m = record {
  emphasised = not m.is_read;
  content = m.content;
  reference = codes "Ref: " ++ short_id m.booking_id;
  created = to_locale m.created_at;
}

unfoldable pub inbox_page_view :
    (Text → Text) → Option (List Message) → Bool → Option Failure → InboxView
inbox_page_view to_locale messages loading error = record {
  badge = nav_badge (some (unread_count messages));
  loading = loading;
  error = error;
  empty_notice = elim messages [ some [] ↦ true | _ ↦ false ];
  items = map (message_item to_locale) (messages or_else []);
}

-- `onClick` of an item: the call that it makes, if any.
unfoldable pub click_message : Message → Option Text
click_message m = if not m.is_read then some m.message_id else none

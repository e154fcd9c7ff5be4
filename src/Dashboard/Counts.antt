-- ===== src/Dashboard/Counts.antt =====
-- The numbers that several parts of the page show of the same queries: HomePage.tsx, InboxPage.tsx,
-- BookingsPage.tsx and Navbar.tsx.
use traffic_service.Api.Messages.{Message}
use traffic_service.Api.Bookings.{BookingStatus, Booking, pending, approved, rejected}
use traffic_service.Api.Http.{Failure}
use traffic_service.Bookings.{filter_of, includes_status, StatCard, stat_card, stat_cards}
use traffic_service.Session.{DriverState, is_unread, unread_count, nav_badge, NavLink, navbar}
use traffic_service.Dashboard.{
  home_page_view, HomeView, welcome, dashboard, has_status, MessageItem, message_item,
  inbox_page_view,
}
use traffic_service.Base.{
  ltb, if◌then◌else◌, ◌or_else◌, length, get_elem?, take, filter, Text, is_truthy, ℕ, String, ◌≡◌,
  refl, sym, ap, Bool, true, Option, none, some, List, [], ◌∷◌, map, arith,
}

emphasised_items :
    (to_locale : Text → Text) (ms : List Message)
    → length (filter (λ (i : MessageItem). i.emphasised) (map (message_item to_locale) ms))
      ≡ length (filter is_unread ms)
emphasised_items to_locale [] = refl
emphasised_items to_locale (m ∷ ms) = ground (arith, emphasised_items to_locale ms)

abbrev pub numbers_of : HomeView → List ℕ
numbers_of welcome = []
numbers_of (dashboard d) = map (λ (n : Text × ℕ). n.1) d.numbers

-- For a signed-in driver the bar's badge, the badge of the inbox and the number on the dashboard
-- agree, and the inbox emphasises as many messages as its badge says.
pub unread_numbers_agree :
    (get_time : Text → ℕ) (to_locale to_string : Text → Text) (s : DriverState)
    (bookings : Option (List Booking)) (ms : List Message) (loading : Bool) (error : Option Failure)
    → is_truthy s.token ≡ true
    → let inbox = inbox_page_view to_string (some ms) loading error in
      let unread = length (filter (λ (i : MessageItem). i.emphasised) inbox.items) in
      (inbox.badge ≡ (if ltb 0 unread then some unread else none))
      × (map (λ (l : NavLink). l.badge) (navbar s (some ms)).links ≡ none ∷ none ∷ inbox.badge ∷ [])
      × (get_elem? (numbers_of (home_page_view get_time to_locale s bookings (some ms))) 4
          ≡ some unread)
unfolding home_page_view inbox_page_view navbar unread_count nav_badge
unread_numbers_agree get_time to_locale to_string s bookings ms loading error signed = (
  rw (emphasised_items to_string ms) refl,
  rw signed refl,
  rw signed (ap some (sym (emphasised_items to_string ms))),
)

same_filter :
    (s : BookingStatus) (label value : String) (bs : List Booking)
    → length (filter (has_status s) bs)
      ≡ length (filter (includes_status (filter_of label value (s ∷ []))) bs)
same_filter s label value [] = refl
same_filter s label value (b ∷ bs) = ground (arith, same_filter s label value bs)

-- For a signed-in driver the first four numbers on the dashboard are those on the cards of the
-- bookings page, whatever filter is chosen there.
pub home_numbers-stat_cards :
    (get_time : Text → ℕ) (to_locale : Text → Text) (s : DriverState)
    (bookings : Option (List Booking)) (messages : Option (List Message)) (active : Option Text)
    → is_truthy s.token ≡ true
    → take 4 (numbers_of (home_page_view get_time to_locale s bookings messages))
      ≡ map (λ (c : StatCard). c.count) (take 4 (stat_cards bookings active))
unfolding home_page_view stat_cards stat_card
home_numbers-stat_cards get_time to_locale s bookings messages active signed =
    let bs = bookings or_else [] in
    rw signed (
      ground (
        arith,
        same_filter pending "Pending" "pending" bs,
        same_filter approved "Approved" "approved" bs,
        same_filter rejected "Rejected" "rejected" bs,
      ))

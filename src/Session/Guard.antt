-- ===== src/Session/Guard.antt =====
-- components/ProtectedRoute.tsx, App.tsx and components/Navbar.tsx: what is shown without a token.
use traffic_service.Api.Messages.{Message}
use traffic_service.Session.{
  DriverState, logout, Page, bookings_page, inbox_page, book_route_page, page, protected_route,
  app_routes, unread_count, NavLink, navbar, is_unread,
}
use traffic_service.Base.{
  ltb, if◌then◌else◌, Bool-cases, length, filter, All, Text, is_truthy, ◌≡◌, refl, ◌↔◌, inl, inr,
  Bool, true, false, Option, none, some, List, [], ◌∷◌, map, arith,
}

abbrev pub is_protected : Page → Bool
is_protected bookings_page = true
is_protected inbox_page = true
is_protected book_route_page = true
is_protected _ = false

protected_route-guards :
    (s : DriverState) (p q : Page) → protected_route s p ≡ page q → is_truthy s.token ≡ true
unfolding protected_route
protected_route-guards s p q e = ground arith

-- Whatever the location, a page for a driver's data is shown only with a non-empty token, the
-- links of the bar and the polling for messages are there exactly with such a token, and
-- after logging out none of these pages is shown at any location.
pub app_routes-guards :
    (matches : Text → Text → Bool) (s : DriverState) (messages : Option (List Message)) (at : Text)
    (p : Page)
    → (app_routes matches s at ≡ page p → is_protected p ≡ true → is_truthy s.token ≡ true)
      × ((navbar s messages).polls_messages ≡ is_truthy s.token)
      × (((navbar s messages).links ≡ []) ↔ (is_truthy s.token ≡ false))
      × (app_routes matches (logout s) at ≡ page p → is_protected p ≡ false)
unfolding app_routes protected_route navbar logout
app_routes-guards matches s messages at p = (ground arith, ground arith, ground arith, ground arith)

length-filter-unread :
    (ms : List Message)
    → (length (filter is_unread ms) ≡ 0) ↔ All (λ (m : Message). m.is_read ≡ true) ms
length-filter-unread [] = ((λ _. tt), (λ _. refl))
length-filter-unread (m ∷ ms) =
    let (to, from) = length-filter-unread ms in
    elim (Bool-cases m.is_read) [
      | inl seen ↦ (rw seen (λ e. (refl, to e)), rw seen (λ a. from a.1))
      | inr new ↦ (rw new (λ e. absurd (omega (arith, e))), λ a. cc)
    ]

-- The bar's badge counts the messages that are not read, and is there exactly for one or more.
pub navbar-badge :
    (s : DriverState) (ms : List Message)
    → is_truthy s.token ≡ true
    → let count = unread_count (some ms) in
      (map (λ (l : NavLink). l.badge) (navbar s (some ms)).links
        ≡ none ∷ none ∷ (if ltb 0 count then some count else none) ∷ [])
      × ((count ≡ 0) ↔ All (λ m. m.is_read ≡ true) ms)
unfolding navbar
navbar-badge s ms signed = (rw signed, length-filter-unread ms)

-- ===== src/Tests/Pages.antt =====
-- The pages at the test data.
use traffic_service.Dashboard.Counts.{numbers_of, unread_numbers_agree}
use traffic_service.Bookings.Stats.{sum_of, numbers, stat_cards_lem}
use traffic_service.Bookings.Filters.{toggle_filter_lem}
use traffic_service.Session.Reach.{
  signs_in, logs_out, begins, next, IsConsistent, Reach-IsConsistent,
}
use traffic_service.Session.Forms.{Settles, submit-Settles, submit_validated}
use traffic_service.Session.Guard.{is_protected, app_routes-guards}
use traffic_service.Base.Newest.{sort_newest}
use traffic_service.Base.SearchParams.{get_param}
use traffic_service.Base.Decimal.{to_number}
use traffic_service.Tests.Data.{
  check_field, rules_hold, login_dto, register_dto, accepting, fresh, signed_in, four_bookings,
  three_messages, time_of, as_text, same_path,
}
use traffic_service.Api.Auth.{login_driver, register_driver}
use traffic_service.Api.Bookings.{Booking}
use traffic_service.Bookings.{
  status_key, filtered_bookings, toggle_filter, StatCard, is_active, stat_cards,
}
use traffic_service.Session.{
  logout, bookings_page, page, app_routes, NavLink, navbar, handle_logout, submit_login,
  submit_register,
}
use traffic_service.Dashboard.{recent_bookings, home_page_view, MessageItem, inbox_page_view}
use traffic_service.Base.{
  ltb, if◌then◌else◌, ◌or_else◌, length, get_elem?, filter, All, codes, is_truthy, ◌≤◌, ◌<◌, ◌≡◌,
  refl, ◌≢◌, ◌↔◌, ◌⊎◌, true, false, none, some, [], ◌∷◌, map,
}

app_routes-guards_example :
    (app_routes same_path signed_in (codes "/bookings") ≡ page bookings_page
      → is_protected bookings_page ≡ true
      → is_truthy signed_in.token ≡ true)
    × ((navbar signed_in (some three_messages)).polls_messages ≡ is_truthy signed_in.token)
    × (((navbar signed_in (some three_messages)).links ≡ []) ↔ (is_truthy signed_in.token ≡ false))
    × (app_routes same_path (logout signed_in) (codes "/bookings") ≡ page bookings_page
        → is_protected bookings_page ≡ false)
app_routes-guards_example =
    app_routes-guards same_path signed_in (some three_messages) (codes "/bookings") bookings_page

stat_cards_lem_example :
    let cards = stat_cards (some four_bookings) (some (codes "closed")) in
    let counts = numbers ((some four_bookings) or_else []) in
    (map (λ (c : StatCard). c.count) cards ≡ sum_of counts ∷ counts)
    × All
        (λ (c : StatCard).
          c.active ≡ true
          → c.count
            ≡ length (filtered_bookings (some (codes "closed")) (some four_bookings) or_else []))
        cards
stat_cards_lem_example = stat_cards_lem (some four_bookings) (some (codes "closed"))

submit-Settles_example :
    Settles
      (login_driver accepting login_dto)
      fresh
      (submit_login check_field accepting login_dto fresh)
    × Settles
        (register_driver accepting register_dto)
        fresh
        (submit_register check_field accepting register_dto fresh)
submit-Settles_example = submit-Settles check_field accepting login_dto register_dto fresh

submit_validated_example :
    ((submit_login check_field accepting login_dto fresh).0 ≢ fresh
      → (0 < length login_dto.email) × (2 ≤ length login_dto.password))
    × ((submit_register check_field accepting register_dto fresh).0 ≢ fresh
        → (0 < length register_dto.name)
          × (0 < length register_dto.email)
          × (8 ≤ length register_dto.password)
          × (0 < length register_dto.license_number)
          × (0 < length register_dto.vehicle_type)
          × (0 < length register_dto.region))
submit_validated_example =
    submit_validated check_field accepting login_dto register_dto fresh rules_hold

toggle_filter_lem_example :
    let active =
      get_param status_key ((codes "page", codes "2") ∷ (status_key, codes "pending") ∷ []) in
    let once =
      toggle_filter
        (some (codes "closed"))
        active
        ((codes "page", codes "2") ∷ (status_key, codes "pending") ∷ []) in
    (get_param status_key once
      ≡ (if is_active active (codes "closed") then none else some (codes "closed")))
    × (get_param status_key (
          toggle_filter none active
            ((codes "page", codes "2") ∷ (status_key, codes "pending") ∷ []))
        ≡ none)
    × ((codes "page") ≢ status_key
        → (get_param (codes "page") once
            ≡ get_param
                (codes "page")
                ((codes "page", codes "2") ∷ (status_key, codes "pending") ∷ []))
          × (get_param (codes "page") (
                toggle_filter none active
                  ((codes "page", codes "2") ∷ (status_key, codes "pending") ∷ []))
              ≡ get_param
                  (codes "page")
                  ((codes "page", codes "2") ∷ (status_key, codes "pending") ∷ [])))
    × ((active ≡ none) ⊎ (active ≡ some (codes "closed"))
        → get_param status_key
            (toggle_filter (some (codes "closed")) (get_param status_key once) once)
          ≡ active)
toggle_filter_lem_example =
    toggle_filter_lem (codes "closed")
      ((codes "page", codes "2") ∷ (status_key, codes "pending") ∷ []) (codes "page")

unread_numbers_agree_example :
    let inbox = inbox_page_view as_text (some three_messages) false none in
    let unread = length (filter (λ (i : MessageItem). i.emphasised) inbox.items) in
    (inbox.badge ≡ (if ltb 0 unread then some unread else none))
    × (map (λ (l : NavLink). l.badge) (navbar signed_in (some three_messages)).links
        ≡ none ∷ none ∷ inbox.badge ∷ [])
    × (get_elem?
          (numbers_of
            (home_page_view time_of as_text signed_in (some four_bookings) (some three_messages)))
          4
        ≡ some unread)
unread_numbers_agree_example =
    unread_numbers_agree time_of as_text as_text signed_in (some four_bookings) three_messages false
      none refl

Reach-IsConsistent_example :
    IsConsistent (handle_logout (submit_login check_field accepting login_dto fresh).0).store
Reach-IsConsistent_example = Reach-IsConsistent (
    next (next (begins (codes "/login")) (signs_in accepting login_dto fresh))
      (logs_out (submit_login check_field accepting login_dto fresh).0))

login_run :
    (submit_login check_field accepting login_dto fresh).0
    ≡ record { store = signed_in; location = codes "/routes" }
unfolding submit_login login_driver
login_run = refl

stat_cards_run :
    map (λ (c : StatCard). c.count) (stat_cards (some four_bookings) (some (codes "closed")))
    ≡ 4 ∷ 1 ∷ 1 ∷ 0 ∷ 2 ∷ []
unfolding stat_cards
stat_cards_run = refl

recent_bookings_run :
    map (λ (b : Booking). b.booking_id) (recent_bookings time_of as_text (some four_bookings))
    ≡ map codes ("b-2" ∷ "b-4" ∷ "b-1" ∷ [])
unfolding recent_bookings sort_newest to_number
recent_bookings_run = refl

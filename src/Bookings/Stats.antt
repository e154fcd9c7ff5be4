-- ===== src/Bookings/Stats.antt =====
-- BookingsPage.tsx: the counts on the cards.
use traffic_service.Api.Bookings.{
  Booking, BookingStatus, pending, approved, rejected, cancelled, expired,
}
use traffic_service.Bookings.{
  BookingFilter, stat_filters, includes_status, active_filter, filtered_bookings, StatCard,
  stat_card, stat_cards,
}
use traffic_service.Base.{
  ◌or_else◌, length, filter, All, Text, codes, ===_iff, ◌===◌, ℕ, ◌+◌, ◌≡◌, refl, true, Option,
  none, some, List, [], ◌∷◌, map, arith,
}

abbrev pub count_for : BookingFilter → List Booking → ℕ
count_for f bs = length (filter (includes_status f) bs)

abbrev pub sum_of : List ℕ → ℕ
sum_of [] = 0
sum_of (n ∷ ns) = n + sum_of ns

-- The numbers of a list's bookings that the four filters hold.
abbrev filter_total : List Booking → ℕ
filter_total bs = sum_of (map (λ (f : BookingFilter). count_for f bs) stat_filters)

filter_total_cons :
    (b : Booking) (bs : List Booking) (s : BookingStatus)
    → b.status ≡ s
    → filter_total (b ∷ bs) ≡ 1 + filter_total bs
filter_total_cons b bs pending e = ground arith
filter_total_cons b bs approved e = ground arith
filter_total_cons b bs rejected e = ground arith
filter_total_cons b bs cancelled e = ground arith
filter_total_cons b bs expired e = ground arith

filter_total_all : (bs : List Booking) → filter_total bs ≡ length bs
filter_total_all [] = refl
filter_total_all (b ∷ bs) =
    ground (arith, filter_total_cons b bs b.status refl, filter_total_all bs)

-- A booking list's numbers, in the order of the filters.
abbrev pub numbers : List Booking → List ℕ
numbers bs = map (λ (f : BookingFilter). count_for f bs) stat_filters

-- Whatever the filter in the address, the number on "Total" is the sum of the four others, which
-- count the bookings of their filters, and a card that is shown as active has the number of the
-- bookings that the page lists.
pub stat_cards_lem :
    (bookings : Option (List Booking)) (active : Option Text)
    → let cards = stat_cards bookings active in
      let counts = numbers (bookings or_else []) in
      (map (λ (c : StatCard). c.count) cards ≡ sum_of counts ∷ counts)
      × All
          (λ (c : StatCard).
            c.active ≡ true → c.count ≡ length (filtered_bookings active bookings or_else []))
          cards
unfolding stat_cards stat_card filtered_bookings active_filter ◌===◌
stat_cards_lem bookings none = (
  ground (arith, filter_total_all (bookings or_else [])),
  (
    λ h. refl,
    (λ h. ground arith, (λ h. ground arith, (λ h. ground arith, (λ h. ground arith, tt)))),
  ),
)
stat_cards_lem bookings (some a) = (
  ground (arith, filter_total_all (bookings or_else [])),
  (
    λ h. ground arith,
    (
      λ h. rw ((===_iff a (codes "pending")).0 h) refl,
      (
        λ h. rw ((===_iff a (codes "approved")).0 h) refl,
        (
          λ h. rw ((===_iff a (codes "rejected")).0 h) refl,
          (λ h. rw ((===_iff a (codes "closed")).0 h) refl, tt),
        ),
      ),
    ),
  ),
)

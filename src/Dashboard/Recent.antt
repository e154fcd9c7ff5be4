-- ===== src/Dashboard/Recent.antt =====
-- HomePage.tsx: the recent bookings.
use traffic_service.Api.Bookings.{Booking}
use traffic_service.Dashboard.{recent_bookings}
use traffic_service.Base.Newest.{
  sort_newest, NewestFirst, sort_newest-NewestFirst, sort_newest-stable, length-sort_newest,
}
use traffic_service.Base.{
  ◌==◌, length, take, drop, filter, length-take, Text, ℕ, zero, suc, min, ◌≡◌, refl, ap, some, List,
  [], ◌∷◌, ◌++◌, arith,
}

take-drop {ℓ} : {A : Type ℓ} (n : ℕ) (xs : List A) → take n xs ++ drop n xs ≡ xs
take-drop zero xs = refl
take-drop (suc n) [] = refl
take-drop (suc n) (x ∷ xs) = ap (λ ys. x ∷ ys) (take-drop n xs)

-- The dashboard lists three bookings, or all of them if there are fewer: together with the rest
-- they are the driver's bookings, each as often, in an order in which the newest come first and
-- bookings of one time keep their places.
pub recent_bookings_lem :
    (get_time : Text → ℕ) (to_locale : Text → Text) (bs : List Booking)
    → let recent = recent_bookings get_time to_locale (some bs) in
      (length recent ≡ min 3 (length bs))
      × ((rest : List Booking) × NewestFirst
            (λ (b : Booking). get_time b.created_at)
            (recent ++ rest)
          × ((t : ℕ)
              → filter (λ (b : Booking). get_time b.created_at == t) (recent ++ rest)
                ≡ filter (λ (b : Booking). get_time b.created_at == t) bs))
unfolding recent_bookings
recent_bookings_lem get_time to_locale bs =
    let time : Booking → ℕ = λ b. get_time b.created_at in
    let sorted = sort_newest time bs in
    (
      omega (arith, length-take 3 sorted, length-sort_newest time bs),
      (
        drop 3 sorted,
        rw (take-drop 3 sorted) (sort_newest-NewestFirst time bs),
        λ t. rw (take-drop 3 sorted) (sort_newest-stable time t bs),
      ),
    )

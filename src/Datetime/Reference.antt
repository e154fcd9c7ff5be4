-- ===== src/Datetime/Reference.antt =====
-- lib/datetime.ts, `shortId`.
use traffic_service.Base.{
  leb, length, take, filter, All, length-take, length-map, All-take, Text, ℕ, zero, suc, ◌≤◌, ◌≡◌,
  refl, ap, false, ◌&&◌, not, [], ◌∷◌, map, arith,
}
use traffic_service.Datetime.{to_upper, is_dash, short_id}

-- A character that a reference shows: no dash, no lower-case letter.
abbrev pub IsRefChar : ℕ → Type 0
IsRefChar c = (is_dash c ≡ false) × (leb b'a' c && leb c b'z' ≡ false)

to_upper-IsRefChar : (c : ℕ) → is_dash c ≡ false → IsRefChar (to_upper c)
to_upper-IsRefChar c h = ground arith

filter-All : (s : Text) → All (λ c. is_dash c ≡ false) (filter (λ c. not (is_dash c)) s)
filter-All [] = tt
filter-All (c ∷ s) = ground (arith, filter-All s)

map-All : (s : Text) → All (λ c. is_dash c ≡ false) s → All IsRefChar (map to_upper s)
map-All [] h = tt
map-All (c ∷ s) h = (to_upper-IsRefChar c h.0, map-All s h.1)

-- `filter` without dashes, then upper case, is upper case, then `filter`.
filter-map :
    (s : Text)
    → filter (λ c. not (is_dash c)) (map to_upper s)
      ≡ map to_upper (filter (λ c. not (is_dash c)) s)
filter-map [] = refl
filter-map (c ∷ s) = ground (arith, filter-map s)

to_upper_idem : (c : ℕ) → to_upper (to_upper c) ≡ to_upper c
to_upper_idem c = ground arith

map-take-map : (n : ℕ) (s : Text) → map to_upper (take n (map to_upper s)) ≡ map to_upper (take n s)
map-take-map zero s = refl
map-take-map (suc n) [] = refl
map-take-map (suc n) (c ∷ s) = cc (to_upper_idem c, map-take-map n s)

All-length : (s : Text) → length (map to_upper (take 4 s)) ≤ 4
All-length s = omega (arith, length-map (take 4 s) to_upper, length-take 4 s)

-- A reference is "#" and at most four characters, none of them a dash or a lower-case letter;
-- and it is the same for an id written in upper case.
pub short_id_lem :
    (uuid : Text)
    → let shown = map to_upper (take 4 (filter (λ c. not (is_dash c)) uuid)) in
      (short_id uuid ≡ b'#' ∷ shown)
      × (length shown ≤ 4)
      × All IsRefChar shown
      × (short_id (map to_upper uuid) ≡ short_id uuid)
unfolding short_id
short_id_lem uuid =
    let plain = filter (λ c. not (is_dash c)) uuid in
    (
      refl,
      All-length plain,
      map-All (take 4 plain) (All-take _ 4 plain (filter-All uuid)),
      rw (filter-map uuid) (ap (λ (t : Text). b'#' ∷ t) (map-take-map 4 plain)),
    )

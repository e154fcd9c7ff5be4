-- ===== src/RouteMap/Markers.antt =====
-- RouteMap.tsx: the markers for the ends of a route. A marker object is known by a number.
use traffic_service.BookRoute.Params.{Coord}
use traffic_service.Base.{
  ◌==◌, Bool-cases, filter, any, All, Text, codes, ℕ, suc, ◌≡◌, refl, inl, inr, true, not, Option,
  none, some, List, [], ◌∷◌, ◌++◌, arith,
}

pub record Marker : Type 0 where
  pub key : ℕ
  pub color : Text
  pub place : Coord

-- The markers that are on the map, those that `markersRef` holds, and the number of the next one.
pub record Markers : Type 0 where
  pub on_map : List Marker
  pub markers_ref : List ℕ
  pub next_key : ℕ

-- `m.remove()`
abbrev pub remove_marker : ℕ → List Marker → List Marker
remove_marker k ms = filter (λ (m : Marker). not (m.key == k)) ms

abbrev pub remove_markers : List ℕ → List Marker → List Marker
remove_markers [] ms = ms
remove_markers (k ∷ ks) ms = remove_markers ks (remove_marker k ms)

-- `new Marker({ color }).setLngLat(place).addTo(map)`, and its place in `markersRef`
abbrev pub add_marker : Text → Option Coord → Markers → Markers
add_marker color none s = s
add_marker color (some place) s = record {
  on_map = s.on_map ++ (record { key = s.next_key; color = color; place = place } ∷ []);
  markers_ref = s.markers_ref ++ (s.next_key ∷ []);
  next_key = suc s.next_key;
}

unfoldable pub sync_markers : Option Coord → Option Coord → Markers → Markers
sync_markers origin destination s = add_marker (codes "#ef4444") destination (
    add_marker (codes "#22c55e") origin
      (record s { on_map = remove_markers s.markers_ref s.on_map; markers_ref = [] }))

-- What is to be seen of the markers.
abbrev pub pins : List Marker → List (Text × Coord)
pins [] = []
pins (m ∷ ms) = (m.color, m.place) ∷ pins ms

abbrev pub pin : Text → Option Coord → List (Text × Coord)
pin color none = []
pin color (some place) = (color, place) ∷ []

-- Every marker on the map is held by the component.
abbrev pub IsHeld : Markers → Type 0
IsHeld s = All (λ (m : Marker). any (λ k. k == m.key) s.markers_ref ≡ true) s.on_map

remove_markers_leaves_none :
    (ks : List ℕ) (ms : List Marker)
    → All (λ (m : Marker). any (λ k. k == m.key) ks ≡ true) ms
    → remove_markers ks ms ≡ []
remove_markers_leaves_none [] [] h = refl
remove_markers_leaves_none [] (m ∷ ms) h = ground (arith, h.0)
remove_markers_leaves_none (k ∷ ks) ms h =
    remove_markers_leaves_none ks (remove_marker k ms) (rest ms h)
  where
    rest :
        (xs : List Marker)
        → All (λ (m : Marker). any (λ j. j == m.key) (k ∷ ks) ≡ true) xs
        → All (λ (m : Marker). any (λ j. j == m.key) ks ≡ true) (remove_marker k xs)
    rest [] a = tt
    rest (x ∷ xs) a = elim (Bool-cases (x.key == k)) [
      | inl e ↦ rw e (rest xs a.1)
      | inr e ↦ rw e (ground (arith, a.0, e), rest xs a.1)
    ]

-- Whatever was drawn before, the map then has a green marker at the start and a red one at the end,
-- of those that are chosen, and no other; all of them are held again.
pub sync_markers_lem :
    (origin destination : Option Coord) (s : Markers)
    → IsHeld s
    → (pins (sync_markers origin destination s).on_map
        ≡ pin (codes "#22c55e") origin ++ pin (codes "#ef4444") destination)
      × IsHeld (sync_markers origin destination s)
unfolding sync_markers
sync_markers_lem origin destination s h =
    rw (remove_markers_leaves_none s.markers_ref s.on_map h) (after origin destination)
  where
    after :
        (o d : Option Coord)
        → let t = add_marker (codes "#ef4444") d (
            add_marker
              (codes "#22c55e")
              o
              (record { on_map = []; markers_ref = []; next_key = s.next_key })) in
          (pins t.on_map ≡ pin (codes "#22c55e") o ++ pin (codes "#ef4444") d) × IsHeld t
    after none none = (refl, tt)
    after none (some d) = (refl, (ground arith, tt))
    after (some o) none = (refl, (ground arith, tt))
    after (some o) (some d) = (refl, (ground arith, (ground arith, tt)))

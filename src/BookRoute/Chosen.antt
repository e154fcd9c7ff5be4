-- ===== src/BookRoute/Chosen.antt =====
-- BookRoutePage.tsx: the route that is shown is the best one there is.
use traffic_service.Base.Double.{Double}
use traffic_service.Base.Json.{Json}
use traffic_service.BookRoute.Selection.{
  without, alternative_geometries, availability_of, available_route, selected_route_index,
}
use traffic_service.RouteMap.Geometry.{is_true}
use traffic_service.Api.Routes.{RouteAvailability, RouteResult}
use traffic_service.Base.{
  leb, Bool-cases, Option-cases, length, get_elem?, take, drop, filter, find_index, All, Text,
  ===_iff, ◌===◌, ℕ, zero, suc, ◌+◌, ◌≤◌, ◌<◌, ◌≡◌, refl, ap, ◌∙◌, ◌≢◌, ◌⊎◌, inl, inr, Bool, true,
  false, Option, none, some, List, [], ◌∷◌, ◌++◌, map, arith,
}

-- What the last entry of an id in the answer says, or that it has no entry.
abbrev pub LastEntry : List RouteAvailability → Text → Option Bool → Type 0
LastEntry answer id none = All (λ (b : RouteAvailability). b.route_id ≢ id) answer
LastEntry answer id (some free) =
    (before : List RouteAvailability) × (a : RouteAvailability) × (later : List RouteAvailability)
    × (answer ≡ before ++ (a ∷ later))
    × (a.route_id ≡ id)
    × (a.available ≡ free)
    × All (λ (b : RouteAvailability). b.route_id ≢ id) later

availability_of-LastEntry :
    (answer : List RouteAvailability) (id : Text) → LastEntry answer id (availability_of answer id)
unfolding availability_of
availability_of-LastEntry [] id = tt
availability_of-LastEntry (a ∷ rest) id = elim (Option-cases (availability_of rest id)) [
  | inr (free, e) ↦
      let (before, b, later, same, its, says, last) = rw e at (availability_of-LastEntry rest id) in
      rw e (a ∷ before, b, later, ap (λ r. a ∷ r) same, its, says, last)
  | inl e ↦
      let off = rw e at (availability_of-LastEntry rest id) in
      elim (Bool-cases (a.route_id === id)) [
        | inl own ↦ rw e (rw own ([], a, rest, refl, (===_iff a.route_id id).0 own, refl, off))
        | inr foreign ↦
            rw e
              (rw foreign ((λ same. ground (arith, foreign, (===_iff a.route_id id).1 same)), off))
      ]
]

availability_of-off :
    (answer : List RouteAvailability) (id : Text)
    → All (λ (b : RouteAvailability). b.route_id ≢ id) answer
    → availability_of answer id ≡ none
unfolding availability_of
availability_of-off [] id off = refl
availability_of-off (a ∷ rest) id off = elim (Bool-cases (a.route_id === id)) [
  | inl own ↦ absurd (off.0 ((===_iff a.route_id id).0 own))
  | inr foreign ↦ rw (availability_of-off rest id off.1) (rw foreign refl)
]

availability_of-last :
    (before : List RouteAvailability) (a : RouteAvailability) (later : List RouteAvailability)
    (id : Text)
    → a.route_id ≡ id
    → All (λ (b : RouteAvailability). b.route_id ≢ id) later
    → availability_of (before ++ (a ∷ later)) id ≡ some a.available
unfolding availability_of
availability_of-last [] a later id own off =
    rw (availability_of-off later id off) (rw ((===_iff a.route_id id).1 own) refl)
availability_of-last (b ∷ before) a later id own off =
    rw (availability_of-last before a later id own off) refl

-- The answer says last of this route that it is available.
abbrev pub SaidFree : List RouteAvailability → RouteResult → Type 0
SaidFree answer r = LastEntry answer r.route_id (some true)

available_route-SaidFree :
    (answer : List RouteAvailability) (r : RouteResult)
    → (available_route answer r ≡ true → SaidFree answer r)
      × (available_route answer r ≡ false → ¬ SaidFree answer r)
available_route-SaidFree answer r = (
  (λ free. elim (Option-cases (availability_of answer r.route_id)) [
    | inl e ↦ absurd (ground (arith, rw e at free))
    | inr (true, e) ↦ rw e at (availability_of-LastEntry answer r.route_id)
    | inr (false, e) ↦ absurd (ground (arith, rw e at free))
  ]),
  (λ full (before, a, later, same, its, says, last).
      let e : availability_of answer r.route_id ≡ some true =
        ap (λ entries. availability_of entries r.route_id) same
        ∙ availability_of-last before a later r.route_id its last
        ∙ ap some says in
      ground (arith, rw e at full)),
)

-- The index of the first route that is said to be available, where all before it are not.
find_index-SaidFree :
    (answer : List RouteAvailability) (routes : List RouteResult)
    → ((i : ℕ) × (r : RouteResult) × (find_index (available_route answer) routes ≡ some i)
        × (get_elem? routes i ≡ some r)
        × SaidFree answer r
        × All (λ q. ¬ SaidFree answer q) (take i routes))
      ⊎ ((find_index (available_route answer) routes ≡ none)
          × All (λ q. ¬ SaidFree answer q) routes)
find_index-SaidFree answer [] = inr (refl, tt)
find_index-SaidFree answer (x ∷ xs) = elim (Bool-cases (available_route answer x)) [
  | inl yes_here ↦ inl (0, x, rw yes_here, refl, (available_route-SaidFree answer x).0 yes_here, tt)
  | inr not_here ↦ elim (find_index-SaidFree answer xs) [
    | inl (i, r, found, there, free, first) ↦ inl (
      suc i,
      r,
      rw not_here (rw found refl),
      there,
      free,
      ((available_route-SaidFree answer x).1 not_here, first),
    )
    | inr lacking ↦ inr (
      rw not_here (rw lacking.0 refl),
      ((available_route-SaidFree answer x).1 not_here, lacking.1),
    )
  ]
]

-- What the driver clicked is shown; otherwise, once the availability is known, the first route of
-- which the last entry of the answer says that it is available, or the first of all if there is
-- none, so that a route without an entry does not count as available.
pub selected_route_index_lem :
    (user : Option ℕ) (routes : List RouteResult) (answer : List RouteAvailability)
    → let i = selected_route_index user (some routes) (some answer) in
      ((u : ℕ) × (user ≡ some u) × (i ≡ u))
      ⊎ ((user ≡ none)
          × (((r : RouteResult) × (get_elem? routes i ≡ some r)
                × SaidFree answer r
                × All (λ q. ¬ SaidFree answer q) (take i routes))
              ⊎ ((i ≡ 0) × All (λ q. ¬ SaidFree answer q) routes)))
unfolding selected_route_index
selected_route_index_lem (some u) routes answer = inl (u, refl, refl)
selected_route_index_lem none routes answer = elim (find_index-SaidFree answer routes) [
  | inl (i, r, found, there, free, first) ↦
      inr (refl, inl (r, rw found there, free, rw found first))
  | inr lacking ↦ inr (refl, inr (rw lacking.0 (refl, lacking.1)))
]

without-drop :
    (selected i : ℕ) (routes : List RouteResult) → selected < i → without selected i routes ≡ routes
without-drop selected i [] h = refl
without-drop selected i (r ∷ rs) h = ground (arith, without-drop selected (i + 1) rs)

without-eq :
    (selected k i : ℕ) (routes : List RouteResult)
    → selected ≡ i + k
    → without selected i routes ≡ take k routes ++ drop (suc k) routes
without-eq selected zero i [] h = refl
without-eq selected (suc k) i [] h = refl
without-eq selected zero i (r ∷ rs) h = ground (arith, without-drop selected (i + 1) rs)
without-eq selected (suc k) i (r ∷ rs) h =
    ground (arith, without-eq selected k (i + 1) rs (omega arith))

-- With more than one route the other ones are drawn in their order: all of those before and after
-- the selected one whose geometry is there; with fewer none is drawn.
pub alternative_geometries_lem :
    (routes : List RouteResult) (selected : ℕ)
    → (2 ≤ length routes
        → alternative_geometries (some routes) selected
          ≡ some (
              filter
                (λ (g : Json Double). is_true (some g))
                (map
                  (λ (r : RouteResult). r.geometry)
                  (take selected routes ++ drop (suc selected) routes))))
      × (length routes < 2 → alternative_geometries (some routes) selected ≡ none)
unfolding alternative_geometries
alternative_geometries_lem routes selected = (
  (λ h.
      let e : leb (length routes) 1 ≡ false = ground arith in
      rw e (rw (without-eq selected selected 0 routes (omega arith)))),
  (λ h. let e : leb (length routes) 1 ≡ true = ground arith in rw e),
)

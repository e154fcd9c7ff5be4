-- ===== src/ConflictDetection/Capacities.antt =====
-- conflict-detection-service: what the dictionary of capacities holds, and when it is complete.
use traffic_service.BookRoute.Places.{other}
use traffic_service.ConflictDetection.Tables.{RoadSegment, or_number, capacities_of, get_capacities}
use traffic_service.Base.Sets.{
  contains, distinct, set_of, Subset, get_item, keys, distinct-Subset, contains-set_of,
  Subset-set_of, Subset-contains, Subset-intro, length-keys, get_item-set_item,
  distinct-keys-set_item, is_some-get_item, set_item, length-Subset-le, distinct-set_of,
}
use traffic_service.Base.{
  if◌then◌else◌, Bool-cases, length, Text, ===_iff, ◌===◌, ℕ, ◌≡◌, refl, inl, inr, true, Option,
  none, some, List, [], ◌∷◌, arith,
}

-- The capacity of a segment in the table: of the rows with its id the last decides, and no
-- capacity counts as 0.
abbrev pub capacity_of : List RoadSegment → Text → Option ℕ
capacity_of [] id = none
capacity_of (s ∷ ss) id = elim (capacity_of ss id) [
  | some n ↦ some n
  | none ↦ if s.segment_id === id then some (or_number s.capacity 0) else none
]

abbrev only_in : List Text → Text → Option ℕ → Option ℕ → Option ℕ
only_in ids id none other = other
only_in ids id (some n) other = if contains id ids then some n else other

capacities_of-get_item :
    (segments : List RoadSegment) (ids : List Text) (found : List (Text × ℕ)) (id : Text)
    → get_item (capacities_of segments ids found) id
      ≡ only_in ids id (capacity_of segments id) (get_item found id)
unfolding capacities_of
capacities_of-get_item [] ids found id = refl
capacities_of-get_item (s ∷ ss) ids found id =
    let n : ℕ = or_number s.capacity 0 in
    elim (Bool-cases (contains s.segment_id ids)) [
      | inl asked ↦ rw asked (
          ground (
            arith,
            capacities_of-get_item ss ids (set_item s.segment_id n found) id,
            get_item-set_item id s.segment_id n found,
            ===_iff s.segment_id id,
            asked,
          ))
      | inr unasked ↦
          rw unasked (
            ground
              (arith, capacities_of-get_item ss ids found id, ===_iff s.segment_id id, unasked))
    ]

-- The dictionary has the capacities of the ids that are asked for and are in the table.
pub get_capacities-get_item :
    (segments : List RoadSegment) (ids : List Text) (id : Text)
    → get_item (get_capacities segments ids) id
      ≡ (if contains id ids then capacity_of segments id else none)
unfolding get_capacities get_item
get_capacities-get_item segments ids id = ground (arith, capacities_of-get_item segments ids [] id)

capacities_of-distinct :
    (segments : List RoadSegment) (ids : List Text) (found : List (Text × ℕ))
    → distinct (keys found) ≡ true
    → distinct (keys (capacities_of segments ids found)) ≡ true
unfolding capacities_of
capacities_of-distinct [] ids found d = d
capacities_of-distinct (s ∷ ss) ids found d = elim (Bool-cases (contains s.segment_id ids)) [
  | inl asked ↦ rw asked (
      capacities_of-distinct ss ids _
        (distinct-keys-set_item s.segment_id (or_number s.capacity 0) found d))
  | inr unasked ↦ rw unasked (capacities_of-distinct ss ids found d)
]

Subset-get_capacities :
    (segments : List RoadSegment) (ids : List Text)
    → Subset (keys (get_capacities segments ids)) ids
Subset-get_capacities segments ids = Subset-intro _ ids (λ k m. ground (
  arith,
  m,
  is_some-get_item k (get_capacities segments ids),
  get_capacities-get_item segments ids k,
))

-- Every id of the list has a capacity.
abbrev pub AllKnown : List (Text × ℕ) → List Text → Type 0
AllKnown capacities ids = Subset ids (keys capacities)

-- As many capacities as ids: then no id is repeated and each has a capacity.
pub get_capacities_complete :
    (segments : List RoadSegment) (ids : List Text)
    → length (get_capacities segments ids) ≡ length ids
    → (distinct ids ≡ true) × AllKnown (get_capacities segments ids) ids
unfolding get_capacities
get_capacities_complete segments ids e =
    distinct-Subset (keys (get_capacities segments ids)) ids
      (capacities_of-distinct segments ids [] refl) (Subset-get_capacities segments ids)
      (omega (arith, e, length-keys (get_capacities segments ids)))

pub get_capacities-AllKnown :
    (segments : List RoadSegment) (ids : List Text)
    → length (get_capacities segments ids) ≡ length (set_of ids)
    → AllKnown (get_capacities segments ids) ids
unfolding get_capacities
get_capacities-AllKnown segments ids e =
    let h =
      distinct-Subset (keys (get_capacities segments ids)) (set_of ids)
        (capacities_of-distinct segments ids [] refl)
        (Subset-set_of _ ids (Subset-get_capacities segments ids))
        (omega (arith, e, length-keys (get_capacities segments ids))) in
    Subset-intro ids _
      (λ k m. Subset-contains k (set_of ids) _ h.1 (ground (arith, contains-set_of k ids)))

-- Where no id is repeated and each has a capacity, there are as many capacities as ids.
pub length-get_capacities :
    (segments : List RoadSegment) (ids : List Text)
    → distinct ids ≡ true
    → AllKnown (get_capacities segments ids) ids
    → length (get_capacities segments ids) ≡ length ids
unfolding get_capacities
length-get_capacities segments ids d known =
    let ks = keys (get_capacities segments ids) in
    omega (
      arith,
      length-keys (get_capacities segments ids),
      length-Subset-le ids ks d known,
      length-Subset-le ks ids (capacities_of-distinct segments ids [] refl)
          (Subset-get_capacities segments ids),
    )

pub length-get_capacities-set_of :
    (segments : List RoadSegment) (ids : List Text)
    → AllKnown (get_capacities segments ids) ids
    → length (get_capacities segments ids) ≡ length (set_of ids)
unfolding get_capacities
length-get_capacities-set_of segments ids known =
    let ks = keys (get_capacities segments ids) in
    omega (
      arith,
      length-keys (get_capacities segments ids),
      length-Subset-le (set_of ids) ks (distinct-set_of ids) (
          Subset-intro (set_of ids) ks
            (λ k m. Subset-contains k ids ks known (ground (arith, m, contains-set_of k ids)))),
      length-Subset-le ks (set_of ids) (capacities_of-distinct segments ids [] refl)
          (Subset-set_of ks ids (Subset-get_capacities segments ids)),
    )

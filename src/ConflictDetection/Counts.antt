-- ===== src/ConflictDetection/Counts.antt =====
-- The numbers of reservations that the conflict detection service answers for the windows that the
-- page sends for the segments of a route.
use traffic_service.BookRoute.Windows.{segment_offset_ms, windows_from, reservations_of}
use traffic_service.ConflictDetection.Tables.{Reservation, count_overlapping}
use traffic_service.ConflictDetection.Endpoints.{read_windows, utilization_items}
use traffic_service.ConflictDetection.Service.{
  start_at, end_at, UtilizationWindow, utilization_from,
}
use traffic_service.Base.Sets.{contains, distinct, get_item, get_item-set_item}
use traffic_service.Api.Routes.{Segment, SegmentUtilization}
use traffic_service.Base.{
  if◌then◌else◌, ◌or_else◌, Text, ===_iff, ===_refl, ℕ, ◌+◌, ◌*◌, ◌≡◌, refl, ◌∙◌, true, false,
  Option, none, some, List, [], ◌∷◌, arith,
}

-- The windows that the service reads for the segments from an index on.
abbrev pub windows_at : ℕ → ℕ → ℕ → List Segment → List UtilizationWindow
windows_at departure duration index [] = []
windows_at departure duration index (s ∷ ss) =
    record {
      segment_id = s.segment_id;
      window_start = start_at departure index;
      window_end = end_at departure duration index;
    }
    ∷ windows_at departure duration (index + 1) ss

abbrev pub ids_of : List Segment → List Text
ids_of [] = []
ids_of (s ∷ ss) = s.segment_id ∷ ids_of ss

module _ (to_iso : ℕ → Text) (read_time : Text → Option ℕ)
    (reads : (n : ℕ) → read_time (to_iso n) ≡ some n) where
  pub read_windows-windows_from :
      (departure duration index : ℕ) (ss : List Segment)
      → read_windows read_time (windows_from to_iso departure (duration * 1000) index ss)
        ≡ some (windows_at departure duration index ss)
  unfolding read_windows windows_from
  read_windows-windows_from departure duration index [] = refl
  read_windows-windows_from departure duration index (s ∷ ss) =
      let e : departure + index * segment_offset_ms ≡ start_at departure index = omega arith in
      rw e (
        rw (reads (start_at departure index)) (
          rw (reads (end_at departure duration index))
            (rw (read_windows-windows_from departure duration (index + 1) ss) refl)))

-- At its index each segment has the number of reservations that its window overlaps.
abbrev pub Counted : List Reservation → ℕ → ℕ → (Text → Option ℕ) → ℕ → List Segment → Type 0
Counted reservations departure duration count index [] = Unit
Counted reservations departure duration count index (s ∷ ss) =
    (count s.segment_id
      ≡ some (
          count_overlapping reservations s.segment_id (start_at departure index)
            (end_at departure duration index)))
    × Counted reservations departure duration count (index + 1) ss

module _ (reservations : List Reservation) (departure duration : ℕ) where
  utilization_from-off :
      (index : ℕ) (ss : List Segment) (found : List (Text × ℕ)) (id : Text)
      → contains id (ids_of ss) ≡ false
      → get_item (utilization_from reservations (windows_at departure duration index ss) found) id
        ≡ get_item found id
  unfolding utilization_from
  utilization_from-off index [] found id off = refl
  utilization_from-off index (s ∷ ss) found id off =
      utilization_from-off (index + 1) ss _ id (ground arith)
      ∙ ground (
        arith,
        get_item-set_item id s.segment_id
            (count_overlapping reservations s.segment_id (start_at departure index)
              (end_at departure duration index))
            found,
        off,
      )

  pub utilization_from-Counted :
      (index : ℕ) (ss : List Segment) (found : List (Text × ℕ))
      → distinct (ids_of ss) ≡ true
      → Counted reservations departure duration
          (get_item (utilization_from reservations (windows_at departure duration index ss) found))
          index
          ss
  unfolding utilization_from
  utilization_from-Counted index [] found d = tt
  utilization_from-Counted index (s ∷ ss) found d =
      let n =
        count_overlapping reservations s.segment_id (start_at departure index)
          (end_at departure duration index) in
      (
        utilization_from-off (index + 1) ss _ s.segment_id (ground arith)
            ∙ ground
                (arith, get_item-set_item s.segment_id s.segment_id n found, ===_refl s.segment_id),
        utilization_from-Counted (index + 1) ss _ (ground arith),
      )

pub utilization_items-reservations_of :
    (counts : List (Text × ℕ)) (departure duration index : ℕ) (ss : List Segment) (id : Text)
    → reservations_of (utilization_items counts (windows_at departure duration index ss)) id
      ≡ (if contains id (ids_of ss) then some (get_item counts id or_else 0) else none)
unfolding reservations_of
utilization_items-reservations_of counts departure duration index [] id = refl
utilization_items-reservations_of counts departure duration index (s ∷ ss) id = ground (
  arith,
  utilization_items-reservations_of counts departure duration (index + 1) ss id,
  ===_iff s.segment_id id,
)

-- What holds of the counts holds of the answer that is made of them.
pub Counted-answer :
    (reservations : List Reservation) (departure duration index : ℕ) (counts : List (Text × ℕ))
    (answer : List SegmentUtilization) (ss : List Segment)
    → ((id : Text)
        → contains id (ids_of ss) ≡ true
        → reservations_of answer id ≡ some (get_item counts id or_else 0))
    → Counted reservations departure duration (get_item counts) index ss
    → Counted reservations departure duration (reservations_of answer) index ss
Counted-answer reservations departure duration index counts answer [] same h = tt
Counted-answer reservations departure duration index counts answer (s ∷ ss) same h = (
  same s.segment_id (ground (arith, ===_refl s.segment_id)) ∙ rw h.0,
  Counted-answer reservations departure duration (index + 1) counts answer ss
      (λ id m. same id (ground arith)) h.1,
)

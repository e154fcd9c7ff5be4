-- ===== src/ConflictDetection/Fits.antt =====
-- conflict-detection-service: what the loop over the segments of a route decides.
use traffic_service.ConflictDetection.Tables.{Reservation, count_overlapping, create}
use traffic_service.ConflictDetection.Capacities.{AllKnown}
use traffic_service.ConflictDetection.Service.{start_at, end_at, fits_from}
use traffic_service.Base.Sets.{contains, get_item, is_some-get_item}
use traffic_service.Base.{
  ◌or_else◌, is_some, Text, ===_iff, ℕ, ◌+◌, ◌<◌, ◌≡◌, refl, true, false, some, List, [], ◌∷◌,
  arith,
}

-- At its index each segment has fewer reservations in its window than its capacity.
abbrev pub HasRoom : List Reservation → List (Text × ℕ) → ℕ → ℕ → ℕ → List Text → Type 0
HasRoom reservations capacities departure duration index [] = Unit
HasRoom reservations capacities departure duration index (id ∷ ids) =
    (count_overlapping reservations id (start_at departure index) (end_at departure duration index)
      < (get_item capacities id or_else 0))
    × HasRoom reservations capacities departure duration (index + 1) ids

module _ (reservations : List Reservation) (capacities : List (Text × ℕ))
    (departure duration : ℕ) where
  -- With a capacity for every segment the loop looks up no missing key.
  pub fits_from-total :
      (index : ℕ) (ids : List Text)
      → AllKnown capacities ids
      → is_some (fits_from reservations capacities departure duration index ids) ≡ true
  unfolding fits_from
  fits_from-total index [] known = refl
  fits_from-total index (id ∷ ids) known =
      ground
        (arith, fits_from-total (index + 1) ids known.1, is_some-get_item id capacities, known.0)

  pub fits_from-HasRoom :
      (index : ℕ) (ids : List Text)
      → fits_from reservations capacities departure duration index ids ≡ some true
      → HasRoom reservations capacities departure duration index ids
  unfolding fits_from
  fits_from-HasRoom index [] h = tt
  fits_from-HasRoom index (id ∷ ids) h =
      (ground arith, fits_from-HasRoom (index + 1) ids (ground arith))

  pub HasRoom-fits_from :
      (index : ℕ) (ids : List Text)
      → HasRoom reservations capacities departure duration index ids
      → fits_from reservations capacities departure duration index ids ≡ some true
  unfolding fits_from
  HasRoom-fits_from index [] h = refl
  HasRoom-fits_from index (id ∷ ids) h = ground (arith, HasRoom-fits_from (index + 1) ids h.1, h.0)

  -- A reservation of another segment takes no room.
  pub HasRoom-create :
      (index : ℕ) (ids : List Text) (booking id : Text) (from until : ℕ)
      → contains id ids ≡ false
      → HasRoom reservations capacities departure duration index ids
      → HasRoom (create booking id from until reservations) capacities departure duration index ids
  unfolding create count_overlapping
  HasRoom-create index [] booking id from until off h = tt
  HasRoom-create index (j ∷ ids) booking id from until off h = (
    ground (arith, h.0, ===_iff id j, ===_iff j id),
    HasRoom-create (index + 1) ids booking id from until (ground arith) h.1,
  )

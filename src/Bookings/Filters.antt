-- ===== src/Bookings/Filters.antt =====
-- BookingsPage.tsx: the filter in the address.
use traffic_service.Base.SearchParams.{
  SearchParams, get_param, get_param-set_param, get_param-remove_param,
}
use traffic_service.Bookings.{status_key, toggle_filter, is_active}
use traffic_service.Base.{
  if◌then◌else◌, Text, ===_iff, ===_refl, ◌===◌, ◌≡◌, ◌≢◌, ◌⊎◌, true, Option, none, some, arith,
}

toggled :
    (v : Text) (ps : SearchParams) (active : Option Text) (k : Text)
    → get_param k (toggle_filter (some v) active ps)
      ≡ (if status_key === k then (if is_active active v then none else some v) else get_param k ps)
unfolding toggle_filter
toggled v ps none k = get_param-set_param status_key k v ps
toggled v ps (some a) k = ground (
  arith,
  ===_iff v a,
  ===_iff a v,
  get_param-set_param status_key k v ps,
  get_param-remove_param status_key k ps,
)

taken_away :
    (ps : SearchParams) (active : Option Text) (k : Text)
    → get_param k (toggle_filter none active ps)
      ≡ (if status_key === k then none else get_param k ps)
unfolding toggle_filter
taken_away ps active k = get_param-remove_param status_key k ps

-- Clicking a filter makes it the one in the address, or takes it away if it is there already;
-- "Total" takes any away. The other parameters stay, and a second click on a filter undoes the
-- first where no other one was there.
pub toggle_filter_lem :
    (v : Text) (ps : SearchParams) (k : Text)
    → let active = get_param status_key ps in
      let once = toggle_filter (some v) active ps in
      (get_param status_key once ≡ (if is_active active v then none else some v))
      × (get_param status_key (toggle_filter none active ps) ≡ none)
      × (k ≢ status_key
          → (get_param k once ≡ get_param k ps)
            × (get_param k (toggle_filter none active ps) ≡ get_param k ps))
      × ((active ≡ none) ⊎ (active ≡ some v)
          → get_param status_key (toggle_filter (some v) (get_param status_key once) once) ≡ active)
toggle_filter_lem v ps k =
    let active = get_param status_key ps in
    let once = toggle_filter (some v) active ps in
    let same : (status_key === status_key) ≡ true = ===_refl status_key in
    (
      ground (arith, toggled v ps active status_key, same),
      ground (arith, taken_away ps active status_key, same),
      λ n. (
        ground (arith, toggled v ps active k, ===_iff status_key k),
        ground (arith, taken_away ps active k, ===_iff status_key k),
      ),
      λ h. ground (
        arith,
        toggled v ps active status_key,
        toggled v once (get_param status_key once) status_key,
        same,
        ===_refl v,
      ),
    )

-- ===== src/BookRoute/Times.antt =====
-- BookRoutePage.tsx: rounding the time of departure, and its way through the address.
use traffic_service.Datetime.Suffix.{ensure_utc_suffix_lem}
use traffic_service.BookRoute.Departure.{
  Dates, five_minutes_ms, round_to_5, departure_key, departure_date, departure_change,
}
use traffic_service.BookRoute.Places.{start_side, end_side, SamePlace}
use traffic_service.Base.SearchParams.{SearchParams, get_param, get_param-set_param}
use traffic_service.Datetime.{has_zone, ensure_utc_suffix}
use traffic_service.Base.{
  Text, is_truthy, ◌===◌, ℕ, ◌+◌, ◌%◌, ◌≤◌, ◌<◌, ◌≡◌, refl, ◌∙◌, true, some, [], ◌∷◌, arith,
}

-- Rounding moves a time by at most two and a half minutes, to a multiple of five minutes, and
-- rounding again changes nothing.
pub round_to_5_lem :
    (t : ℕ)
    → (round_to_5 t % five_minutes_ms ≡ 0)
      × (round_to_5 t ≤ t + 150000)
      × (t < round_to_5 t + 150000)
      × (round_to_5 (round_to_5 t) ≡ round_to_5 t)
unfolding round_to_5
round_to_5_lem t = omega arith

truthy_zone : (s : Text) → has_zone s ≡ true → is_truthy (some s) ≡ true
truthy_zone [] h = cc
truthy_zone (c ∷ r) h = refl

ensure-iso : (dates : Dates) (t : ℕ) → ensure_utc_suffix (dates.to_iso t) ≡ dates.to_iso t
ensure-iso dates t = (ensure_utc_suffix_lem (dates.to_iso t)).2.0 (dates.iso_has_zone t)

departure_date-iso :
    (dates : Dates) (t default : ℕ)
    → departure_date dates (some (dates.to_iso t)) default ≡ round_to_5 t
unfolding departure_date
departure_date-iso dates t default =
    rw (truthy_zone (dates.to_iso t) (dates.iso_has_zone t))
      (rw (dates.iso_has_zone t) (rw (ensure-iso dates t) (rw (dates.parse-iso t))))

-- A time that was chosen is read back from the address as the nearest multiple of five minutes, at
-- most two and a half minutes away from it, whatever the default; the parameters of the places stay
-- as they are.
pub departure_date-departure_change :
    (dates : Dates) (t default : ℕ) (ps : SearchParams)
    → let qs = departure_change dates t ps in
      let shown = departure_date dates (get_param departure_key qs) default in
      (shown % 300000 ≡ 0)
      × (shown ≤ t + 150000)
      × (t < shown + 150000)
      × SamePlace start_side qs ps
      × SamePlace end_side qs ps
unfolding departure_change ◌===◌
departure_date-departure_change dates t default ps =
    let nearest = round_to_5_lem t in
    let e : departure_date dates (get_param departure_key (departure_change dates t ps)) default
        ≡ round_to_5 t =
      simp get_param-set_param (departure_date-iso dates (round_to_5 t) default ∙ nearest.3) in
    (
      rw e nearest.0,
      rw e nearest.1,
      rw e nearest.2,
      (simp get_param-set_param, simp get_param-set_param, simp get_param-set_param),
      (simp get_param-set_param, simp get_param-set_param, simp get_param-set_param),
    )

-- ===== src/BookRoute/Places.antt =====
-- BookRoutePage.tsx: choosing, clearing and clicking places keeps the address as intended.
use mathlib.Core.Bool.{false≢true}
use traffic_service.BookRoute.Departure.{departure_key}
use traffic_service.BookRoute.Params.{
  Place, origin, destination, clear_place, is_valid, select_place, coord_of, place_name, Coord,
  coord_label, map_click,
}
use traffic_service.Base.Double.{Double, is_nan, FloatText}
use traffic_service.Base.SearchParams.{
  SearchParams, get_param, get_param-remove_param, get_param-set_param,
}
use traffic_service.Base.{
  Text, is_truthy, ◌===◌, ◌≡◌, refl, sym, ap, ◌∙◌, true, false, none, some, [], ◌∷◌, arith,
}

pub data Side : Type 0 where
  start_side end_side : Side

abbrev pub place_of : Side → Place
place_of start_side = origin
place_of end_side = destination

abbrev pub other : Side → Side
other start_side = end_side
other end_side = start_side

-- The three parameters of a place, and the ones that a handler must leave alone.
abbrev pub SameAt : Text → SearchParams → SearchParams → Type 0
SameAt k ps qs = get_param k ps ≡ get_param k qs

abbrev pub SamePlace : Side → SearchParams → SearchParams → Type 0
SamePlace side ps qs =
    let p = place_of side in
    SameAt p.lat_key ps qs × SameAt p.lng_key ps qs × SameAt p.name_key ps qs

-- Clearing a place leaves no coordinate and no name, so no route can be searched; the other place
-- and the time of departure stay.
pub clear_place_lem :
    (ft : FloatText) (side : Side) (ps : SearchParams)
    → let qs = clear_place (place_of side) ps in
      (coord_of ft (place_of side) qs ≡ none)
      × (place_name ft (place_of side) qs ≡ [])
      × (is_valid qs ≡ false)
      × SamePlace (other side) qs ps
      × SameAt departure_key qs ps
unfolding clear_place coord_of place_name is_valid ◌===◌
clear_place_lem ft start_side ps = (
  simp (get_param-remove_param, ft.empty_is_nan),
  simp get_param-remove_param,
  simp get_param-remove_param,
  (simp get_param-remove_param, simp get_param-remove_param, simp get_param-remove_param),
  simp get_param-remove_param,
)
clear_place_lem ft end_side ps = (
  simp (get_param-remove_param, ft.empty_is_nan),
  simp get_param-remove_param,
  simp get_param-remove_param (ground arith),
  (simp get_param-remove_param, simp get_param-remove_param, simp get_param-remove_param),
  simp get_param-remove_param,
)

-- Choosing a place at two numbers gives its name and the coordinate that the two texts of six
-- digits stand for; the other place and the time of departure stay.
pub select_place_lem :
    (ft : FloatText) (side : Side) (name : Text) (lng lat : Double) (ps : SearchParams)
    → is_nan lng ≡ false
    → is_nan lat ≡ false
    → let p = place_of side in
      let qs = select_place ft p name lng lat ps in
      (coord_of ft p qs
        ≡ some (record {
          lng = ft.parse_float (ft.to_fixed 6 lng);
          lat = ft.parse_float (ft.to_fixed 6 lat);
        }))
      × (place_name ft p qs ≡ name)
      × SamePlace (other side) qs ps
      × SameAt departure_key qs ps
unfolding select_place coord_of place_name ◌===◌
select_place_lem ft start_side name lng lat ps hx hy = (
  simp (get_param-set_param, ft.fixed_is_number 6 lng hx, ft.fixed_is_number 6 lat hy),
  simp get_param-set_param,
  (simp get_param-set_param, simp get_param-set_param, simp get_param-set_param),
  simp get_param-set_param,
)
select_place_lem ft end_side name lng lat ps hx hy = (
  simp (get_param-set_param, ft.fixed_is_number 6 lng hx, ft.fixed_is_number 6 lat hy),
  simp get_param-set_param,
  (simp get_param-set_param, simp get_param-set_param, simp get_param-set_param),
  simp get_param-set_param,
)

fixed-truthy :
    (ft : FloatText) (x : Double) → is_nan x ≡ false → is_truthy (some (ft.to_fixed 6 x)) ≡ true
fixed-truthy ft x h = go (ft.to_fixed 6 x) refl
  where
    go : (t : Text) → ft.to_fixed 6 x ≡ t → is_truthy (some t) ≡ true
    go [] e = absurd (
        false≢true (
          sym (ft.fixed_is_number 6 x h)
          ∙ ap (λ t. is_nan (ft.parse_float t)) e
          ∙ (unfold ◌===◌ in ap is_nan ft.empty_is_nan)))
    go (c ∷ t) e = refl

-- The coordinate of a place in the address: the numbers of the two texts with six digits.
abbrev pub written : FloatText → Coord → Coord
written ft c = record {
  lng = ft.parse_float (ft.to_fixed 6 c.lng);
  lat = ft.parse_float (ft.to_fixed 6 c.lat);
}

-- From any address, choosing an origin and then a destination, or clicking the map twice from a
-- count of 0, makes the search available, with the coordinates of the two places to six digits:
-- the first is the origin's, the second the destination's. Two clicks bring the count back to 0.
pub two_places :
    (ft : FloatText) (a b : Coord) (name name' : Text) (ps : SearchParams)
    → is_nan a.lng ≡ false
    → is_nan a.lat ≡ false
    → is_nan b.lng ≡ false
    → is_nan b.lat ≡ false
    → let chosen =
        select_place ft destination name' b.lng b.lat
          (select_place ft origin name a.lng a.lat ps) in
      let clicked = map_click ft b (map_click ft a (record { params = ps; click_count = 0 })) in
      (is_valid chosen ≡ true)
      × (is_valid clicked.params ≡ true)
      × (clicked.click_count ≡ 0)
      × (coord_of ft origin chosen ≡ some (written ft a))
      × (coord_of ft destination chosen ≡ some (written ft b))
      × (coord_of ft origin clicked.params ≡ some (written ft a))
      × (coord_of ft destination clicked.params ≡ some (written ft b))
      × (place_name ft origin chosen ≡ name)
      × (place_name ft destination chosen ≡ name')
      × (place_name ft origin clicked.params ≡ coord_label ft a.lat a.lng)
      × (place_name ft destination clicked.params ≡ coord_label ft b.lat b.lng)
unfolding select_place map_click is_valid coord_of place_name ◌===◌
two_places ft a b name name' ps ax ay bx by =
    let fx = ft.fixed_is_number 6 a.lng ax in
    let fy = ft.fixed_is_number 6 a.lat ay in
    let gx = ft.fixed_is_number 6 b.lng bx in
    let gy = ft.fixed_is_number 6 b.lat by in
    let tx = fixed-truthy ft a.lng ax in
    let ty = fixed-truthy ft a.lat ay in
    let ux = fixed-truthy ft b.lng bx in
    let uy = fixed-truthy ft b.lat by in
    (
      simp (get_param-set_param, tx, ty, ux, uy),
      simp (get_param-set_param, tx, ty, ux, uy),
      refl,
      simp (get_param-set_param, fx, fy),
      simp (get_param-set_param, gx, gy),
      simp (get_param-set_param, fx, fy),
      simp (get_param-set_param, gx, gy),
      simp get_param-set_param,
      simp get_param-set_param,
      simp get_param-set_param,
      simp get_param-set_param,
    )

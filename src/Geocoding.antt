-- ===== src/Geocoding.antt =====
-- services/bff/traffic-frontend/src/api/geocoding.ts and components/LocationText.tsx. The
-- geocoding service is the argument `fetch`; class names and layout are left out.
pub mod Pattern
pub mod Named
use traffic_service.Base.Decimal.{is_digit}
use traffic_service.Base.Double.{Double, FloatText}
use traffic_service.Api.Http.{
  get, Request, Response, okay, failed, Outcome, resolved, raised, Fetch,
}
use traffic_service.Base.{
  leb, ◌==◌, if◌then◌else◌, ◌or_else◌, is_some, bind_some, get_elem?, any, Text, codes, ℕ, Bool,
  true, false, ◌&&◌, ◌||◌, not, Option, none, some, List, [], ◌∷◌, ◌++◌,
}

-- The characters of `\s`
abbrev pub is_space : ℕ → Bool
is_space c =
    (leb 9 c && leb c 13)
    || (leb 8192 c && leb c 8202)
    || any (λ d. c == d) (32 ∷ 160 ∷ 5760 ∷ 8232 ∷ 8233 ∷ 8239 ∷ 8287 ∷ 12288 ∷ 65279 ∷ [])

-- The longest prefix of the characters that a test accepts, and what follows it.
unfoldable pub span : (ℕ → Bool) → Text → Text × Text
span p [] = ([], [])
span p (c ∷ s) = let rest = span p s in if p c then (c ∷ rest.0, rest.1) else ([], c ∷ s)

-- `x?` for a character: what it matches, and what follows.
abbrev pub optional : ℕ → Text → Text × Text
optional x [] = ([], [])
optional x (c ∷ s) = if c == x then (x ∷ [], s) else ([], c ∷ s)

abbrev pub is_empty : Text → Bool
is_empty [] = true
is_empty (c ∷ s) = false

-- `(-?\d+\.?\d*)` at the start of a text. A shorter match is of no use: what follows it in the
-- pattern is neither a digit nor a dot.
unfoldable pub match_number : Text → Option (Text × Text)
unfolding span
match_number s =
    let minus = optional b'-' s in
    let whole = span is_digit minus.1 in
    let dot = optional b'.' whole.1 in
    let fraction = span is_digit dot.1 in
    if is_empty whole.0
    then none
    else some (minus.0 ++ (whole.0 ++ (dot.0 ++ fraction.0)), fraction.1)

abbrev after_comma : Text → Text → Option (Text × Text)
after_comma lat [] = none
after_comma lat (c ∷ s) =
    if c == b','
    then elim (match_number (span is_space s).1) [ some (lng, []) ↦ some (lat, lng) | _ ↦ none ]
    else none

-- The two groups of `value.match(/^(-?\d+\.?\d*)\s*,\s*(-?\d+\.?\d*)$/)`
unfoldable pub coords_match : Text → Option (Text × Text)
unfolding span match_number
coords_match value = bind_some (match_number value) (λ m. after_comma m.0 (span is_space m.1).1)

-- The names of the places of an answer; `none` where it has no list of them.
pub record GeocodingData : Type 0 where
  pub place_names : Option (List Text)

module _ (floats : FloatText) (access_token : Text) (fetch : Fetch GeocodingData) where
  unfoldable pub geocoding_request : Double → Double → Request
  geocoding_request lng lat = record {
    method = get;
    url =
        codes "https://api.mapbox.com/geocoding/v5/mapbox.places/"
        ++ (lng ++ (b',' ∷ (lat ++ codes ".json")));
    query =
        (codes "access_token", access_token)
        ∷ (codes "types", codes "place,locality,neighborhood,address")
        ∷ (codes "limit", codes "1")
        ∷ [];
    headers = [];
    body = none;
  }

  -- The first name of an answer that is there and is JSON; `none` is the end of the `try` block,
  -- or of the `catch`.
  abbrev pub first_name : Outcome (Response GeocodingData) → Option Text
  first_name (resolved (okay (some found))) = get_elem? (found.place_names or_else []) 0
  first_name (resolved (okay none)) = none
  first_name (resolved (failed body)) = none
  first_name (raised e) = none

  unfoldable pub reverse_geocode : Double → Double → Outcome Text
  unfolding geocoding_request
  reverse_geocode lng lat = resolved (
      first_name (fetch (geocoding_request lng lat))
      or_else (floats.to_fixed 4 lat ++ (codes ", " ++ floats.to_fixed 4 lng)))

  -- `queryFn`, which runs for the texts that the pattern matches.
  unfoldable pub location_query : Text → Outcome Text
  location_query value = elim (coords_match value) [
    | none ↦ resolved value
    | some (lat, lng) ↦ reverse_geocode (floats.parse_float lng) (floats.parse_float lat)
  ]

-- What stands in the place of a location: its text, "Resolving...", or a name with the text
-- for a title.
pub data LocationView : Type 0 where
  plain : Text → LocationView
  resolving : LocationView
  named : Text → Text → LocationView

unfoldable pub location_text : Text → Option Text → Bool → LocationView
location_text value name is_loading =
    if not (is_some (coords_match value))
    then plain value
    else if is_loading
    then resolving
    else named (name or_else value) value

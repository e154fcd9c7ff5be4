-- ===== src/Geocoding/Named.antt =====
-- LocationText.tsx and geocoding.ts: the name of a location.

use traffic_service.Geocoding.{
  is_space, GeocodingData, geocoding_request, first_name, reverse_geocode, location_query, named,
  location_text,
}
use traffic_service.Base.Double.{FloatText}
use traffic_service.Api.Http.{
  get, Request, Response, Outcome, raised, okay, failed, resolved, Fetch, Request, Response,
  Outcome,
}
use traffic_service.Geocoding.Pattern.{Numeral, IsNumeral, print, coords_match-print}
use traffic_service.Base.{
  ◌or_else◌, get_elem?, All, Text, codes, ◌≡◌, refl, ◌⊎◌, inl, inr, true, false, Option, none, some,
  List, [], ◌∷◌, ◌++◌,
}

-- The answer is a list of places, and the first has this name.
abbrev pub BeginsWith : Outcome (Response GeocodingData) → Text → Type 0
BeginsWith answer name =
    (others : List Text) × (answer
      ≡ resolved (okay (some (record { place_names = some (name ∷ others) }))))

names-BeginsWith :
    (names : Option (List Text))
    → let answer : Outcome (Response GeocodingData) =
        resolved (okay (some (record { place_names = names }))) in
      ((name : Text) × BeginsWith answer name × (get_elem? (names or_else []) 0 ≡ some name))
      ⊎ (((name : Text) → ¬ BeginsWith answer name) × (get_elem? (names or_else []) 0 ≡ none))
names-BeginsWith (some (name ∷ others)) = inl (name, (others, refl), refl)
names-BeginsWith (some []) = inr ((λ name h. cc (h.1)), refl)
names-BeginsWith none = inr ((λ name h. cc (h.1)), refl)

first_name-BeginsWith :
    (floats : FloatText) (access_token : Text) (fetch : Fetch GeocodingData)
    (answer : Outcome (Response GeocodingData))
    → ((name : Text) × BeginsWith answer name
        × (first_name floats access_token fetch answer ≡ some name))
      ⊎ (((name : Text) → ¬ BeginsWith answer name)
          × (first_name floats access_token fetch answer ≡ none))
first_name-BeginsWith floats access_token fetch (resolved (okay (some found))) =
    names-BeginsWith found.place_names
first_name-BeginsWith floats access_token fetch (resolved (okay none)) =
    inr ((λ name h. cc (h.1)), refl)
first_name-BeginsWith floats access_token fetch (resolved (failed body)) =
    inr ((λ name h. cc (h.1)), refl)
first_name-BeginsWith floats access_token fetch (raised e) = inr ((λ name h. cc (h.1)), refl)

-- For a text of two coordinates, latitude first, the service is asked at the address with the
-- longitude first, and the query always has a result, which is then shown with the text for a
-- title: the first name of the answer where it begins with one, and otherwise the coordinates to
-- four places, latitude first.
pub location_query_lem :
    (floats : FloatText) (access_token : Text) (fetch : Fetch GeocodingData) (lat lng : Numeral)
    (before after : Text)
    → IsNumeral lat
    → IsNumeral lng
    → All (λ c. is_space c ≡ true) before
    → All (λ c. is_space c ≡ true) after
    → let value = print lat ++ (before ++ (b',' ∷ (after ++ print lng))) in
      let y = floats.parse_float (print lat) in
      let x = floats.parse_float (print lng) in
      (sent : Request) × (name : Text) × (sent.url
        ≡ codes "https://api.mapbox.com/geocoding/v5/mapbox.places/"
          ++ (x ++ (codes "," ++ (y ++ codes ".json"))))
      × (location_query floats access_token fetch value ≡ resolved name)
      × (location_text value (some name) false ≡ named name value)
      × (sent.method ≡ get)
      × (BeginsWith (fetch sent) name
          ⊎ (((first : Text) → ¬ BeginsWith (fetch sent) first)
              × (name ≡ floats.to_fixed 4 y ++ (codes ", " ++ floats.to_fixed 4 x))))
unfolding location_query location_text reverse_geocode geocoding_request
location_query_lem floats access_token fetch lat lng before after hlat hlng hbefore hafter =
    let y = floats.parse_float (print lat) in
    let x = floats.parse_float (print lng) in
    let found = coords_match-print lat lng before after hlat hlng hbefore hafter in
    let sent = geocoding_request floats access_token fetch x y in
    (
      sent,
      first_name floats access_token fetch (fetch sent)
          or_else (floats.to_fixed 4 y ++ (codes ", " ++ floats.to_fixed 4 x)),
      refl,
      rw (found, location_query) refl,
      rw (found, location_text) refl,
      refl,
      elim (first_name-BeginsWith floats access_token fetch (fetch sent)) [
        | inl (name, there, e) ↦ inl (rw e there)
        | inr (never, e) ↦ inr (never, rw e refl)
      ],
    )

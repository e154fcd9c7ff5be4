-- ===== src/LocationSearch.antt =====
-- services/bff/traffic-frontend/src/components/ui/LocationSearch.tsx, as BookRoutePage.tsx uses
-- it: there `onClear` empties the displayed name and `onSelect` sets it. The timers and requests
-- that are under way are part of the state, and what happens next is an event.
pub mod Debounce
pub mod Stale
use traffic_service.Base.Double.{Double}
use traffic_service.Base.{
  ltb, ◌==◌, if◌then◌else◌, ◌or_else◌, length, Text, ◌===◌, Bool, true, false, ◌&&◌, not, Option,
  none, some, List, [], ◌∷◌, ◌++◌,
}

pub record Suggestion : Type 0 where
  pub place_name : Text
  pub lng : Double
  pub lat : Double

pub record SearchBox : Type 0 where
  pub query : Text
  pub suggestions : List Suggestion
  pub is_open : Bool
  -- the property that the page passes
  pub display_value : Text
  -- the text for which `debounceRef` holds a timer that has not fired
  pub debounce : Option Text
  -- the texts whose answers are awaited
  pub in_flight : List Text

-- The page passes another name: the effect on `displayValue` runs if it has changed.
unfoldable pub displays : Text → SearchBox → SearchBox
displays name s =
    if name === s.display_value then s else record s { query = name; display_value = name }

-- `handleChange`; the effect of `onClear` comes after the handler, with the next rendering.
unfoldable pub handle_change : Text → SearchBox → SearchBox
unfolding displays
handle_change val s = displays [] (
    if ltb (length val) 2
    then record s { query = val; debounce = none; suggestions = []; is_open = false }
    else record s { query = val; debounce = some val })

-- The timer fires after 300 ms: the request goes out.
unfoldable pub timer_fires : SearchBox → SearchBox
timer_fires s = elim s.debounce [
  | none ↦ s
  | some val ↦ record s { debounce = none; in_flight = s.in_flight ++ val ∷ [] }
]

-- One awaited answer for a text arrives, `none` where the answer has no `features`.
abbrev drop_first : Text → List Text → List Text
drop_first val [] = []
drop_first val (v ∷ vs) = if v === val then vs else v ∷ drop_first val vs

unfoldable pub answer_arrives : Text → Option (List Suggestion) → SearchBox → SearchBox
answer_arrives val features s = record s {
  in_flight = drop_first val s.in_flight;
  suggestions = features or_else [];
  is_open = true;
}

unfoldable pub request_fails : Text → SearchBox → SearchBox
request_fails val s = record s { in_flight = drop_first val s.in_flight }

-- `handleSelect`
unfoldable pub handle_select : Suggestion → SearchBox → SearchBox
unfolding displays
handle_select chosen s =
    displays chosen.place_name
      (record s { query = chosen.place_name; suggestions = []; is_open = false })

-- The timer of `onBlur`, which nothing clears.
unfoldable pub blur_closes : SearchBox → SearchBox
blur_closes s = record s { is_open = false }

-- The list under the field.
unfoldable pub shown_list : SearchBox → List Suggestion
shown_list s = if s.is_open && not (length s.suggestions == 0) then s.suggestions else []

-- ===== src/Base/Json.antt =====
-- JSON values, over a type of numbers.
use mathlib.Core.Bool.{Bool}
use mathlib.Core.List.{List, [], ◌∷◌}
use mathlib.Core.Option.{Option, none, some}
use traffic_service.Base.Strings.{Text, ◌===◌}
use traffic_service.Base.Tests.{if◌then◌else◌}

mutual
  pub data Json (D : Type 0) : Type 0 where
    null : Json D
    bool : Bool → Json D
    num : D → Json D
    str : Text → Json D
    arr : Items D → Json D
    obj : Fields D → Json D

  pub data Items (D : Type 0) : Type 0 where
    nil : Items D
    cons : Json D → Items D → Items D

  pub data Fields (D : Type 0) : Type 0 where
    end : Fields D
    field : Text → Json D → Fields D → Fields D

module _ {D : Type 0} where
  -- An own property of an object literal that `JSON.parse` returned: the last of that name.
  unfoldable pub lookup_field : Text → Fields D → Option (Json D)
  lookup_field k end = none
  lookup_field k (field j v fs) = elim (lookup_field k fs) [
    | none ↦ if j === k then some v else none
    | some w ↦ some w
  ]

  abbrev pub elements : Items D → List (Json D)
  elements nil = []
  elements (cons v vs) = v ∷ elements vs

  abbrev pub items : List (Json D) → Items D
  items [] = nil
  items (v ∷ vs) = cons v (items vs)

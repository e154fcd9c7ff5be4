-- ===== src/Base/SearchParams.antt =====
-- The runtime's `URLSearchParams`: pairs in order, in which a name may stand more than once.

use mathlib.Core.Path.{◌≡◌, refl}
use mathlib.Core.List.{List, [], ◌∷◌}
use mathlib.Core.Option.{Option, none, some}
use native.Mathlib.Omega.{arith}
use traffic_service.Base.Strings.{Text, ◌===◌, ===_iff}
use traffic_service.Base.Tests.{if◌then◌else◌}

abbrev pub SearchParams : Type 0
SearchParams = List (Text × Text)

unfoldable pub get_param : Text → SearchParams → Option Text
get_param k [] = none
get_param k ((j, v) ∷ ps) = if j === k then some v else get_param k ps

unfoldable pub remove_param : Text → SearchParams → SearchParams
remove_param k [] = []
remove_param k ((j, v) ∷ ps) = if j === k then remove_param k ps else (j, v) ∷ remove_param k ps

-- The first pair of that name gets the value, others are removed; a new name goes to the end.
unfoldable pub set_param : Text → Text → SearchParams → SearchParams
set_param k v [] = (k, v) ∷ []
set_param k v ((j, w) ∷ ps) =
    if j === k then (k, v) ∷ remove_param k ps else (j, w) ∷ set_param k v ps

pub get_param-remove_param :
    (k j : Text) (ps : SearchParams)
    → get_param j (remove_param k ps) ≡ (if k === j then none else get_param j ps)
unfolding get_param remove_param
get_param-remove_param k j [] = ground arith
get_param-remove_param k j ((i, w) ∷ ps) =
    ground (arith, ===_iff k j, ===_iff i k, ===_iff i j, get_param-remove_param k j ps)

pub get_param-set_param :
    (k j v : Text) (ps : SearchParams)
    → get_param j (set_param k v ps) ≡ (if k === j then some v else get_param j ps)
unfolding get_param set_param
get_param-set_param k j v [] = refl
get_param-set_param k j v ((i, w) ∷ ps) = ground (
  arith,
  ===_iff k j,
  ===_iff i k,
  ===_iff i j,
  get_param-remove_param k j ps,
  get_param-set_param k j v ps,
)

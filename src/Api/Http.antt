-- ===== src/Api/Http.antt =====
-- api/client.ts, with the parts of the Fetch interface that it uses. A promise is the value that
-- it settles to. A response carries the value of the declared type when its status is 2xx, since
-- the casts of the source are unchecked, and JSON otherwise; `none` is a body that is no JSON.
use traffic_service.Base.{
  if◌then◌else◌, Text, codes, ◌===◌, true, false, Option, none, some, List, [], ◌∷◌, ◌++◌,
}
use traffic_service.Base.Json.{Json, null, bool, num, str, arr, obj, Items, nil, cons, lookup_field}

pub data Method : Type 0 where
  get post put delete : Method

pub record Request : Type 0 where
  pub method : Method
  pub url : Text
  pub query : List (Text × Text)
  pub headers : List (Text × Text)
  pub body : Option (Json Text)

pub data Response (T : Type 0) : Type 0 where
  okay : Option T → Response T
  failed : Option (Json Text) → Response T

-- `thrown m` is `new Error(m)`; the messages of the others are the runtime's own.
pub data Failure : Type 0 where
  thrown : Text → Failure
  not_json type_error network : Failure

pub data Outcome (T : Type 0) : Type 0 where
  resolved : T → Outcome T
  raised : Failure → Outcome T

abbrev pub Fetch : Type 0 → Type 0
Fetch T = Request → Outcome (Response T)

infixl 5 ◌>>=◌
abbrev pub ◌>>=◌ : {A B : Type 0} → Outcome A → (A → Outcome B) → Outcome B
resolved a >>= f = f a
raised e >>= f = raised e

-- The text of a value when it is made an error's message: `String(v)`.
abbrev mutual
  pub to_text : Json Text → Text
  to_text null = codes "null"
  to_text (bool true) = codes "true"
  to_text (bool false) = codes "false"
  to_text (num t) = t
  to_text (str t) = t
  to_text (arr vs) = join_text vs
  to_text (obj fs) = codes "[object Object]"

  -- `vs.join(",")`, in which `null` is empty.
  pub join_text : Items Text → Text
  join_text nil = []
  join_text (cons v nil) = element_text v
  join_text (cons v (cons w ws)) = element_text v ++ (b',' ∷ join_text (cons w ws))

  pub element_text : Json Text → Text
  element_text null = []
  element_text (bool true) = codes "true"
  element_text (bool false) = codes "false"
  element_text (num t) = t
  element_text (str t) = t
  element_text (arr vs) = join_text vs
  element_text (obj fs) = codes "[object Object]"

-- `new Error(value ?? fallback)`, and `error.detail` of a JSON value.
abbrev pub error_of : Text → Option (Json Text) → Failure
error_of fallback none = thrown fallback
error_of fallback (some null) = thrown fallback
error_of fallback (some v) = thrown (to_text v)

abbrev pub detail_or : Text → Json Text → Failure
detail_or fallback null = type_error
detail_or fallback (obj fs) = error_of fallback (lookup_field (codes "detail") fs)
detail_or fallback _ = thrown fallback

-- The error of a response that is not ok.
unfoldable pub failure_of : Text → Option (Json Text) → Failure
failure_of fallback none = thrown fallback
failure_of fallback (some body) = detail_or fallback body

unfoldable pub handle_response : {T : Type 0} → Response T → Text → Outcome T
unfolding failure_of
handle_response (failed body) fallback = raised (failure_of fallback body)
handle_response (okay none) fallback = raised not_json
handle_response (okay (some value)) fallback = resolved value

-- The same on a response whose body is not read.
unfoldable pub check_response : Response (Unit {0}) → Text → Outcome (Unit {0})
unfolding failure_of
check_response (failed body) fallback = raised (failure_of fallback body)
check_response (okay _) fallback = resolved tt

abbrev pub content_type : Text × Text
content_type = (codes "Content-Type", codes "application/json")

abbrev pub bearer : Text → Text
bearer token = codes "Bearer " ++ token

-- `authHeaders()` when the store's token is the argument.
unfoldable pub auth_headers : Option Text → List (Text × Text)
auth_headers none = content_type ∷ []
auth_headers (some []) = content_type ∷ []
auth_headers (some (c ∷ s)) = content_type ∷ (codes "Authorization", bearer (c ∷ s)) ∷ []

-- A property of an object literal: `obj[k]`, and `{ ...obj, [k]: v }`.
unfoldable pub property : Text → List (Text × Text) → Option Text
property k [] = none
property k ((j, v) ∷ ps) = if j === k then some v else property k ps

unfoldable pub assign : Text → Text → List (Text × Text) → List (Text × Text)
assign k v [] = (k, v) ∷ []
assign k v ((j, w) ∷ ps) = if j === k then (j, v) ∷ ps else (j, w) ∷ assign k v ps

-- ===== src/Base/Sets.antt =====
-- Texts as the elements of a set and the keys of a dictionary: Python's `in`, `set` and `dict`.
use Prim.Native.Nat.{suc, ◌≤◌}
use mathlib.Core.Path.{◌≡◌, refl, ap}
use mathlib.Core.Logic.{◌≢◌, inl, inr}
use mathlib.Core.Bool.{Bool, true, false, ◌&&◌, ◌||◌, not}
use mathlib.Core.List.{List, [], ◌∷◌}
use mathlib.Core.Option.{Option, none, some}
use native.Mathlib.Omega.{arith}
use traffic_service.Base.Tests.{if◌then◌else◌, Bool-cases, is_some}
use traffic_service.Base.Lists.{length, any, All}
use traffic_service.Base.Strings.{Text, ◌===◌, ===_iff}

-- `x in xs`
abbrev pub contains : Text → List Text → Bool
contains x xs = any (λ y. y === x) xs

abbrev pub distinct : List Text → Bool
distinct [] = true
distinct (x ∷ xs) = not (contains x xs) && distinct xs

-- The elements of `set(xs)`, each of them once.
unfoldable pub set_of : List Text → List Text
set_of [] = []
set_of (x ∷ xs) = if contains x xs then set_of xs else x ∷ set_of xs

-- `xs` without the first `x`.
abbrev pub without : Text → List Text → List Text
without x [] = []
without x (y ∷ ys) = if y === x then ys else y ∷ without x ys

-- Every element of one list is an element of another.
abbrev pub Subset : List Text → List Text → Type 0
Subset ks xs = All (λ k. contains k xs ≡ true) ks

-- A dictionary holds its keys in the order in which they came first.
unfoldable pub set_item {ℓ} : {V : Type ℓ} → Text → V → List (Text × V) → List (Text × V)
set_item k v [] = (k, v) ∷ []
set_item k v (p ∷ ps) = if p.0 === k then (k, v) ∷ ps else p ∷ set_item k v ps

-- `d.get(k)`
unfoldable pub get_item {ℓ} : {V : Type ℓ} → List (Text × V) → Text → Option V
get_item [] k = none
get_item (p ∷ ps) k = if p.0 === k then some p.1 else get_item ps k

abbrev pub keys {ℓ} : {V : Type ℓ} → List (Text × V) → List Text
keys [] = []
keys (p ∷ ps) = p.0 ∷ keys ps

pub length-without :
    (x : Text) (xs : List Text) → contains x xs ≡ true → suc (length (without x xs)) ≡ length xs
length-without x [] h = ground arith
length-without x (y ∷ ys) h = ground (arith, length-without x ys)

pub contains-without :
    (x k : Text) (xs : List Text) → k ≢ x → contains k xs ≡ true → contains k (without x xs) ≡ true
contains-without x k [] n h = ground arith
contains-without x k (y ∷ ys) n h =
    ground (arith, contains-without x k ys n, ===_iff y x, ===_iff y k)

Subset-without :
    (x : Text) (ks xs : List Text) → contains x ks ≡ false → Subset ks xs → Subset ks (without x xs)
Subset-without x [] xs n h = tt
Subset-without x (k ∷ ks) xs n h = (
  contains-without x k xs (ground (arith, ===_iff k x)) h.0,
  Subset-without x ks xs (ground arith) h.1,
)

-- A list without repetition is no longer than a list that holds all of its elements.
pub length-Subset-le :
    (ks xs : List Text) → distinct ks ≡ true → Subset ks xs → length ks ≤ length xs
length-Subset-le [] xs d h = omega arith
length-Subset-le (k ∷ ks) xs d h =
    let rest =
      length-Subset-le ks (without k xs) (ground arith)
        (Subset-without k ks xs (ground arith) h.1) in
    omega (arith, rest, length-without k xs h.0)

Subset-tail :
    (x : Text) (ks xs : List Text) → contains x xs ≡ true → Subset ks (x ∷ xs) → Subset ks xs
Subset-tail x [] xs m h = tt
Subset-tail x (k ∷ ks) xs m h = (ground (arith, ===_iff x k, h.0), Subset-tail x ks xs m h.1)

Subset-off :
    (x : Text) (ks xs : List Text) → contains x ks ≡ false → Subset ks (x ∷ xs) → Subset ks xs
Subset-off x [] xs m h = tt
Subset-off x (k ∷ ks) xs m h =
    (ground (arith, ===_iff x k, ===_iff k x, h.0), Subset-off x ks xs (ground arith) h.1)

contains-without-of :
    (x k : Text) (ks : List Text) → contains k (without x ks) ≡ true → contains k ks ≡ true
contains-without-of x k [] h = h
contains-without-of x k (y ∷ ys) h = ground (arith, contains-without-of x k ys)

distinct-without :
    (x : Text) (ks : List Text)
    → distinct ks ≡ true
    → (distinct (without x ks) ≡ true) × (contains x (without x ks) ≡ false)
distinct-without x [] d = (refl, refl)
distinct-without x (k ∷ ks) d =
    ground (arith, ===_iff k x, distinct-without x ks, contains-without-of x k ks)

All-without : (P : Text → Type 0) (x : Text) (ks : List Text) → All P ks → All P (without x ks)
All-without P x [] h = tt
All-without P x (k ∷ ks) h = elim (Bool-cases (k === x)) [
  | inl e ↦ rw e h.1
  | inr e ↦ rw e (h.0, All-without P x ks h.1)
]

Subset-without-of : (x : Text) (xs ks : List Text) → Subset xs (without x ks) → Subset xs ks
Subset-without-of x [] ks h = tt
Subset-without-of x (y ∷ ys) ks h = (contains-without-of x y ks h.0, Subset-without-of x ys ks h.1)

-- Of as many elements as a list without repetition of them has, none is repeated and none is missing.
pub distinct-Subset :
    (ks xs : List Text)
    → distinct ks ≡ true
    → Subset ks xs
    → length ks ≡ length xs
    → (distinct xs ≡ true) × Subset xs ks
distinct-Subset ks [] d h e = (refl, tt)
distinct-Subset ks (x ∷ xs) d h e = elim (Bool-cases (contains x xs)) [
  | inl twice ↦ absurd (omega (arith, length-Subset-le ks xs d (Subset-tail x ks xs twice h), e))
  | inr once ↦ elim (Bool-cases (contains x ks)) [
    | inr missing ↦
        absurd (omega (arith, length-Subset-le ks xs d (Subset-off x ks xs missing h), e))
    | inl found ↦
        let parts = distinct-without x ks d in
        let rest =
          distinct-Subset (without x ks) xs parts.0
            (Subset-off x (without x ks) xs parts.1 (All-without _ x ks h))
            (omega (arith, length-without x ks found, e)) in
        (ground (arith, rest.0), (found, Subset-without-of x xs ks rest.1))
  ]
]

pub contains-set_of : (x : Text) (xs : List Text) → contains x (set_of xs) ≡ contains x xs
unfolding set_of
contains-set_of x [] = refl
contains-set_of x (y ∷ ys) = ground (arith, ===_iff y x, contains-set_of x ys)

pub distinct-set_of : (xs : List Text) → distinct (set_of xs) ≡ true
unfolding set_of
distinct-set_of [] = refl
distinct-set_of (x ∷ xs) = ground (arith, distinct-set_of xs, contains-set_of x xs)

pub set_of-distinct : (xs : List Text) → distinct xs ≡ true → set_of xs ≡ xs
unfolding set_of
set_of-distinct [] d = refl
set_of-distinct (x ∷ xs) d = ground (arith, set_of-distinct xs)

pub Subset-set_of : (ks xs : List Text) → Subset ks xs → Subset ks (set_of xs)
Subset-set_of [] xs h = tt
Subset-set_of (k ∷ ks) xs h = (ground (arith, contains-set_of k xs, h.0), Subset-set_of ks xs h.1)

pub Subset-contains :
    (k : Text) (xs ys : List Text) → Subset xs ys → contains k xs ≡ true → contains k ys ≡ true
Subset-contains k [] ys h m = ground arith
Subset-contains k (x ∷ xs) ys h m = ground (arith, ===_iff x k, h.0, Subset-contains k xs ys h.1)

pub Subset-intro :
    (xs ks : List Text) → ((k : Text) → contains k xs ≡ true → contains k ks ≡ true) → Subset xs ks
Subset-intro [] ks h = tt
Subset-intro (x ∷ xs) ks h =
    (h x (ground (arith, ===_iff x x)), Subset-intro xs ks (λ k m. h k (ground arith)))

module _ {ℓ} {V : Type ℓ} where
  pub length-keys : (ps : List (Text × V)) → length (keys ps) ≡ length ps
  length-keys [] = refl
  length-keys (p ∷ ps) = ap suc (length-keys ps)

  pub get_item-set_item :
      (j k : Text) (v : V) (ps : List (Text × V))
      → get_item (set_item k v ps) j ≡ (if k === j then some v else get_item ps j)
  unfolding get_item set_item
  get_item-set_item j k v [] = refl
  get_item-set_item j k v (p ∷ ps) =
      ground (arith, get_item-set_item j k v ps, ===_iff p.0 k, ===_iff k j, ===_iff p.0 j)

  contains-keys-set_item :
      (j k : Text) (v : V) (ps : List (Text × V))
      → contains j (keys (set_item k v ps)) ≡ (k === j) || contains j (keys ps)
  unfolding set_item
  contains-keys-set_item j k v [] = refl
  contains-keys-set_item j k v (p ∷ ps) =
      ground (arith, contains-keys-set_item j k v ps, ===_iff p.0 k)

  pub distinct-keys-set_item :
      (k : Text) (v : V) (ps : List (Text × V))
      → distinct (keys ps) ≡ true
      → distinct (keys (set_item k v ps)) ≡ true
  unfolding set_item
  distinct-keys-set_item k v [] d = refl
  distinct-keys-set_item k v (p ∷ ps) d = ground (
    arith,
    distinct-keys-set_item k v ps,
    contains-keys-set_item p.0 k v ps,
    ===_iff p.0 k,
    ===_iff k p.0,
  )

  pub is_some-get_item :
      (k : Text) (ps : List (Text × V)) → is_some (get_item ps k) ≡ contains k (keys ps)
  unfolding get_item
  is_some-get_item k [] = refl
  is_some-get_item k (p ∷ ps) = ground (arith, is_some-get_item k ps)

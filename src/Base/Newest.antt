-- ===== src/Base/Newest.antt =====
-- `xs.sort((a, b) => key(b) - key(a))` on a copy: stable, the greatest key first.
use Prim.Native.Nat.{ℕ, suc, ◌≤◌}
use mathlib.Core.Path.{◌≡◌, refl}
use mathlib.Core.Logic.{inl, inr}
use mathlib.Core.List.{List, [], ◌∷◌}
use native.Mathlib.Omega.{arith}
use traffic_service.Base.Tests.{leb, ◌==◌, if◌then◌else◌, Bool-cases}
use traffic_service.Base.Lists.{length, filter, All}

module _ {A : Type 0} (key : A → ℕ) where
  abbrev pub insert_newest : A → List A → List A
  insert_newest x [] = x ∷ []
  insert_newest x (y ∷ ys) = if leb (key y) (key x) then x ∷ y ∷ ys else y ∷ insert_newest x ys

  unfoldable pub sort_newest : List A → List A
  sort_newest [] = []
  sort_newest (x ∷ xs) = insert_newest x (sort_newest xs)

  -- Every element has a key at least as great as those of all that stand behind it.
  abbrev pub NewestFirst : List A → Type 0
  NewestFirst [] = Unit
  NewestFirst (x ∷ xs) = All (λ y. key y ≤ key x) xs × NewestFirst xs

  abbrev with_key : ℕ → List A → List A
  with_key k xs = filter (λ x. key x == k) xs

  All-weaken : (xs : List A) (a b : ℕ) → a ≤ b → All (λ y. key y ≤ a) xs → All (λ y. key y ≤ b) xs
  All-weaken [] a b h all = tt
  All-weaken (x ∷ xs) a b h all = (omega (arith, h, all.0), All-weaken xs a b h all.1)

  All-insert : (P : A → Type 0) (x : A) (xs : List A) → P x → All P xs → All P (insert_newest x xs)
  All-insert P x [] p all = (p, tt)
  All-insert P x (y ∷ ys) p all = elim (Bool-cases (leb (key y) (key x))) [
    | inl here ↦ rw here (p, all)
    | inr later ↦ rw later (all.0, All-insert P x ys p all.1)
  ]

  insert-NewestFirst : (x : A) (xs : List A) → NewestFirst xs → NewestFirst (insert_newest x xs)
  insert-NewestFirst x [] h = (tt, tt)
  insert-NewestFirst x (y ∷ ys) h = elim (Bool-cases (leb (key y) (key x))) [
    | inl here ↦ rw here ((ground arith, All-weaken ys (key y) (key x) (ground arith) h.0), h)
    | inr later ↦ rw later (All-insert _ x ys (ground arith) h.0, insert-NewestFirst x ys h.1)
  ]

  pub sort_newest-NewestFirst : (xs : List A) → NewestFirst (sort_newest xs)
  unfolding sort_newest
  sort_newest-NewestFirst [] = tt
  sort_newest-NewestFirst (x ∷ xs) =
      insert-NewestFirst x (sort_newest xs) (sort_newest-NewestFirst xs)

  with_key-insert :
      (k : ℕ) (x : A) (xs : List A) → with_key k (insert_newest x xs) ≡ with_key k (x ∷ xs)
  with_key-insert k x [] = refl
  with_key-insert k x (y ∷ ys) = ground (arith, with_key-insert k x ys)

  -- Elements of one key stay in their order, and none is lost or added.
  pub sort_newest-stable : (k : ℕ) (xs : List A) → with_key k (sort_newest xs) ≡ with_key k xs
  unfolding sort_newest
  sort_newest-stable k [] = refl
  sort_newest-stable k (x ∷ xs) =
      ground (arith, with_key-insert k x (sort_newest xs), sort_newest-stable k xs)

  length-insert : (x : A) (xs : List A) → length (insert_newest x xs) ≡ suc (length xs)
  length-insert x [] = refl
  length-insert x (y ∷ ys) = ground (arith, length-insert x ys)

  pub length-sort_newest : (xs : List A) → length (sort_newest xs) ≡ length xs
  unfolding sort_newest
  length-sort_newest [] = refl
  length-sort_newest (x ∷ xs) =
      ground (arith, length-insert x (sort_newest xs), length-sort_newest xs)

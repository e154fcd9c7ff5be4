-- ===== src/Assessment/Queue.antt =====
-- A queue of events whose ids come from a supply without repetition, and the ids that its consumer
-- has marked.
use traffic_service.Base.Sets.{contains, distinct}
use traffic_service.Base.{
  Bool-cases, Text, ===_iff, ◌===◌, ℕ, suc, ◌≤◌, ◌<◌, ◌≡◌, refl, sym, ◌∙◌, inl, inr, Bool, true,
  false, ◌||◌, List, [], ◌∷◌, ◌++◌, arith,
}

module _ (uuid : ℕ → Text) (unique : (m n : ℕ) → uuid m ≡ uuid n → m ≡ n) where
  -- One of the first ids of the supply.
  abbrev pub IsOld : ℕ → Text → Type 0
  IsOld n id = (m : ℕ) × (m < n) × (id ≡ uuid m)

  -- No id of the queue is marked or repeated, and all of them and all marked ones have been given
  -- out.
  abbrev pub IsFreshQueue : ℕ → (Text → Bool) → List Text → Type 0
  IsFreshQueue n seen ids =
      ((id : Text) → contains id ids ≡ true → seen id ≡ false)
      × (distinct ids ≡ true)
      × ((id : Text) → (contains id ids || seen id) ≡ true → IsOld n id)

  IsOld-later : (n k : ℕ) (id : Text) → n ≤ k → IsOld n id → IsOld k id
  IsOld-later n k id h (m, lt, e) = (m, omega (arith, lt, h), e)

  not_old : (n k : ℕ) → n ≤ k → IsOld n (uuid k) → ⊥
  not_old n k h (m, lt, e) = omega (arith, lt, h, unique k m e)

  unseen :
      (n k : ℕ) (seen : Text → Bool) (ids : List Text)
      → n ≤ k
      → IsFreshQueue n seen ids
      → (contains (uuid k) ids || seen (uuid k)) ≡ false
  unseen n k seen ids h q = elim (Bool-cases (contains (uuid k) ids || seen (uuid k))) [
    | inl there ↦ absurd (not_old n k h (q.2 (uuid k) there))
    | inr e ↦ e
  ]

  contains-append :
      (k x : Text) (ids : List Text) → contains k (ids ++ (x ∷ [])) ≡ (contains k ids || (x === k))
  contains-append k x [] = ground arith
  contains-append k x (y ∷ ids) = ground (arith, contains-append k x ids)

  distinct-append :
      (x : Text) (ids : List Text)
      → distinct ids ≡ true
      → contains x ids ≡ false
      → distinct (ids ++ (x ∷ [])) ≡ true
  distinct-append x [] d off = refl
  distinct-append x (y ∷ ids) d off =
      ground
        (arith, distinct-append x ids, contains-append y x ids, ===_iff y x, ===_iff x y, d, off)

  -- The next id of the supply comes to the end.
  pub IsFreshQueue-push :
      (n k : ℕ) (seen : Text → Bool) (ids : List Text)
      → n ≤ k
      → IsFreshQueue n seen ids
      → IsFreshQueue (suc k) seen (ids ++ (uuid k ∷ []))
  IsFreshQueue-push n k seen ids h q =
      let off = unseen n k seen ids h q in
      (
        (λ id m. elim (Bool-cases (contains id ids)) [
          | inl there ↦ q.0 id there
          | inr absent ↦
              let e : uuid k ≡ id =
                (===_iff (uuid k) id).0
                  (ground (arith, m, contains-append id (uuid k) ids, absent)) in
              let s : seen (uuid k) ≡ false = ground (arith, off) in rw e at s
        ]),
        distinct-append (uuid k) ids q.1 (ground (arith, off)),
        (λ id m. elim (Bool-cases (contains id ids || seen id)) [
          | inl there ↦ IsOld-later n (suc k) id (omega (arith, h)) (q.2 id there)
          | inr absent ↦ (
            k,
            omega arith,
            sym (
                (===_iff (uuid k) id).0
                  (ground (arith, m, contains-append id (uuid k) ids, absent))),
          )
        ]),
      )

  -- The first id leaves, and at most it is marked.
  pub IsFreshQueue-pop :
      (n : ℕ) (seen marked : Text → Bool) (i : Text) (ids : List Text)
      → ((id : Text) → marked id ≡ true → ((i === id) || seen id) ≡ true)
      → IsFreshQueue n seen (i ∷ ids)
      → IsFreshQueue n marked ids
  IsFreshQueue-pop n seen marked i ids only q = (
    (λ id m. elim (Bool-cases (marked id)) [
      | inr e ↦ e
      | inl e ↦ ground (arith, only id e, q.0 id, q.1, m, ===_iff i id)
    ]),
    ground (arith, q.1),
    (λ id m. q.2 id (ground (arith, only id, m))),
  )

  -- Time passes, and nothing is marked.
  pub IsFreshQueue-later :
      (n k : ℕ) (seen marked : Text → Bool) (ids : List Text)
      → n ≤ k
      → ((id : Text) → marked id ≡ seen id)
      → IsFreshQueue n seen ids
      → IsFreshQueue k marked ids
  IsFreshQueue-later n k seen marked ids h same q = (
    (λ id m. same id ∙ q.0 id m),
    q.1,
    (λ id m. IsOld-later n k id h (q.2 id (rw (same id) at m))),
  )

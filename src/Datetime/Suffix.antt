-- ===== src/Datetime/Suffix.antt =====
-- lib/datetime.ts, `ensureUTCSuffix`.
use traffic_service.Base.{
  Bool-cases, length, length-append, Text, ◌≡◌, refl, ap, ◌↔◌, inl, inr, true, false, [], ◌∷◌, ◌++◌,
  arith,
}
use traffic_service.Datetime.{some_tail, is_z, has_zone, ensure_utc_suffix}

some_tail_z : (s : Text) → some_tail is_z (s ++ b'Z' ∷ []) ≡ true
some_tail_z [] = refl
some_tail_z (c ∷ s) = ground (arith, some_tail_z s)

append-ne_self : (s : Text) → s ++ b'Z' ∷ [] ≡ s → true ≡ false
append-ne_self s e = absurd (omega (arith, ap length e, length-append s (b'Z' ∷ [])))

pub has_zone-append : (s : Text) → has_zone (s ++ b'Z' ∷ []) ≡ true
has_zone-append s = ground (arith, some_tail_z s)

-- For every text, the result of `ensureUTCSuffix` ends in a zone, a second application changes
-- nothing, and the text itself comes back exactly when it ended in "Z" or an offset.
pub ensure_utc_suffix_lem :
    (iso : Text)
    → (has_zone (ensure_utc_suffix iso) ≡ true)
      × (ensure_utc_suffix (ensure_utc_suffix iso) ≡ ensure_utc_suffix iso)
      × ((has_zone iso ≡ true) ↔ (ensure_utc_suffix iso ≡ iso))
unfolding ensure_utc_suffix
ensure_utc_suffix_lem iso = elim (Bool-cases (has_zone iso)) [
  | inl zoned ↦ (rw zoned zoned, rw zoned (rw zoned), ((λ _. rw zoned), (λ _. zoned)))
  | inr naive ↦ (
    rw naive (has_zone-append iso),
    rw naive (rw (has_zone-append iso)),
    ((λ z. cc), (λ e. cc (append-ne_self iso (rw naive at e)))),
  )
]

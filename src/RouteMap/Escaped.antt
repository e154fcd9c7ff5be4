-- ===== src/RouteMap/Escaped.antt =====
-- RouteMap.tsx, `escapeHtml`: the five replacements one after the other are one pass, and the
-- popup's markup is that of the template alone.
use traffic_service.Base.Decimal.{decimal, IsDigit, decimal-IsDigit}
use traffic_service.RouteMap.Html.{escape_html, Properties, segment_popup_html}
use traffic_service.Base.{
  ◌==◌, if◌then◌else◌, length, take, drop, All, All-append, Text, codes, ◌===◌, ℕ, zero, suc, ◌+◌,
  ◌≤◌, ◌≡◌, refl, ◌≢◌, ◌⊎◌, inl, inr, not, some, [], ◌∷◌, ◌++◌, arith,
}

abbrev escape_char : ℕ → Text
escape_char c =
    if c == b'&'
    then codes "&amp;"
    else if c == b'<'
    then codes "&lt;"
    else if c == b'>'
    then codes "&gt;"
    else if c == b'"'
    then codes "&quot;"
    else if c == b'\''
    then codes "&#039;"
    else c ∷ []

abbrev pub escape_all : Text → Text
escape_all [] = []
escape_all (c ∷ s) = escape_char c ++ escape_all s

escape_html-eq : (s : Text) → escape_html (some s) ≡ escape_all s
unfolding escape_html
escape_html-eq [] = refl
escape_html-eq (c ∷ s) = ground (arith, escape_html-eq s)

-- A character that can open or close markup or a quoted attribute.
abbrev pub IsInert : ℕ → Type 0
IsInert c = (c ≢ b'<') × (c ≢ b'>') × (c ≢ b'"') × (c ≢ b'\'')

escape_char-IsInert : (c : ℕ) → All IsInert (escape_char c)
escape_char-IsInert c = ground arith

escape_all-IsInert : (s : Text) → All IsInert (escape_all s)
escape_all-IsInert [] = tt
escape_all-IsInert (c ∷ s) =
    All-append IsInert (escape_char c) (escape_all s) (escape_char-IsInert c) (escape_all-IsInert s)

-- `&` stands only at the start of one of the five entities; undoing them gives the text back.
pub unescape : ℕ → Text → Text
unescape zero s = []
unescape (suc f) [] = []
unescape (suc f) (c ∷ s) =
    let plain = c ∷ unescape f s in
    let amp = b'&' ∷ unescape f (drop 4 s) in
    let lt = b'<' ∷ unescape f (drop 3 s) in
    let gt = b'>' ∷ unescape f (drop 3 s) in
    let quot = b'"' ∷ unescape f (drop 5 s) in
    let apos = b'\'' ∷ unescape f (drop 5 s) in
    if not (c == b'&')
    then plain
    else if take 4 s === codes "amp;"
    then amp
    else if take 3 s === codes "lt;"
    then lt
    else if take 3 s === codes "gt;"
    then gt
    else if take 5 s === codes "quot;"
    then quot
    else if take 5 s === codes "#039;"
    then apos
    else plain

unescape-escape_all : (s : Text) (f : ℕ) → length s ≤ f → unescape f (escape_all s) ≡ s
unfolding unescape ◌===◌
unescape-escape_all [] zero h = refl
unescape-escape_all [] (suc f) h = refl
unescape-escape_all (c ∷ s) zero h = elim h [ ]
unescape-escape_all (c ∷ s) (suc f) h = ground (arith, unescape-escape_all s f)

-- `escapeHtml` leaves no angle bracket and no quote in any text, and loses nothing: replacing the
-- five entities gives the text back.
pub escape_html-IsInert :
    (s : Text)
    → All IsInert (escape_html (some s)) × (unescape (length s) (escape_html (some s)) ≡ s)
escape_html-IsInert s =
    rw (escape_html-eq s) (escape_all-IsInert s, unescape-escape_all s (length s) (omega arith))

abbrev pub occurrences : ℕ → Text → ℕ
occurrences c [] = 0
occurrences c (d ∷ s) = if d == c then suc (occurrences c s) else occurrences c s

occurrences-append :
    (c : ℕ) (s t : Text) → occurrences c (s ++ t) ≡ occurrences c s + occurrences c t
occurrences-append c [] t = omega arith
occurrences-append c (d ∷ s) t = ground (arith, occurrences-append c s t)

digits-IsInert : (s : Text) → All IsDigit s → All IsInert s
digits-IsInert [] h = tt
digits-IsInert (c ∷ s) h = (ground arith, digits-IsInert s h.1)

module _ (q : ℕ) (special : (q ≡ b'<') ⊎ (q ≡ b'"')) where
  occurrences-IsInert : (s : Text) → All IsInert s → occurrences q s ≡ 0
  occurrences-IsInert [] h = refl
  occurrences-IsInert (c ∷ s) h = ground (arith, occurrences-IsInert s h.1)

  occurrences-escape_html : (s : Text) → occurrences q (escape_html (some s)) ≡ 0
  occurrences-escape_html s =
      rw (escape_html-eq s) (occurrences-IsInert (escape_all s) (escape_all-IsInert s))

  occurrences-decimal : (n : ℕ) → occurrences q (decimal n) ≡ 0
  occurrences-decimal n =
      occurrences-IsInert (decimal n) (digits-IsInert (decimal n) (decimal-IsDigit n))

-- Whatever the name and the region hold, the popup has the twelve tags of its template and no
-- other "<", and the four quotes of its two attributes and no other.
pub segment_popup_html_count :
    (p : Properties)
    → (occurrences b'<' (segment_popup_html p) ≡ 12) × (occurrences b'"' (segment_popup_html p) ≡ 4)
unfolding segment_popup_html
segment_popup_html_count p = (
  simp
      (
        occurrences-append,
        occurrences-escape_html b'<' (inl refl),
        occurrences-decimal b'<' (inl refl),
      )
      (omega arith),
  simp
      (
        occurrences-append,
        occurrences-escape_html b'"' (inr refl),
        occurrences-decimal b'"' (inr refl),
      )
      (omega arith),
)

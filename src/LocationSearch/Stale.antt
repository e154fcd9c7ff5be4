-- ===== src/LocationSearch/Stale.antt =====
-- LocationSearch.tsx: what the field holds after typing, and answers that come late.
use traffic_service.LocationSearch.{
  Suggestion, SearchBox, handle_change, timer_fires, answer_arrives, handle_select, shown_list,
}
use traffic_service.Base.{Text, ===_iff, ◌≡◌, ◌≢◌, some, List, [], ◌∷◌, ◌++◌, arith}

-- Where no place is displayed, typing puts the typed text into the field; where one is, the first
-- change empties the field, whatever was typed, since the page empties the displayed name.
pub handle_change-query :
    (val : Text) (s : SearchBox)
    → (s.display_value ≡ [] → (handle_change val s).query ≡ val)
      × (s.display_value ≢ [] → (handle_change val s).query ≡ [])
unfolding handle_change
handle_change-query val s = (
  (λ e. ground (arith, ===_iff [] s.display_value)),
  (λ ne. ground (arith, ===_iff [] s.display_value)),
)

-- Choosing a suggestion puts its name into the field and closes the list, whatever is under way.
pub handle_select_lem :
    (chosen : Suggestion) (s : SearchBox)
    → let t = handle_select chosen s in
      (t.query ≡ chosen.place_name)
      × (t.display_value ≡ chosen.place_name)
      × (shown_list t ≡ [])
      × (t.debounce ≡ s.debounce)
      × (t.in_flight ≡ s.in_flight)
unfolding handle_select shown_list
handle_select_lem chosen s = (
  ground (arith, ===_iff chosen.place_name s.display_value),
  ground (arith, ===_iff chosen.place_name s.display_value),
  ground (arith, ===_iff chosen.place_name s.display_value),
  ground (arith, ===_iff chosen.place_name s.display_value),
  ground (arith, ===_iff chosen.place_name s.display_value),
)

-- An answer that was awaited when a suggestion was chosen, or whose timer was running then, opens
-- the list again with its suggestions under the chosen name.
pub late_answer_reopens :
    (chosen x : Suggestion) (xs : List Suggestion) (val : Text) (s : SearchBox)
    → let awaited = answer_arrives val (some (x ∷ xs)) (handle_select chosen s) in
      let timed = answer_arrives val (some (x ∷ xs)) (timer_fires (handle_select chosen s)) in
      (shown_list awaited ≡ x ∷ xs)
      × (shown_list timed ≡ x ∷ xs)
      × (awaited.query ≡ chosen.place_name)
      × (timed.query ≡ chosen.place_name)
      × (s.debounce ≡ some val
          → (timer_fires (handle_select chosen s)).in_flight ≡ s.in_flight ++ val ∷ [])
unfolding answer_arrives timer_fires shown_list
late_answer_reopens chosen x xs val s =
    let h = handle_select_lem chosen s in
    (ground arith, ground arith, h.0, ground (arith, h), (λ e. ground (arith, h, e)))

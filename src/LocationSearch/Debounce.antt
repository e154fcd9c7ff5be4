-- ===== src/LocationSearch/Debounce.antt =====
-- LocationSearch.tsx: typing.
use traffic_service.LocationSearch.{SearchBox, handle_change, shown_list}
use traffic_service.Base.{
  ltb, if◌then◌else◌, length, Text, ===_iff, ◌<◌, ◌≡◌, ◌∙◌, none, some, List, [], ◌∷◌, ◌++◌, arith,
}

unfoldable pub typing : List Text → SearchBox → SearchBox
typing [] s = s
typing (val ∷ vals) s = typing vals (handle_change val s)

handle_change_lem :
    (val : Text) (s : SearchBox)
    → ((handle_change val s).in_flight ≡ s.in_flight)
      × ((handle_change val s).debounce ≡ (if ltb (length val) 2 then none else some val))
      × (length val < 2 → shown_list (handle_change val s) ≡ [])
unfolding handle_change shown_list
handle_change_lem val s = (
  ground (arith, ===_iff [] s.display_value),
  ground (arith, ===_iff [] s.display_value),
  (λ short. ground (arith, ===_iff [] s.display_value)),
)

-- While the driver types faster than the timer no request goes out, and afterwards the only
-- text with a timer is the last one, if it has two characters or more.
pub typing_lem :
    (vals : List Text) (val : Text) (s : SearchBox)
    → let t = typing (vals ++ val ∷ []) s in
      (t.in_flight ≡ s.in_flight)
      × (t.debounce ≡ (if ltb (length val) 2 then none else some val))
      × (length val < 2 → shown_list t ≡ [])
unfolding typing
typing_lem [] val s = handle_change_lem val s
typing_lem (v ∷ vals) val s =
    let ih = typing_lem vals val (handle_change v s) in
    (ih.0 ∙ (handle_change_lem v s).0, ih.1, ih.2)

-- ===== src/RouteMap/Html.antt =====
-- RouteMap.tsx: `escapeHtml` and the popup of a segment.
use traffic_service.RouteMap.Features.{text_or}
use traffic_service.Base.Decimal.{decimal}
use traffic_service.Base.{
  ◌==◌, if◌then◌else◌, ◌or_else◌, Text, codes, ℕ, String, Option, some, [], ◌∷◌, ◌++◌,
}

-- `text.replaceAll(character, entity)`
unfoldable pub replace_all : ℕ → Text → Text → Text
replace_all c entity [] = []
replace_all c entity (d ∷ s) =
    if d == c then entity ++ replace_all c entity s else d ∷ replace_all c entity s

unfoldable pub escape_html : Option Text → Text
unfolding replace_all
escape_html value = replace_all b'\'' (codes "&#039;") (
    replace_all b'"' (codes "&quot;") (
      replace_all b'>' (codes "&gt;")
        (replace_all b'<' (codes "&lt;") (replace_all b'&' (codes "&amp;") (value or_else [])))))

-- The properties that the popup reads; a feature has all of them.
pub record Properties : Type 0 where
  pub name : Option Text
  pub region : Option Text
  pub capacity : Option ℕ
  pub reserved : Option ℕ
  pub utilization_percent : Option ℕ

-- A line of the template: its indentation is kept.
abbrev line : String → Text → Text
line opening rest = 10 ∷ (codes opening ++ rest)

unfoldable pub segment_popup_html : Properties → Text
segment_popup_html p =
    let name = escape_html (some (text_or p.name (codes "unnamed"))) in
    let region = escape_html (some (text_or p.region (codes "Unknown"))) in
    let capacity = decimal (p.capacity or_else 0) in
    let reserved = decimal (p.reserved or_else 0) in
    let percent = decimal (p.utilization_percent or_else 0) in
    line "    <div style=\"min-width: 180px\">" (
      line "      <div style=\"font-weight: 700; margin-bottom: 4px\">" (
        name
        ++ (codes "</div>"
            ++ line "      <div>Region: " (
                region
                ++ (codes "</div>"
                    ++ line "      <div>Capacity: " (
                        capacity
                        ++ (codes "</div>"
                            ++ line "      <div>Reserved: " (
                                reserved
                                ++ (codes " / "
                                    ++ (capacity
                                        ++ (codes "</div>"
                                            ++ line "      <div>Utilization: " (
                                                percent
                                                ++ (codes "%</div>"
                                                    ++ line "    </div>" (line "  " []))))))))))))))

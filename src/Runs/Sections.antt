-- ===== src/Runs/Sections.antt =====
-- Runs of docs/MQTTAsync/html/dynsections.js on a table of four rows, and of FindChildElement on a row of results.
use paho_mqtt_c.Common.{
  some, ℕ, suc, ◌≡◌, refl, true, false, List, [], ◌∷◌, ◌++◌, map, leb, if◌then◌else◌,
}
use paho_mqtt_c.Packet.Wire.{ok}
use paho_mqtt_c.Site.Results.{hidden, unset}
use paho_mqtt_c.Site.Sections.{
  Row, fold_case, same_id, is_below, is_child, behind, is_digit, is_empty, digits_end, number_end,
}
use paho_mqtt_c.Site.Sections.{first_child_visible, toggle_level, toggle_folder}
use paho_mqtt_c.Site.Sections.Levels.{shown, underscores, IsStriped, toggle_level-shown}
use paho_mqtt_c.Site.Sections.Folders.{IsLower, LowerIds, refolded, toggle_folder_twice}
use paho_mqtt_c.Site.Menu.{make_tree}
use paho_mqtt_c.Site.Menu.Data.{async_menu}
use paho_mqtt_c.Site.Menu.Html.{read_menu}
use paho_mqtt_c.Site.Menu.Laws.{steps, read_menu_html}
use paho_mqtt_c.Site.Menu.Plain.{async_menu-IsPlain}
use paho_mqtt_c.Site.Children.{Element, null, element, div, sr_children, find_child_element}
use paho_mqtt_c.Site.Children.Walk.{first_child, find_child_element-first_child}

abbrev plain_row : List ℕ → Row
plain_row id = record { id = id; spans = []; visible = true; even = false }

-- "row_0_", "row_0_0_", "row_0_0_1_" and "row_1_"
abbrev row_0 : Row
row_0 = plain_row (114 ∷ 111 ∷ 119 ∷ 95 ∷ 48 ∷ 95 ∷ [])

abbrev rows_below : List Row
rows_below =
    plain_row (114 ∷ 111 ∷ 119 ∷ 95 ∷ 48 ∷ 95 ∷ 48 ∷ 95 ∷ [])
    ∷ plain_row (114 ∷ 111 ∷ 119 ∷ 95 ∷ 48 ∷ 95 ∷ 48 ∷ 95 ∷ 49 ∷ 95 ∷ [])
    ∷ plain_row (114 ∷ 111 ∷ 119 ∷ 95 ∷ 49 ∷ 95 ∷ [])
    ∷ []

abbrev id_0 : List ℕ
id_0 = 48 ∷ 95 ∷ []

clicked_row : same_id row_0.id (114 ∷ 111 ∷ 119 ∷ 95 ∷ id_0) ≡ true
unfolding same_id
clicked_row = refl

id-IsLower : IsLower id_0
unfolding fold_case
id-IsLower = (refl, (refl, tt))

rows-LowerIds : LowerIds rows_below
unfolding fold_case
rows-LowerIds = (
  (refl, (refl, (refl, (refl, (refl, (refl, (refl, (refl, tt)))))))),
  (
    (refl, (refl, (refl, (refl, (refl, (refl, (refl, (refl, (refl, (refl, tt)))))))))),
    ((refl, (refl, (refl, (refl, (refl, (refl, tt)))))), tt),
  ),
)

child_shown : first_child_visible id_0 rows_below ≡ true
unfolding first_child_visible is_child number_end behind fold_case digits_end is_digit is_empty
child_shown = refl

toggle_folder_twice_example :
    (map shown (toggle_folder id_0 ([] ++ row_0 ∷ rows_below))
      ≡ map shown []
        ++ shown row_0
          ∷ map (λ y. (y.id, if is_below id_0 y.id then false else y.visible)) rows_below)
    × (map shown (toggle_folder id_0 (toggle_folder id_0 ([] ++ row_0 ∷ rows_below)))
        ≡ map shown [] ++ shown row_0 ∷ map (refolded id_0) rows_below)
toggle_folder_twice_example =
    toggle_folder_twice id_0 [] row_0 rows_below tt clicked_row id-IsLower rows-LowerIds child_shown

toggle_level-shown_example :
    (map shown (toggle_level 1 (row_0 ∷ rows_below))
      ≡ map (λ r. (r.id, leb (underscores r.id) (suc 1))) (row_0 ∷ rows_below))
    × IsStriped (toggle_level 1 (row_0 ∷ rows_below))
toggle_level-shown_example = toggle_level-shown 1 (row_0 ∷ rows_below)

abbrev no_change : List ℕ → List ℕ
no_change s = s

-- A row of results with its name and its children.
abbrev result_row : Element
result_row =
    element (record { key = 1; node_name = div; class_name = []; display = unset })
      (element (record { key = 2; node_name = []; class_name = []; display = unset }) null null)
      (element (record { key = 3; node_name = div; class_name = sr_children; display = hidden })
        null null)

find_child_element-first_child_example :
    find_child_element no_change result_row ≡ ok (first_child no_change result_row)
find_child_element-first_child_example = find_child_element-first_child no_change result_row

-- With the relative path "../".
read_menu_html_example :
    read_menu (steps async_menu) (46 ∷ 46 ∷ 47 ∷ []) (make_tree (46 ∷ 46 ∷ 47 ∷ []) async_menu)
    ≡ some (async_menu, [])
read_menu_html_example = read_menu_html (46 ∷ 46 ∷ 47 ∷ []) async_menu async_menu-IsPlain

-- ===== src/Runs/Pages.antt =====
-- The search of the documentation pages at concrete inputs.
use paho_mqtt_c.Common.{ℕ, zero, suc, ◌<◌, ◌≤◌, ◌≡◌, refl, arith, true, false, List, [], ◌∷◌, ◌++◌}
use paho_mqtt_c.Common.{none, some, length, get_elem?, if◌then◌else◌, ◌==◌, All}
use paho_mqtt_c.Site.Ids.{
  convert_to_id, convert_unit, is_id_unit, to_string16, hex_digit, starts_with,
}
use paho_mqtt_c.Site.Ids.Laws.{IsUnit}
use paho_mqtt_c.Site.Results.{
  block, hidden, unset, Div, ResultsPage, search, is_block, nav_next, next_loop, nav_step,
}
use paho_mqtt_c.Site.Results.{search_word, search_text, strip_leading, strip_trailing, put_stripped}
use paho_mqtt_c.Site.Results.Laws.{shown, wanted, IsNamed, search_shows}
use paho_mqtt_c.Site.Keys.{Item, focus_item, children_shown, go_down, go_up, before}
use paho_mqtt_c.Site.Keys.{go_next, next_found, children_shown}
use paho_mqtt_c.Site.Keys.Laws.{go_up-go_down}
use paho_mqtt_c.Site.Box.{
  SearchBox, Config, on_search_select_key, same_text, strip_spaces, select_item_count,
}
use paho_mqtt_c.Site.Box.{set_marks, select_item_set, on_select_item}
use paho_mqtt_c.Site.Box as Box
use paho_mqtt_c.Site.Box.Laws.{IsMarked, on_search_select_key-IsMarked, on_search_select_key_error}

-- "a_b"
convert_a_b : convert_to_id (97 ∷ 95 ∷ 98 ∷ []) ≡ 97 ∷ 95 ∷ 53 ∷ 102 ∷ 98 ∷ []
unfolding convert_to_id convert_unit is_id_unit to_string16 hex_digit
convert_a_b = refl

-- A row for "name" and a heading.
abbrev page : ResultsPage
page = record {
  rows =
      record {
        id = 115 ∷ 114 ∷ 95 ∷ (convert_to_id (110 ∷ 97 ∷ []) ++ 95 ∷ 49 ∷ []);
        is_result = true;
        display = unset;
      }
      ∷ record { id = []; is_result = false; display = unset }
      ∷ [];
  searching = unset;
  no_matches = unset;
  last_match_count = 0;
}

abbrev as_is : List ℕ → List ℕ
as_is s = s

wanted_units : All IsUnit (wanted as_is as_is [] (32 ∷ 110 ∷ []))
unfolding search_word search_text strip_leading strip_trailing put_stripped
wanted_units = (omega arith, tt)

search_shows_example :
    let word = wanted as_is as_is [] (32 ∷ 110 ∷ []) in
    let after = search as_is as_is [] (32 ∷ 110 ∷ []) page in
    ((i : ℕ) (row : Div) (name suffix : List ℕ)
      → get_elem? page.rows i ≡ some row
      → IsNamed as_is row name suffix
      → length word ≤ length name
      → get_elem? after.rows i
        ≡ some (record row { display = if starts_with word name then block else hidden }))
    × ((i : ℕ) (row : Div)
        → get_elem? page.rows i ≡ some row
        → row.is_result ≡ false
        → get_elem? after.rows i ≡ some row)
    × (after.last_match_count ≡ shown after.rows)
    × (after.no_matches ≡ (if shown after.rows == 0 then block else hidden))
search_shows_example = search_shows as_is as_is [] (32 ∷ 110 ∷ []) page wanted_units

abbrev items : List Item
items =
    record { display = block; children = none }
    ∷ record { display = hidden; children = none }
    ∷ record { display = block; children = some (block, 2) }
    ∷ []

items_closed : children_shown (some (record { display = block; children = none })) ≡ false
unfolding children_shown
items_closed = refl

items_down : go_down items 0 ≡ focus_item 2
unfolding go_down go_next next_found nav_next children_shown next_loop nav_step is_block
items_down = refl

go_up-go_down_example : go_up items (before 2) ≡ focus_item 0
go_up-go_down_example =
    go_up-go_down items 0 2 (record { display = block; children = none }) refl refl items_closed
      items_down

-- Two parts of the index, and the text "m" in the field.
abbrev config : Config
config = record {
  results_path = 115 ∷ [];
  search_label = 83 ∷ [];
  extension = 46 ∷ [];
  sections_with_content = (97 ∷ 109 ∷ []) ∷ (109 ∷ []) ∷ [];
  section_names = (97 ∷ []) ∷ (99 ∷ []) ∷ [];
  to_lower_case = as_is;
  escape = as_is;
  exceeds_one = λ s. false;
}

abbrev box : SearchBox
box = record {
  key_timeout = false;
  last_search_value = [];
  last_results_page = [];
  hide_timeout = false;
  search_index = 1;
  search_active = true;
  field = 109 ∷ [];
  box_active = true;
  results_window = hidden;
  search_close = hidden;
  select_window = block;
  marks = false ∷ true ∷ [];
  location = [];
}

box-marked : (i : ℕ) → i < 2 → get_elem? box.marks i ≡ some (i == 1)
box-marked zero h = refl
box-marked (suc zero) h = refl
box-marked (suc (suc i)) h = absurd (omega arith)

box-IsMarked : IsMarked box
box-IsMarked = record { bounded = omega arith; marked = box-marked }

text_left : same_text (strip_spaces box.field) [] ≡ false
unfolding same_text strip_spaces
text_left = refl

on_search_select_key_error_example : on_search_select_key config 40 box ≡ none
on_search_select_key_error_example = on_search_select_key_error config box refl refl text_left refl

abbrev idle_box : SearchBox
idle_box = record box { search_active = false }

idle_box-IsMarked : IsMarked idle_box
idle_box-IsMarked = record { bounded = omega arith; marked = box-marked }

abbrev up_box : SearchBox
up_box = record idle_box { search_index = 0; marks = true ∷ false ∷ [] }

up_runs : on_search_select_key config 38 idle_box ≡ some up_box
unfolding on_search_select_key select_item_count on_select_item select_item_set set_marks same_text
    strip_spaces
up_runs = refl

on_search_select_key-IsMarked_example : IsMarked up_box
on_search_select_key-IsMarked_example =
    on_search_select_key-IsMarked config 38 idle_box up_box idle_box-IsMarked up_runs

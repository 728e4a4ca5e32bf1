-- ===== src/Site/Box.antt =====
-- docs/MQTTAsync/html/search/search.js: SearchBox, the box with the text and the list of the parts of the
-- index. Positions and sizes are left out, and a timer is whether it runs. The focus moves of the
-- browser have no counterpart.
use paho_mqtt_c.Common.{
  ℕ, zero, suc, ◌+◌, ◌-◌, Bool, true, false, ◌&&◌, ◌||◌, not, List, [], ◌∷◌, ◌++◌,
}
use paho_mqtt_c.Common.{
  Option, none, some, ltb, leb, ◌==◌, if◌then◌else◌, length, get_elem?, take, drop,
}
use paho_mqtt_c.Site.Ids.{hex_text, starts_with}
use paho_mqtt_c.Site.Results.{Display, block, hidden, unset, is_block, strip_leading}
pub mod Laws

-- The fields of `SearchBox` that change, and what it changes of the document. `field` is the value of the
-- search field, `marks` tells of each item of the selection whether it has the mark.
pub record SearchBox : Type 0 where
  pub key_timeout : Bool
  pub last_search_value : List ℕ
  pub last_results_page : List ℕ
  pub hide_timeout : Bool
  pub search_index : ℕ
  pub search_active : Bool
  pub field : List ℕ
  pub box_active : Bool
  pub results_window : Display
  pub search_close : Display
  pub select_window : Display
  pub marks : List Bool
  pub location : List ℕ

-- What does not change: `resultsPath`, `searchLabel` and `extension`, the tables of searchdata.js, and
-- functions of the language: `toLowerCase`, `escape`, and whether a string is more than 1 as a number.
pub record Config : Type 0 where
  pub results_path : List ℕ
  pub search_label : List ℕ
  pub extension : List ℕ
  pub sections_with_content : List (List ℕ)
  pub section_names : List (List ℕ)
  pub to_lower_case : List ℕ → List ℕ
  pub escape : List ℕ → List ℕ
  pub exceeds_one : List ℕ → Bool

-- Equality of strings, as `==`.
unfoldable pub same_text : List ℕ → List ℕ → Bool
same_text [] [] = true
same_text (c ∷ cs) (d ∷ ds) = c == d && same_text cs ds
same_text xs ys = false

-- `indexOf`, from `index` on.
unfoldable pub index_from : ℕ → List ℕ → List ℕ → Option ℕ
index_from index part [] = if starts_with part [] then some index else none
index_from index part (c ∷ cs) =
    let later = index_from (index + 1) part cs in
    if starts_with part (c ∷ cs) then some index else later

-- `replace(/ +/g, "")`
unfoldable pub strip_spaces : List ℕ → List ℕ
strip_spaces [] = []
strip_spaces (c ∷ cs) = let rest = strip_spaces cs in if c == 32 then rest else c ∷ rest

unfoldable pub select_item_count : SearchBox → ℕ
select_item_count b = length b.marks

-- The loop of `SelectItemSet`, from item `j` on.
unfoldable pub set_marks : ℕ → ℕ → List Bool → List Bool
set_marks j id [] = []
set_marks j id (mark ∷ marks) = (j == id) ∷ set_marks (j + 1) id marks

unfoldable pub select_item_set : ℕ → SearchBox → SearchBox
select_item_set id b = record b { marks = set_marks 0 id b.marks }

unfoldable pub close_selection_window : SearchBox → SearchBox
close_selection_window b = record b { select_window = hidden }

unfoldable pub close_selected : Option SearchBox → Option SearchBox
close_selected none = none
close_selected (some b) = some (close_selection_window b)

-- The timer for hiding the selection is stopped when it is shown again.
unfoldable pub on_search_select_show : SearchBox → SearchBox
on_search_select_show b = record b { select_window = block; hide_timeout = false }

unfoldable pub on_search_select_hide : SearchBox → SearchBox
on_search_select_hide b = record b { hide_timeout = true }

module _ (config : Config) where
  -- The first unit in lower case, or two units: the code tests `searchValue > 1`, not its length.
  unfoldable pub index_char : List ℕ → List ℕ
  index_char value = elim (config.to_lower_case value) [
    | [] ↦ config.to_lower_case (take 1 value)
    | code ∷ rest ↦
        if leb 0xD800 code && leb code 0xDBFF && config.exceeds_one value
        then take 2 value
        else config.to_lower_case (take 1 value)
  ]

  -- '/nomatches', and the page with the number `index` of a part of the index.
  unfoldable pub results_page : Option ℕ → List ℕ → List ℕ
  results_page none name =
      config.results_path
      ++ (47 ∷ 110 ∷ 111 ∷ 109 ∷ 97 ∷ 116 ∷ 99 ∷ 104 ∷ 101 ∷ 115 ∷ config.extension)
  results_page (some index) name =
      config.results_path ++ (47 ∷ (name ++ (95 ∷ (hex_text index index ++ config.extension))))

  -- The page is opened with the text behind a question mark.
  unfoldable pub location_of : Option ℕ → List ℕ → List ℕ → List ℕ
  location_of none page value = page
  location_of (some index) page value = page ++ (63 ∷ config.escape value)

  -- `none` is a TypeError, where `searchIndex` is no part of the index.
  unfoldable pub search_in : Option (List ℕ) → Option (List ℕ) → SearchBox → Option SearchBox
  search_in (some content) (some name) b =
      let value = strip_leading b.field in
      let idx = index_from 0 (index_char value) content in
      let page = results_page idx name in
      some (record b {
        key_timeout = false;
        location = location_of idx page value;
        search_close = if is_block b.results_window then b.search_close else block;
        results_window = block;
        last_search_value = value;
        last_results_page = page;
      })
  search_in content name b = none

  unfoldable pub search : SearchBox → Option SearchBox
  search b =
      search_in (get_elem? config.sections_with_content b.search_index)
        (get_elem? config.section_names b.search_index) b

  unfoldable pub activate : Bool → SearchBox → SearchBox
  activate is_active b =
      if is_active || is_block b.results_window
      then (if same_text b.field config.search_label
          then record b { box_active = true; field = []; search_active = true }
          else record b { box_active = true })
      else record b {
        box_active = false;
        field = config.search_label;
        search_active = false;
        last_search_value = [];
        last_results_page = [];
      }

  unfoldable pub close_results_window : SearchBox → SearchBox
  close_results_window b =
      activate false (record b { results_window = hidden; search_close = hidden })

  unfoldable pub on_select_item : ℕ → SearchBox → Option SearchBox
  on_select_item id b =
      let b' = select_item_set id (record b { search_index = id }) in
      if not (same_text (strip_spaces b'.field) []) && b'.search_active then search b' else some b'

  -- Keys on the selection: 40 down, 38 up, 13 enter, 27 escape.
  unfoldable pub on_search_select_key : ℕ → SearchBox → Option SearchBox
  on_search_select_key key b =
      if key == 40 && ltb b.search_index (select_item_count b)
      then on_select_item (b.search_index + 1) b
      else if key == 38 && ltb 0 b.search_index
      then on_select_item (b.search_index - 1) b
      else if key == 13 || key == 27
      then close_selected (on_select_item b.search_index b)
      else some b

  -- The last part of `OnSearchFieldChange`, which compares the text with the one of the last search.
  unfoldable pub field_changed : SearchBox → SearchBox
  field_changed b =
      let value = strip_spaces b.field in
      if same_text value b.last_search_value
      then b
      else if same_text value []
      then record b { results_window = hidden; search_close = hidden; last_search_value = [] }
      else record b { key_timeout = true }

  -- Escape closes the results, and a shifted down or enter key opens the selection.
  unfoldable pub on_search_field_change : ℕ → Bool → SearchBox → SearchBox
  on_search_field_change key shift b =
      let b' = record b { key_timeout = false } in
      if (key == 40 || key == 13) && shift
      then on_search_select_show b'
      else if key == 27
      then activate false
          (record b' { results_window = hidden; search_close = hidden; last_search_value = [] })
      else field_changed b'

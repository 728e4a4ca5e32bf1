-- ===== src/Site/Results.antt =====
-- docs/MQTTAsync/html/search/search.js: SearchResults.Search, which shows the rows of a page of results,
-- and the movements NavNext and NavPrev between the rows shown.
use paho_mqtt_c.Common.{
  ℕ, zero, suc, ◌+◌, ◌-◌, Bool, true, false, ◌&&◌, List, [], ◌∷◌, ◌++◌, Option, none, some,
}
use paho_mqtt_c.Common.{leb, ◌==◌, if◌then◌else◌, length, get_elem?}
use paho_mqtt_c.Site.Ids.{convert_to_id, starts_with}
pub mod Laws
pub mod Moves

-- `style.display`: 'block', 'none', or what a style sheet gives.
pub data Display : Type 0 where
  block hidden unset : Display

-- A `div` of the page: `is_result` is the test of its class name.
pub record Div : Type 0 where
  pub id : List ℕ
  pub is_result : Bool
  pub display : Display

-- The `div`s, the two messages, and `lastMatchCount`.
pub record ResultsPage : Type 0 where
  pub rows : List Div
  pub searching : Display
  pub no_matches : Display
  pub last_match_count : ℕ

-- `replace(/^ +/, "")`
unfoldable pub strip_leading : List ℕ → List ℕ
strip_leading [] = []
strip_leading (c ∷ cs) = let rest = strip_leading cs in if c == 32 then rest else c ∷ cs

-- `replace(/ +$/, "")`
unfoldable pub put_stripped : ℕ → List ℕ → List ℕ
put_stripped c [] = if c == 32 then [] else c ∷ []
put_stripped c (d ∷ rest) = c ∷ d ∷ rest

unfoldable pub strip_trailing : List ℕ → List ℕ
strip_trailing [] = []
strip_trailing (c ∷ cs) = put_stripped c (strip_trailing cs)

-- `replace(/^sr\d*_/, '')`: behind the digits stands an underscore, or nothing is replaced.
unfoldable pub strip_digits : List ℕ → Option (List ℕ)
strip_digits [] = none
strip_digits (c ∷ cs) =
    let rest = strip_digits cs in
    if c == 95 then some cs else if leb 48 c && leb c 57 then rest else none

unfoldable pub strip_sr : List ℕ → List ℕ
strip_sr (c ∷ d ∷ cs) =
    if c == 115 && d == 114
    then elim (strip_digits cs) [ none ↦ c ∷ d ∷ cs | some rest ↦ rest ]
    else c ∷ d ∷ cs
strip_sr id = id

-- The text that is searched for. No argument, or an empty one, stands for the query of the address
-- without its question mark. `unescape` of the language is a parameter.
unfoldable pub search_word : (List ℕ → List ℕ) → List ℕ → List ℕ → List ℕ
search_word unescape query [] = unescape query
search_word unescape query (c ∷ search) = c ∷ search

-- `toLowerCase` of the language is a parameter.
module _ (to_lower_case : List ℕ → List ℕ) where
  unfoldable pub search_text : List ℕ → List ℕ
  search_text search = to_lower_case (strip_trailing (strip_leading search))

  unfoldable pub row_matches : List ℕ → Div → Bool
  row_matches text row = starts_with text (strip_sr (to_lower_case row.id))

  unfoldable pub search_row : List ℕ → Div → Div
  search_row text row =
      if row.is_result
      then record row { display = if row_matches text row then block else hidden }
      else row

  -- The while loop: the `div`s, and the number of matches.
  unfoldable pub search_rows : List ℕ → List Div → ℕ → List Div × ℕ
  search_rows text [] matches = ([], matches)
  search_rows text (row ∷ rows) matches =
      let found = row.is_result && row_matches text row in
      let (rows', matches') = search_rows text rows (if found then matches + 1 else matches) in
      (search_row text row ∷ rows', matches')

  unfoldable pub search : (List ℕ → List ℕ) → List ℕ → List ℕ → ResultsPage → ResultsPage
  search unescape query word page =
      let text = convert_to_id (search_text (search_word unescape query word)) in
      let (rows', matches) = search_rows text page.rows 0 in
      record {
        rows = rows';
        searching = hidden;
        no_matches = if matches == 0 then block else hidden;
        last_match_count = matches;
      }

unfoldable pub is_block : Display → Bool
is_block block = true
is_block hidden = false
is_block unset = false

-- A round of such a loop: `rest` is what the rounds behind it give.
unfoldable pub nav_step : Option Display → ℕ → Option ℕ → Option ℕ
nav_step none index rest = none
nav_step (some display) index rest = if is_block display then some index else rest

-- The elements 'Item0', 'Item1' and so on, each given by the display of the row it stands in. The loop
-- ends at the latest behind the last one, so a round more than the elements is enough fuel.
unfoldable pub next_loop : ℕ → List Display → ℕ → Option ℕ
next_loop zero items index = none
next_loop (suc fuel) items index =
    nav_step (get_elem? items index) index (next_loop fuel items (index + 1))

unfoldable pub nav_next : List Display → ℕ → Option ℕ
nav_next items index = next_loop (suc (length items)) items index

-- There is no element 'Item-1': `none` is the index -1.
unfoldable pub prev_loop : List Display → ℕ → Option ℕ
prev_loop items zero = nav_step (get_elem? items zero) zero none
prev_loop items (suc index) =
    nav_step (get_elem? items (suc index)) (suc index) (prev_loop items index)

unfoldable pub nav_prev : List Display → Option ℕ → Option ℕ
nav_prev items none = none
nav_prev items (some index) = prev_loop items index

-- ===== src/Site/Sections.antt =====
-- docs/MQTTAsync/html/dynsections.js: the rows of a directory table that are opened and closed. A row has the
-- spans of its cells; the elements 'img_...' and 'arr_...' of a row stand in it. `show` and `hide` set whether a
-- row is visible, and an id that toggleFolder gets is made of digits and underscores.
use paho_mqtt_c.Common.{
  ℕ, zero, suc, ◌+◌, ◌-◌, Bool, true, false, not, ◌&&◌, List, [], ◌∷◌, ◌++◌, Option, none, some,
}
use paho_mqtt_c.Common.{ltb, leb, ◌==◌, if◌then◌else◌, length, map, drop}
use paho_mqtt_c.Site.Ids.{starts_with}
pub mod Levels
pub mod Folders

pub record Span : Type 0 where
  pub id : List ℕ
  pub iconfopen : Bool
  pub iconfclosed : Bool
  pub arrow : Bool
  pub html : List ℕ

pub record Row : Type 0 where
  pub id : List ℕ
  pub spans : List Span
  pub visible : Bool
  pub even : Bool

-- The arrows &#9660; and &#9658;
abbrev pub down_arrow : List ℕ
down_arrow = 9660 ∷ []

abbrev pub right_arrow : List ℕ
right_arrow = 9658 ∷ []

-- "img", "arr" and "row_"
abbrev pub img : List ℕ
img = 105 ∷ 109 ∷ 103 ∷ []

abbrev pub arr : List ℕ
arr = 97 ∷ 114 ∷ 114 ∷ []

abbrev pub row_ : List ℕ
row_ = 114 ∷ 111 ∷ 119 ∷ 95 ∷ []

unfoldable pub same_id : List ℕ → List ℕ → Bool
same_id [] [] = true
same_id (c ∷ cs) (d ∷ ds) = c == d && same_id cs ds
same_id _ _ = false

-- updateStripes: every second visible row gets the class 'even', the first one first.
unfoldable pub stripe : Bool → List Row → List Row
stripe e [] = []
stripe e (r ∷ rows) =
    record r { even = r.visible && e } ∷ stripe (if r.visible then not e else e) rows

unfoldable pub update_stripes : List Row → List Row
update_stripes rows = stripe true rows

-- `split('_')`
unfoldable pub put_first : ℕ → List (List ℕ) → List (List ℕ)
put_first c [] = (c ∷ []) ∷ []
put_first c (part ∷ parts) = (c ∷ part) ∷ parts

unfoldable pub split : List ℕ → List (List ℕ)
split [] = [] ∷ []
split (c ∷ cs) = let rest = split cs in if c == 95 then [] ∷ rest else put_first c rest

unfoldable pub set_icon : List ℕ → Bool → Span → Span
set_icon id is_open s =
    if same_id s.id (img ++ drop 3 id)
    then record s { iconfopen = is_open; iconfclosed = not is_open }
    else s

unfoldable pub set_arrow : List ℕ → List ℕ → Span → Span
set_arrow id text s = if same_id s.id (arr ++ drop 3 id) then record s { html = text } else s

-- The function that toggleLevel applies to each row.
unfoldable pub level_row : ℕ → Row → Row
level_row level r =
    let l = length (split r.id) - 1 in
    if ltb l (level + 1)
    then record r {
      spans = map (λ s. set_arrow r.id down_arrow (set_icon r.id true s)) r.spans;
      visible = true;
    }
    else if l == level + 1
    then record r {
      spans = map (λ s. set_arrow r.id right_arrow (set_icon r.id false s)) r.spans;
      visible = true;
    }
    else record r { visible = false }

-- toggleLevel
unfoldable pub toggle_level : ℕ → List Row → List Row
toggle_level level rows = update_stripes (map (level_row level) rows)

-- The flag "i" of the pattern: letters are compared without case.
unfoldable pub fold_case : ℕ → ℕ
fold_case c = if leb 65 c && leb c 90 then c + 32 else c

-- What stands behind the prefix.
unfoldable pub behind : List ℕ → List ℕ → Option (List ℕ)
behind [] s = some s
behind (c ∷ cs) [] = none
behind (c ∷ cs) (d ∷ s) =
    let rest = behind cs s in if fold_case c == fold_case d then rest else none

unfoldable pub is_digit : ℕ → Bool
is_digit c = leb 48 c && leb c 57

unfoldable pub is_empty : List ℕ → Bool
is_empty [] = true
is_empty (c ∷ cs) = false

-- `\d*_$`
unfoldable pub digits_end : List ℕ → Bool
digits_end [] = false
digits_end (c ∷ cs) =
    let rest = digits_end cs in if c == 95 then is_empty cs else is_digit c && rest

-- `\d+_$`
unfoldable pub number_end : Option (List ℕ) → Bool
number_end none = false
number_end (some []) = false
number_end (some (c ∷ cs)) = is_digit c && digits_end cs

-- The test of childRows.
unfoldable pub is_child : List ℕ → List ℕ → Bool
is_child id row_id = number_end (behind (row_ ++ id) row_id)

-- The test [id^=row_...]
unfoldable pub is_below : List ℕ → List ℕ → Bool
is_below id row_id = starts_with (row_ ++ id) row_id

unfoldable pub close_span : Span → Span
close_span s =
    let s' = if s.iconfopen then record s { iconfopen = false; iconfclosed = true } else s in
    if s.arrow then record s' { html = right_arrow } else s'

unfoldable pub open_span : Span → Span
open_span s =
    let s' = if s.iconfclosed then record s { iconfclosed = false; iconfopen = true } else s in
    if s.arrow then record s' { html = down_arrow } else s'

-- `childRows.filter(':first').is(':visible')`
unfoldable pub first_child_visible : List ℕ → List Row → Bool
first_child_visible id [] = false
first_child_visible id (r ∷ rows) =
    let rest = first_child_visible id rows in if is_child id r.id then r.visible else rest

unfoldable pub hide_below : List ℕ → Row → Row
hide_below id r = if is_below id r.id then record r { visible = false } else r

unfoldable pub show_child : List ℕ → Row → Row
show_child id r =
    if is_child id r.id then record r { spans = map close_span r.spans; visible = true } else r

-- The clicked row and those after it.
unfoldable pub fold_row : List ℕ → Row → List Row → List Row
fold_row id r rows =
    if first_child_visible id rows
    then record r { spans = map close_span r.spans } ∷ map (hide_below id) rows
    else record r { spans = map open_span r.spans } ∷ map (show_child id) rows

unfoldable pub fold_at : List ℕ → List Row → List Row
fold_at id [] = []
fold_at id (r ∷ rows) =
    let rest = fold_at id rows in if same_id r.id (row_ ++ id) then fold_row id r rows else r ∷ rest

-- toggleFolder
unfoldable pub toggle_folder : List ℕ → List Row → List Row
toggle_folder id rows = update_stripes (fold_at id rows)

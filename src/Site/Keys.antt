-- ===== src/Site/Keys.antt =====
-- docs/MQTTAsync/html/search/search.js: SearchResults.ProcessKeys, Nav and NavChild, the keys on a page of
-- results. The default action of the browser is what the Boolean result allows.
use paho_mqtt_c.Common.{
  ℕ, zero, suc, ◌+◌, ◌-◌, Bool, true, false, not, List, [], ◌∷◌, Option, none, some, map,
}
use paho_mqtt_c.Common.{ltb, ◌==◌, if◌then◌else◌, get_elem?, set}
use paho_mqtt_c.Site.Results.{Display, block, hidden, unset, is_block, nav_next, nav_prev}
pub mod Laws

pub data EventType : Type 0 where
  keydown keypress keyup other_event : EventType

pub record KeyEvent : Type 0 where
  pub type : EventType
  pub key_code : ℕ

-- `lastKey` and `repeatOn`.
pub record KeyState : Type 0 where
  pub last_key : ℕ
  pub repeat_on : Bool

unfoldable pub process_keys : KeyEvent → KeyState → KeyState × Bool
process_keys e s = elim e.type [
  | keydown ↦ (record { last_key = e.key_code; repeat_on = false }, not (e.key_code == 0))
  | keypress ↦
      if s.repeat_on
      then (s, not (s.last_key == 0))
      else (record s { repeat_on = if s.last_key == 0 then s.repeat_on else true }, false)
  | keyup ↦ (record { last_key = 0; repeat_on = false }, false)
  | other_event ↦ (s, not (s.last_key == 0))
]

-- The element 'Item<i>': the display of its row, and the `div` of its children, if it has one, by its
-- display and the number of its links 'Item<i>_c0', 'Item<i>_c1' and so on.
pub record Item : Type 0 where
  pub display : Display
  pub children : Option (Display × ℕ)

-- What gets the focus. `close` is the call of `searchBox.CloseResultsWindow` before the search field.
pub data Focus : Type 0 where
  stay : Focus
  focus_item : ℕ → Focus
  focus_child : ℕ → ℕ → Focus
  focus_search_field : Focus
  close : Focus

abbrev pub displays : List Item → List Display
displays items = map (λ i. i.display) items

-- The display of the children as the code tests it.
unfoldable pub children_shown : Option Item → Bool
children_shown none = false
children_shown (some item) = elim item.children [
  | none ↦ false
  | some (display, n) ↦ is_block display
]

unfoldable pub child_count : Option Item → ℕ
child_count none = 0
child_count (some item) = elim item.children [ none ↦ 0 | some (display, n) ↦ n ]

-- The loop that looks for the last child, of the element with the index `new_index`.
unfoldable pub last_child : List Item → ℕ → Focus → Focus
last_child items new_index focus =
    let n = child_count (get_elem? items new_index) in
    if n == 0 then focus else focus_child new_index (n - 1)

unfoldable pub up_found : List Item → ℕ → Option ℕ → Focus
up_found items new_index none = focus_search_field
up_found items new_index (some j) =
    if children_shown (get_elem? items j)
    then last_child items new_index (focus_item j)
    else focus_item j

unfoldable pub go_up : List Item → Option ℕ → Focus
go_up items none = focus_search_field
go_up items (some new_index) = up_found items new_index (nav_prev (displays items) (some new_index))

unfoldable pub next_found : Option ℕ → Focus
next_found none = stay
next_found (some j) = focus_item j

unfoldable pub go_next : List Item → ℕ → Focus
go_next items index = next_found (nav_next (displays items) index)

unfoldable pub go_down : List Item → ℕ → Focus
go_down items index =
    let item = get_elem? items index in
    if children_shown item
    then (if child_count item == 0 then go_next items (index + 1) else focus_child index 0)
    else go_next items (index + 1)

-- `elem.style.display` of the children of an element.
unfoldable pub with_children : Display → Option (Display × ℕ) → Option (Display × ℕ)
with_children display none = none
with_children display (some (old, n)) = some (display, n)

unfoldable pub show_children : Display → ℕ → List Item → List Item
show_children display index items = elim (get_elem? items index) [
  | none ↦ items
  | some item ↦ set items index (record item { children = with_children display item.children })
]

unfoldable pub before : ℕ → Option ℕ
before zero = none
before (suc index) = some index

-- The branches of `Nav` on `lastKey`: 38 up, 40 down, 39 right, 37 left, 27 escape, 13 enter. The element
-- with the index exists, since it is the one that got the event.
unfoldable pub nav_key : ℕ → List Item → ℕ → List Item × Focus × Bool
nav_key last_key items index =
    if last_key == 38
    then (items, go_up items (before index), false)
    else if last_key == 40
    then (items, go_down items index, false)
    else if last_key == 39
    then (show_children block index items, stay, false)
    else if last_key == 37
    then (show_children hidden index items, stay, false)
    else if last_key == 27
    then (items, close, false)
    else (items, stay, last_key == 13)

unfoldable pub nav : KeyEvent → KeyState → List Item → ℕ → KeyState × List Item × Focus × Bool
nav e s items index =
    let (s', go) = process_keys e s in
    if e.key_code == 13
    then (s, items, stay, true)
    else if go
    then (let (items', focus, result) = nav_key s'.last_key items index in
        (s', items', focus, result))
    else (s', items, stay, false)

unfoldable pub nav_child_key : ℕ → List Item → ℕ → ℕ → Focus × Bool
nav_child_key last_key items index child =
    if last_key == 38
    then ((if ltb 0 child then focus_child index (child - 1) else focus_item index), false)
    else if last_key == 40
    then (
      (if ltb (child + 1) (child_count (get_elem? items index))
          then focus_child index (child + 1)
          else go_next items (index + 1)),
      false,
    )
    else if last_key == 27
    then (close, false)
    else (stay, last_key == 13)

unfoldable pub nav_child : KeyEvent → KeyState → List Item → ℕ → ℕ → KeyState × Focus × Bool
nav_child e s items index child =
    let (s', go) = process_keys e s in
    if e.key_code == 13
    then (s, stay, true)
    else if go
    then (let (focus, result) = nav_child_key s'.last_key items index child in (s', focus, result))
    else (s', stay, false)

-- ===== src/Site/Children.antt =====
-- docs/MQTTAsync/html/search/search.js: SearchResults.FindChildElement and SearchResults.Toggle. A pointer to an
-- element is the element with its children and the siblings that follow it; the way up, `parentNode`, is the list
-- of the `nextSibling` pointers of the elements that the walk went into, the innermost first.
use paho_mqtt_c.Common.{
  ℕ, zero, suc, ◌+◌, Bool, true, false, ◌&&◌, List, [], ◌∷◌, Option, none, some,
}
use paho_mqtt_c.Common.{◌==◌, if◌then◌else◌}
use paho_mqtt_c.Packet.Wire.{Result, ok, stuck, ◌>>=◌}
use paho_mqtt_c.Site.Results.{Display, block, hidden, is_block}
use paho_mqtt_c.Site.Sections.{same_id}
pub mod Walk

-- `key` tells elements apart.
pub record Tag : Type 0 where
  pub key : ℕ
  pub node_name : List ℕ
  pub class_name : List ℕ
  pub display : Display

-- An element with its `firstChild` and its `nextSibling`.
pub data Element : Type 0 where
  null : Element
  element : Tag → Element → Element → Element

unfoldable pub is_null : Element → Bool
is_null null = true
is_null (element tag child next) = false

-- "div" and "SRChildren"
abbrev pub div : List ℕ
div = 100 ∷ 105 ∷ 118 ∷ []

abbrev pub sr_children : List ℕ
sr_children = 83 ∷ 82 ∷ 67 ∷ 104 ∷ 105 ∷ 108 ∷ 100 ∷ 114 ∷ 101 ∷ 110 ∷ []

-- The inner loop: up to an element that has a sibling behind it, and on to this one; or up to the parent.
unfoldable pub climb : List Element → Element × List Element
climb [] = (null, [])
climb (next ∷ stack) = let rest = climb stack in if is_null next then rest else (next, stack)

-- The number of elements is enough fuel.
unfoldable pub count_elements : Element → ℕ
count_elements null = 0
count_elements (element tag child next) = suc (count_elements child + count_elements next)

unfoldable pub toggle_display : Display → Display
toggle_display display = if is_block display then hidden else block

unfoldable pub toggle_key : ℕ → Element → Element
toggle_key key null = null
toggle_key key (element tag child next) =
    element (if tag.key == key then record tag { display = toggle_display tag.display } else tag)
      (toggle_key key child) (toggle_key key next)

unfoldable pub toggle_found : Option ℕ → Element → Element
toggle_found none children = children
toggle_found (some key) children = toggle_key key children

-- `toLowerCase` of the language is a parameter.
module _ (to_lower_case : List ℕ → List ℕ) where
  unfoldable pub is_div : Tag → Bool
  is_div tag = same_id (to_lower_case tag.node_name) div

  unfoldable pub is_children : Tag → Bool
  is_children tag = is_div tag && same_id tag.class_name sr_children

  -- The element after one that is not the one looked for.
  unfoldable pub step : Tag → Element → Element → List Element → Element × List Element
  step tag child next stack =
      if is_div tag && (if is_null child then false else true)
      then (child, next ∷ stack)
      else if is_null next
      then climb stack
      else (next, stack)

  -- FindChildElement, from an element on; no result is `undefined`.
  unfoldable pub find_child : ℕ → Element → List Element → Result (Option ℕ)
  find_child fuel null stack = ok none
  find_child zero (element tag child next) stack = stuck
  find_child (suc fuel) (element tag child next) stack =
      let (at, up) = step tag child next stack in
      let rest = find_child fuel at up in if is_children tag then ok (some tag.key) else rest

  unfoldable pub find_child_element : Element → Result (Option ℕ)
  find_child_element children = find_child (suc (count_elements children)) children []

  -- Toggle: the children of the element with the id given, afterwards.
  unfoldable pub toggle : Element → Result Element
  toggle children = do key ← find_child_element children; ok (toggle_found key children)

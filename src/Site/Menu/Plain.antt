-- ===== src/Site/Menu/Plain.antt =====
-- The menus of the three sets of pages, written and read.
use paho_mqtt_c.Common.{
  ℕ, ◌≡◌, ◌≢◌, refl, Bool, true, false, not, ◌&&◌, List, [], ◌∷◌, some, All, ◌==◌, arith,
}
use paho_mqtt_c.Site.Menu.{Menu, leaf, children, Items, no_items, item, make_tree}
use paho_mqtt_c.Site.Menu.Data.{async_menu, client_menu}
use paho_mqtt_c.Site.Menu.Internal.{internal_menu}
use paho_mqtt_c.Site.Menu.Html.{read_menu}
use paho_mqtt_c.Site.Menu.Laws.{IsPlain, ArePlain, steps, read_menu_html}

false_ne_true : false ≢ true
false_ne_true e = cc

free_of : ℕ → List ℕ → Bool
free_of stop [] = true
free_of stop (c ∷ s) = not (c == stop) && free_of stop s

and_parts : (a b : Bool) → (a && b) ≡ true → (a ≡ true) × (b ≡ true)
and_parts true b e = (refl, e)
and_parts false b e = absurd (false_ne_true e)

free_of-All : (stop : ℕ) (s : List ℕ) → free_of stop s ≡ true → All (λ c. c ≢ stop) s
unfolding free_of
free_of-All stop [] e = tt
free_of-All stop (c ∷ s) e =
    let (here, later) = and_parts (not (c == stop)) (free_of stop s) e in
    (ground (arith, here), free_of-All stop s later)

-- The test that a menu is plain.
mutual
  is_plain : Menu → Bool
  is_plain leaf = true
  is_plain (children items) = are_plain items

  are_plain : Items → Bool
  are_plain no_items = true
  are_plain (item text url menu items) =
      (free_of 60 text && free_of 34 url) && (is_plain menu && are_plain items)

mutual
  unfolding is_plain IsPlain

  is_plain-IsPlain : (m : Menu) → is_plain m ≡ true → IsPlain m
  is_plain-IsPlain leaf e = tt
  is_plain-IsPlain (children items) e = are_plain-ArePlain items e

  are_plain-ArePlain : (items : Items) → are_plain items ≡ true → ArePlain items
  are_plain-ArePlain no_items e = tt
  are_plain-ArePlain (item text url menu items) e =
      let (texts, below) =
        and_parts (free_of 60 text && free_of 34 url) (is_plain menu && are_plain items) e in
      let (t, u) = and_parts (free_of 60 text) (free_of 34 url) texts in
      let (m, i) = and_parts (is_plain menu) (are_plain items) below in
      (
        free_of-All 60 text t,
        (free_of-All 34 url u, (is_plain-IsPlain menu m, are_plain-ArePlain items i)),
      )

pub async_menu-IsPlain : IsPlain async_menu
unfolding is_plain free_of
async_menu-IsPlain = is_plain-IsPlain async_menu refl

client_menu-IsPlain : IsPlain client_menu
unfolding is_plain free_of
client_menu-IsPlain = is_plain-IsPlain client_menu refl

internal_menu-IsPlain : IsPlain internal_menu
unfolding is_plain free_of
internal_menu-IsPlain = is_plain-IsPlain internal_menu refl

-- For any relative path, a reader of nested lists of links reads each of the three menus back from the HTML that
-- makeTree writes for it, every entry in its place, and nothing is left over.
pub read_menu_menus :
    (rel : List ℕ)
    → (read_menu (steps async_menu) rel (make_tree rel async_menu) ≡ some (async_menu, []))
      × (read_menu (steps client_menu) rel (make_tree rel client_menu) ≡ some (client_menu, []))
      × (read_menu (steps internal_menu) rel (make_tree rel internal_menu)
          ≡ some (internal_menu, []))
read_menu_menus rel = (
  read_menu_html rel async_menu async_menu-IsPlain,
  read_menu_html rel client_menu client_menu-IsPlain,
  read_menu_html rel internal_menu internal_menu-IsPlain,
)

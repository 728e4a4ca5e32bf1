-- ===== src/Site/Menu.antt =====
-- docs/MQTTAsync/html/menu.js: makeTree, which writes the menu of a set of pages as HTML from menudata.js. Texts and
-- addresses are ASCII.
use paho_mqtt_c.Common.{ℕ, List, [], ◌∷◌, ◌++◌}
use paho_mqtt_c.Site.Index.{units}
use Prim.Native.String.{String}
pub mod Data
pub mod Internal
pub mod Html
pub mod Laws
pub mod Plain

-- An object of menudata: without `children`, or with the list of them.
mutual
  pub data Menu : Type 0 where
    leaf : Menu
    children : Items → Menu

  -- Each child with its text, its url and what is below it.
  pub data Items : Type 0 where
    no_items : Items
    item : List ℕ → List ℕ → Menu → Items → Items

-- An entry of the data, without children and with them.
abbrev pub MenuEntry : Type 0
MenuEntry = List ℕ × List ℕ × Menu

abbrev pub menu_entry : String → String → MenuEntry
menu_entry text url = (units text, units url, leaf)

abbrev pub menu_group : String → String → Items → MenuEntry
menu_group text url below = (units text, units url, children below)

infixr 5 ◌▸◌
abbrev pub ◌▸◌ : MenuEntry → Items → Items
(text, url, menu) ▸ items = item text url menu items

-- The pieces of HTML.
abbrev pub ul : List ℕ
ul = units "<ul>"

abbrev pub ul_end : List ℕ
ul_end = units "</ul>"

abbrev pub li : List ℕ
li = units "<li><a href=\""

abbrev pub quote_end : List ℕ
quote_end = units "\">"

abbrev pub a_end : List ℕ
a_end = units "</a>"

abbrev pub li_end : List ℕ
li_end = units "</li>"

-- makeTree
unfoldable mutual
  pub make_tree : List ℕ → Menu → List ℕ
  make_tree rel_path leaf = []
  make_tree rel_path (children items) = ul ++ (make_items rel_path items ++ ul_end)

  pub make_items : List ℕ → Items → List ℕ
  make_items rel_path no_items = []
  make_items rel_path (item text url menu items) =
      li
      ++ (rel_path
          ++ (url
              ++ (quote_end
                  ++ (text
                      ++ (a_end
                          ++ (make_tree rel_path menu ++ (li_end ++ make_items rel_path items)))))))

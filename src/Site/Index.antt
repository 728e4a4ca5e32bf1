-- ===== src/Site/Index.antt =====
-- docs/MQTTAsync/html/search: the tables that the search goes through. createResults of search.js makes
-- the rows of a page of results from one of them. A name is ASCII text.
use Prim.Native.Char.{code}
use Prim.Native.String.{String}
use paho_mqtt_c.Common.{
  ℕ, ◌+◌, ◌-◌, Bool, true, false, ◌&&◌, List, [], ◌∷◌, ◌++◌, Option, none, some, map,
}
use paho_mqtt_c.Common.{leb, ◌==◌, if◌then◌else◌, length}
use paho_mqtt_c.Site.Ids.{convert_to_id, starts_with}
use paho_mqtt_c.Site.Results.{Display, unset, Div}
use paho_mqtt_c.Site.Keys.{Item}
pub mod All1
pub mod All2
pub mod All3
pub mod All4
pub mod All5
pub mod All6
pub mod All7
pub mod All8
pub mod All9
pub mod Classes1
pub mod Functions1
pub mod Functions2
pub mod Variables1
pub mod Variables2
pub mod Variables3
pub mod Typedefs1
pub mod Enumvalues1
pub mod Enumvalues2
pub mod Enumvalues3
pub mod Defines1
pub mod Defines2
pub mod Tables
pub mod Laws
pub mod Typed
pub mod Finding

-- The address of a place, whether the page opens in the parent window, and what is shown for it.
pub data Link : Type 0 where
  link : String → ℕ → String → Link

-- An entry of `searchData`: the id, the name and its places.
pub data Entry : Type 0 where
  entry : String → String → List Link → Entry

-- The units of an ASCII text.
abbrev pub units : String → List ℕ
units String.[] = []
units (String.◌∷◌ c s) = code c ∷ units s

-- `toLowerCase` of an ASCII unit.
abbrev pub lower_unit : ℕ → ℕ
lower_unit c = if leb 65 c && leb c 90 then c + 32 else c

-- The row that `createResults` makes of an entry: 83, 82 and 95 are 'SR_'.
unfoldable pub create_row : Entry → Div
create_row (entry id name links) = record {
  id = 83 ∷ 82 ∷ 95 ∷ units id;
  is_result = true;
  display = unset;
}

unfoldable pub create_results : List Entry → List Div
create_results search_data = map create_row search_data

-- An entry with one place has no children.
unfoldable pub create_item : Entry → Item
create_item (entry id name links) = record {
  display = unset;
  children = if length links == 1 then none else some (unset, length links);
}

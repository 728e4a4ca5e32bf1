-- ===== src/Site/Index/Laws.antt =====
-- Every entry of the index can be found.
use paho_mqtt_c.Common.{ℕ, ◌≡◌, refl, ap, arith, not, Bool, true, false, ◌&&◌, List, [], ◌∷◌, ◌++◌}
use paho_mqtt_c.Common.{Option, none, some, map, ltb, ◌==◌, take, drop, get_elem?, All, ==_iff}
use paho_mqtt_c.Common.{length}
use paho_mqtt_c.Site.Ids.{
  convert_to_id, starts_with, convert_unit, is_id_unit, to_string16, hex_digit,
}
use paho_mqtt_c.Site.Ids.Laws.{IsUnit}
use paho_mqtt_c.Site.Results.Laws.{IsNamed}
use paho_mqtt_c.Site.Box.{index_from}
use paho_mqtt_c.Site.Index.{Entry, entry, units, lower_unit, create_row}
use paho_mqtt_c.Site.Index.Tables.{Table, tables, index_sections_with_content}

-- `toLowerCase` of an ASCII text.
abbrev pub lower : List ℕ → List ℕ
lower s = map lower_unit s

abbrev pub name_of : Entry → List ℕ
name_of (entry id name links) = lower (units name)

abbrev pub contents : List (List ℕ)
contents = map units index_sections_with_content

-- A text that is not empty, without a space in front or behind.
unfoldable pub no_space_behind : List ℕ → Bool
no_space_behind [] = false
no_space_behind (c ∷ []) = not (c == 32)
no_space_behind (c ∷ d ∷ cs) = no_space_behind (d ∷ cs)

unfoldable pub is_trimmed : List ℕ → Bool
is_trimmed [] = false
is_trimmed (c ∷ cs) = not (c == 32) && no_space_behind (c ∷ cs)

-- The row of the entry has the id of its name, and the search in the part of the table opens the page of
-- the table for the first character of the name.
pub record IsFindable (t : Table) (e : Entry) : Type 0 where
  pub suffix : List ℕ
  pub named : IsNamed lower (create_row e) (name_of e) suffix
  pub trimmed : is_trimmed (name_of e) ≡ true
  pub content : List ℕ
  pub part : get_elem? contents t.section ≡ some content
  pub page : index_from 0 (take 1 (name_of e)) content ≡ some t.page

all_units : List ℕ → Bool
all_units [] = true
all_units (c ∷ cs) = ltb c 65536 && all_units cs

all_units_sound : (s : List ℕ) → all_units s ≡ true → All IsUnit s
unfolding all_units
all_units_sound [] h = tt
all_units_sound (c ∷ cs) h = (ground arith, all_units_sound cs (ground arith))

starts_with_sound : (p s : List ℕ) → starts_with p s ≡ true → s ≡ p ++ drop (length p) s
unfolding starts_with
starts_with_sound [] s h = refl
starts_with_sound (c ∷ p) [] h = cc
starts_with_sound (c ∷ p) (d ∷ s) h =
    let same : d ≡ c = ground arith in
    let rest : s ≡ p ++ drop (length p) s = starts_with_sound p s (ground arith) in cc

is_page : ℕ → Option ℕ → Bool
is_page page none = false
is_page page (some i) = i == page

is_page_sound : (page : ℕ) (r : Option ℕ) → is_page page r ≡ true → r ≡ some page
unfolding is_page
is_page_sound page none h = cc
is_page_sound page (some i) h = ap some ((==_iff i page).0 h)

-- The test of an entry on a page with the characters of its part.
entry_good : ℕ → List ℕ → Entry → Bool
entry_good page content e =
    starts_with (115 ∷ 114 ∷ 95 ∷ convert_to_id (name_of e)) (lower (create_row e).id)
    && (is_trimmed (name_of e)
        && (all_units (name_of e) && is_page page (index_from 0 (take 1 (name_of e)) content)))

part_good : ℕ → List Entry → Option (List ℕ) → Bool
part_good page [] part = true
part_good page (e ∷ es) none = false
part_good page (e ∷ es) (some content) =
    entry_good page content e && part_good page es (some content)

tables_good : List Table → Bool
tables_good [] = true
tables_good (t ∷ ts) =
    part_good t.page t.search_data (get_elem? contents t.section) && tables_good ts

and-true : (a b : Bool) → (a && b) ≡ true → (a ≡ true) × (b ≡ true)
and-true true b h = (refl, h)
and-true false b h = cc

create_row-is_result : (e : Entry) → (create_row e).is_result ≡ true
unfolding create_row
create_row-is_result (entry id name links) = refl

entry_good_sound :
    (t : Table) (content : List ℕ) (e : Entry)
    → get_elem? contents t.section ≡ some content
    → entry_good t.page content e ≡ true
    → IsFindable t e
unfolding entry_good
entry_good_sound t content e at h =
    let (id, rest) = and-true _ _ h in
    let (trimmed, rest') = and-true _ _ rest in
    let (name_units, page) = and-true _ _ rest' in
    record {
      suffix = _;
      named = record {
        result = create_row-is_result e;
        id =
            starts_with_sound (115 ∷ 114 ∷ 95 ∷ convert_to_id (name_of e)) (lower (create_row e).id)
              id;
        units = all_units_sound (name_of e) name_units;
      };
      trimmed = trimmed;
      content = content;
      part = at;
      page = is_page_sound t.page (index_from 0 (take 1 (name_of e)) content) page;
    }

part_good_sound :
    (t : Table) (es : List Entry) (part : Option (List ℕ))
    → get_elem? contents t.section ≡ part
    → part_good t.page es part ≡ true
    → All (IsFindable t) es
unfolding part_good
part_good_sound t [] part at h = tt
part_good_sound t (e ∷ es) none at h = cc
part_good_sound t (e ∷ es) (some content) at h =
    let (one, rest) = and-true _ _ h in
    (entry_good_sound t content e at one, part_good_sound t es (some content) at rest)

tables_good_sound :
    (ts : List Table) → tables_good ts ≡ true → All (λ t. All (IsFindable t) t.search_data) ts
unfolding tables_good
tables_good_sound [] h = tt
tables_good_sound (t ∷ ts) h =
    let (one, rest) = and-true _ _ h in
    (
      part_good_sound t t.search_data (get_elem? contents t.section) refl one,
      tables_good_sound ts rest,
    )

tables_good_run : tables_good tables ≡ true
unfolding tables_good part_good entry_good is_trimmed no_space_behind is_page all_units create_row
    index_from starts_with convert_to_id convert_unit is_id_unit to_string16 hex_digit
tables_good_run = refl

-- Every entry of every table of the index has the id that convertToId gives for its name, with a suffix,
-- a name without a space in front or behind, and stands in the table of the page that a search opens for the first character of its name.
pub tables-IsFindable : All (λ t. All (IsFindable t) t.search_data) tables
tables-IsFindable = tables_good_sound tables tables_good_run

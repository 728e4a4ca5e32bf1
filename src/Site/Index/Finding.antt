-- ===== src/Site/Index/Finding.antt =====
-- A search for the name of an entry shows its row.
use paho_mqtt_c.Common.{ℕ, zero, suc, ◌≡◌, refl, ap, arith, true, List, [], ◌∷◌}
use paho_mqtt_c.Common.{Option, none, some, get_elem?}
use paho_mqtt_c.Common.{All, take, sym, ◌∙◌, some_ne_none, some-injective}
use mathlib.Core.Path.{subst}
use paho_mqtt_c.Site.Box.{index_from}
use paho_mqtt_c.Site.Ids.{starts_with}
use paho_mqtt_c.Site.Results.{ResultsPage, block, hidden, unset, search}
use paho_mqtt_c.Site.Results.Laws.{wanted, search_shows}
use paho_mqtt_c.Site.Index.{Entry, entry, units, create_row, create_results}
use paho_mqtt_c.Site.Index.Tables.{Table, tables}
use paho_mqtt_c.Site.Index.Laws.{
  lower, name_of, contents, IsFindable, is_trimmed, tables-IsFindable,
}
use paho_mqtt_c.Site.Index.Typed.{AnyCase, padded, lower-AnyCase, is_trimmed-lower, wanted-padded}

-- The name of an entry as it is written.
abbrev pub written : Entry → List ℕ
written (entry id name links) = units name

written-name_of : (e : Entry) → lower (written e) ≡ name_of e
written-name_of (entry id name links) = refl

-- The page of a table as it is opened.
abbrev pub opened : Table → ResultsPage
opened t = record {
  rows = create_results t.search_data;
  searching = unset;
  no_matches = hidden;
  last_match_count = 0;
}

starts_with_self : (s : List ℕ) → starts_with s s ≡ true
unfolding starts_with
starts_with_self [] = refl
starts_with_self (c ∷ s) = ground (arith, starts_with_self s)

get_elem?-create_results :
    (entries : List Entry) (i : ℕ) (e : Entry)
    → get_elem? entries i ≡ some e
    → get_elem? (create_results entries) i ≡ some (create_row e)
unfolding create_results
get_elem?-create_results [] i e h = cc
get_elem?-create_results (x ∷ entries) zero e h =
    ap (λ (o : Option Entry). elim o [ none ↦ none | some y ↦ some (create_row y) ]) h
get_elem?-create_results (x ∷ entries) (suc i) e h = get_elem?-create_results entries i e h

get_elem?-All {ℓ κ} :
    {A : Type ℓ} (P : A → Type κ) (xs : List A) (i : ℕ) (x : A)
    → get_elem? xs i ≡ some x
    → All P xs
    → P x
get_elem?-All P [] i x e p = absurd (some_ne_none x (sym e))
get_elem?-All P (y ∷ xs) zero x e p = subst P (some-injective y x e) p.0
get_elem?-All P (y ∷ xs) (suc i) x e p = get_elem?-All P xs i x e p.1

-- Every entry of every table of the index is found by its name, in letters of either case and with any number of
-- spaces in front and behind: the characters of the part of the index have the first one of the name, in lower
-- case, at the number of the page of the table, and after the search on that page the row of the entry is shown.
pub search_finds :
    (unescape : List ℕ → List ℕ) (query typed : List ℕ) (before behind k i : ℕ) (t : Table)
    (e : Entry)
    → get_elem? tables k ≡ some t
    → get_elem? t.search_data i ≡ some e
    → AnyCase typed (written e)
    → ((content : List ℕ) × (get_elem? contents t.section ≡ some content)
        × (index_from 0 (take 1 (lower typed)) content ≡ some t.page))
      × (get_elem? (search lower unescape query (padded before typed behind) (opened t)).rows i
          ≡ some (record (create_row e) { display = block }))
search_finds unescape query typed before behind k i t e at_t at_e same =
    let entries =
      get_elem?-All (λ x. All (IsFindable x) x.search_data) tables k t at_t tables-IsFindable in
    let f = get_elem?-All (IsFindable t) t.search_data i e at_e entries in
    let name = name_of e in
    let low : lower typed ≡ name = lower-AnyCase typed (written e) same ∙ written-name_of e in
    let trim : is_trimmed typed ≡ true =
      sym (is_trimmed-lower typed) ∙ ap is_trimmed low ∙ f.trimmed in
    let want : wanted lower unescape query (padded before typed behind) ≡ name =
      wanted-padded unescape query typed before behind trim ∙ low in
    let shows =
      search_shows lower unescape query (padded before typed behind) (opened t)
        (rw want f.named.units) in
    (
      (f.content, f.part, rw low f.page),
      rw (want, starts_with_self name) at
          (shows.0 i (create_row e) name f.suffix (get_elem?-create_results t.search_data i e at_e)
            f.named (rw want (omega arith))),
    )

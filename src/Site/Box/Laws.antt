-- ===== src/Site/Box/Laws.antt =====
-- The mark on the selection, the page that a search opens, and the keys on the selection.
use paho_mqtt_c.Common.{ℕ, zero, suc, ◌+◌, ◌-◌, ◌<◌, ◌≤◌, ◌≡◌, refl, ap, ◌∙◌, arith, inl, inr}
use paho_mqtt_c.Common.{
  Bool, true, false, ◌&&◌, ◌||◌, not, List, [], ◌∷◌, Option, none, some, ltb, ◌==◌,
}
use paho_mqtt_c.Common.{Bool-cases, lt→ltb, length, get_elem?, some-injective}
use mathlib.Core.Path.{subst}
use paho_mqtt_c.Site.Box.{SearchBox, Config, same_text, strip_spaces, select_item_count, set_marks}
use paho_mqtt_c.Site.Box.{
  select_item_set, close_selection_window, search_in, search, on_select_item,
}
use paho_mqtt_c.Site.Box.{on_search_select_key, close_selected}
use paho_mqtt_c.Site.Index.{units}

-- The index is at most the number of items, and the item with the index has the mark, no other one.
pub record IsMarked (b : SearchBox) : Type 0 where
  pub bounded : b.search_index ≤ length b.marks
  pub marked : (i : ℕ) → i < length b.marks → get_elem? b.marks i ≡ some (i == b.search_index)

length-set_marks : (j id : ℕ) (marks : List Bool) → length (set_marks j id marks) ≡ length marks
unfolding set_marks
length-set_marks j id [] = refl
length-set_marks j id (mark ∷ marks) = ap suc (length-set_marks (j + 1) id marks)

set_marks-get_elem? :
    (j id : ℕ) (marks : List Bool) (i : ℕ)
    → i < length marks
    → get_elem? (set_marks j id marks) i ≡ some (j + i == id)
unfolding set_marks
set_marks-get_elem? j id [] i h = absurd (omega arith)
set_marks-get_elem? j id (mark ∷ marks) zero h =
    let same : j ≡ j + 0 = omega arith in ap (λ n. some (n == id)) same
set_marks-get_elem? j id (mark ∷ marks) (suc i) h =
    let same : j + 1 + i ≡ j + suc i = omega arith in
    set_marks-get_elem? (j + 1) id marks i (omega arith) ∙ ap (λ n. some (n == id)) same

select_item_set-IsMarked :
    (id : ℕ) (b : SearchBox)
    → id ≤ length b.marks
    → IsMarked (select_item_set id (record b { search_index = id }))
unfolding select_item_set
select_item_set-IsMarked id b h = record {
  bounded = rw (length-set_marks 0 id b.marks) h;
  marked = λ i l.
      set_marks-get_elem? 0 id b.marks i (rw (length-set_marks 0 id b.marks) at l)
      ∙ ap (λ n. some (n == id)) (omega arith);
}

close_selected-IsMarked :
    (r : Option SearchBox) (b' : SearchBox)
    → ((x : SearchBox) → r ≡ some x → IsMarked x)
    → close_selected r ≡ some b'
    → IsMarked b'
unfolding close_selected close_selection_window
close_selected-IsMarked none b' h e = cc
close_selected-IsMarked (some b) b' h e =
    let v = h b refl in
    subst (λ x. IsMarked x) (some-injective _ b' e)
      (record { bounded = v.bounded; marked = v.marked })

module _ (config : Config) where
  -- A search leaves the selection alone.
  search_in-IsMarked :
      (content name : Option (List ℕ)) (b b' : SearchBox)
      → IsMarked b
      → search_in config content name b ≡ some b'
      → IsMarked b'
  unfolding search_in
  search_in-IsMarked none name b b' v e = cc
  search_in-IsMarked (some c) none b b' v e = cc
  search_in-IsMarked (some c) (some n) b b' v e =
      subst (λ x. IsMarked x) (some-injective _ b' e)
        (record { bounded = v.bounded; marked = v.marked })

  on_select_item-IsMarked :
      (id : ℕ) (b b' : SearchBox)
      → id ≤ length b.marks
      → on_select_item config id b ≡ some b'
      → IsMarked b'
  unfolding on_select_item search
  on_select_item-IsMarked id b b' h e =
      let set = select_item_set id (record b { search_index = id }) in
      let v = select_item_set-IsMarked id b h in
      elim (Bool-cases (not (same_text (strip_spaces set.field) []) && set.search_active)) [
        | inl go ↦ search_in-IsMarked _ _ set b' v (rw go at e)
        | inr quiet ↦ subst (λ x. IsMarked x) (some-injective set b' (rw quiet at e)) v
      ]

  -- Every key on the selection that ends without an error leaves the mark at the item with the index, and
  -- the index at most the number of items.
  pub on_search_select_key-IsMarked :
      (key : ℕ) (b b' : SearchBox)
      → IsMarked b
      → on_search_select_key config key b ≡ some b'
      → IsMarked b'
  unfolding on_search_select_key select_item_count
  on_search_select_key-IsMarked key b b' v e =
      elim (Bool-cases (key == 40 && ltb b.search_index (length b.marks))) [
        | inl down ↦
            on_select_item-IsMarked (b.search_index + 1) b b' (ground (arith, down)) (rw down at e)
        | inr not_down ↦ elim (Bool-cases (key == 38 && ltb 0 b.search_index)) [
          | inl up ↦
              on_select_item-IsMarked (b.search_index - 1) b b' (omega (arith, v.bounded))
                (rw up at (rw not_down at e))
          | inr not_up ↦ elim (Bool-cases (key == 13 || key == 27)) [
            | inl close ↦
                close_selected-IsMarked (on_select_item config b.search_index b) b'
                  (λ x e'. on_select_item-IsMarked b.search_index b x v.bounded e')
                  (rw close at (rw not_up at (rw not_down at e)))
            | inr other ↦
                subst (λ x. IsMarked x)
                  (some-injective b b' (rw other at (rw not_up at (rw not_down at e)))) v
          ]
        ]
      ]

get_elem?-past {ℓ} : {A : Type ℓ} (xs : List A) (i : ℕ) → length xs ≤ i → get_elem? xs i ≡ none
get_elem?-past [] i h = refl
get_elem?-past (x ∷ xs) zero h = absurd (omega arith)
get_elem?-past (x ∷ xs) (suc i) h = get_elem?-past xs i (omega arith)

-- '/nomatches'
abbrev pub no_matches_page : List ℕ
no_matches_page = units "/nomatches"

module _ (config : Config) where
  -- The down key on the last item of the selection ends in an error when there is a text to search for:
  -- the code tests the index against the number of items, and not the next index.
  pub on_search_select_key_error :
      (b : SearchBox)
      → b.search_index + 1 ≡ length b.marks
      → length config.sections_with_content ≡ length b.marks
      → same_text (strip_spaces b.field) [] ≡ false
      → b.search_active ≡ true
      → on_search_select_key config 40 b ≡ none
  unfolding on_search_select_key select_item_count on_select_item select_item_set search
  on_search_select_key_error b last parts text active =
      rw (lt→ltb b.search_index (length b.marks) (omega (arith, last))) (
        rw (text, active)
          (rw
            (get_elem?-past config.sections_with_content (b.search_index + 1)
              (omega (arith, last, parts)))
            (unfold search_in in refl)))

-- ===== src/Site/Sections/Folders.antt =====
-- The rows that toggleFolder hides and shows. Only the ids of the rows and whether they are visible matter.
use paho_mqtt_c.Common.{ℕ, ◌≡◌, ◌≢◌, refl, sym, ap, ◌∙◌, Bool, true, false, List, [], ◌∷◌, ◌++◌}
use paho_mqtt_c.Common.{
  some, All, map, Option-cases, some_ne_none, if◌then◌else◌, ◌==◌, ==_iff, Bool-cases, inl, inr,
}
use paho_mqtt_c.Site.Ids.{starts_with}
use paho_mqtt_c.Site.Sections.{
  Row, row_, same_id, fold_case, behind, number_end, is_child, is_below,
}
use paho_mqtt_c.Site.Sections.{
  first_child_visible, hide_below, show_child, fold_row, fold_at, toggle_folder,
}
use paho_mqtt_c.Site.Sections.Levels.{shown, shown-update_stripes}

-- What is seen of a row.
abbrev View : Type 0
View = List ℕ × Bool

first_visible : List ℕ → List View → Bool
first_visible id [] = false
first_visible id ((s, v) ∷ vs) = if is_child id s then v else first_visible id vs

abbrev hide : List ℕ → View → View
hide id (s, v) = (s, if is_below id s then false else v)

abbrev show : List ℕ → View → View
show id (s, v) = (s, if is_child id s then true else v)

fold_rest : List ℕ → List View → List View
fold_rest id vs = if first_visible id vs then map (hide id) vs else map (show id) vs

fold_view : List ℕ → List View → List View
fold_view id [] = []
fold_view id ((s, v) ∷ vs) =
    if same_id s (row_ ++ id) then (s, v) ∷ fold_rest id vs else (s, v) ∷ fold_view id vs

first_child_visible_lem :
    (id : List ℕ) (rows : List Row)
    → first_child_visible id rows ≡ first_visible id (map shown rows)
unfolding first_child_visible first_visible
first_child_visible_lem id [] = refl
first_child_visible_lem id (r ∷ rows) = rw (first_child_visible_lem id rows) refl

shown-hide_below :
    (id : List ℕ) (rows : List Row)
    → map shown (map (hide_below id) rows) ≡ map (hide id) (map shown rows)
unfolding hide_below
shown-hide_below id [] = refl
shown-hide_below id (r ∷ rows) = elim (Bool-cases (is_below id r.id)) [
  | inl e ↦ rw (e, shown-hide_below id rows) refl
  | inr e ↦ rw (e, shown-hide_below id rows) refl
]

shown-show_child :
    (id : List ℕ) (rows : List Row)
    → map shown (map (show_child id) rows) ≡ map (show id) (map shown rows)
unfolding show_child
shown-show_child id [] = refl
shown-show_child id (r ∷ rows) = elim (Bool-cases (is_child id r.id)) [
  | inl e ↦ rw (e, shown-show_child id rows) refl
  | inr e ↦ rw (e, shown-show_child id rows) refl
]

shown-fold_row :
    (id : List ℕ) (r : Row) (rows : List Row)
    → map shown (fold_row id r rows) ≡ shown r ∷ fold_rest id (map shown rows)
unfolding fold_row fold_rest
shown-fold_row id r rows =
    rw (first_child_visible_lem id rows) (elim (Bool-cases (first_visible id (map shown rows))) [
      | inl e ↦ rw (e, shown-hide_below id rows) refl
      | inr e ↦ rw (e, shown-show_child id rows) refl
    ])

shown-fold_at :
    (id : List ℕ) (rows : List Row) → map shown (fold_at id rows) ≡ fold_view id (map shown rows)
unfolding fold_at fold_view
shown-fold_at id [] = refl
shown-fold_at id (r ∷ rows) = elim (Bool-cases (same_id r.id (row_ ++ id))) [
  | inl e ↦ rw e (shown-fold_row id r rows)
  | inr e ↦ rw (e, shown-fold_at id rows) refl
]

shown-toggle_folder :
    (id : List ℕ) (rows : List Row)
    → map shown (toggle_folder id rows) ≡ fold_view id (map shown rows)
unfolding toggle_folder
shown-toggle_folder id rows = shown-update_stripes (fold_at id rows) ∙ shown-fold_at id rows

-- No row in front of the one that is clicked has its id.
abbrev pub Others : List ℕ → List Row → Type 0
Others id rows = All (λ r. same_id r.id (row_ ++ id) ≡ false) rows

fold_view-append :
    (id : List ℕ) (xs : List Row) (r : Row) (vs : List View)
    → Others id xs
    → same_id r.id (row_ ++ id) ≡ true
    → fold_view id (map shown xs ++ shown r ∷ vs) ≡ map shown xs ++ shown r ∷ fold_rest id vs
unfolding fold_view
fold_view-append id [] r vs o e = rw e refl
fold_view-append id (x ∷ xs) r vs o e = rw (o.0, fold_view-append id xs r vs o.1 e) refl

-- Ids without capital letters.
abbrev pub IsLower : List ℕ → Type 0
IsLower s = All (λ c. fold_case c ≡ c) s

behind-starts_with :
    (p s rest : List ℕ) → IsLower p → IsLower s → behind p s ≡ some rest → starts_with p s ≡ true
unfolding behind starts_with
behind-starts_with [] s rest h k e = refl
behind-starts_with (c ∷ p) [] rest h k e = absurd (some_ne_none rest (sym e))
behind-starts_with (c ∷ p) (d ∷ s) rest h k e = elim (Bool-cases (fold_case c == fold_case d)) [
  | inl q ↦
      let same : (c == d) ≡ true =
        (==_iff c d).1 (sym h.0 ∙ (==_iff (fold_case c) (fold_case d)).0 q ∙ k.0) in
      rw same (behind-starts_with p s rest h.1 k.1 (rw q at e))
  | inr q ↦ absurd (some_ne_none rest (sym (rw q at e)))
]

row-IsLower : (id : List ℕ) → IsLower id → IsLower (row_ ++ id)
unfolding fold_case
row-IsLower id h = (refl, (refl, (refl, (refl, h))))

false_ne_true : false ≢ true
false_ne_true e = cc

-- The children of a row are below it.
is_child-is_below :
    (id s : List ℕ) → IsLower id → IsLower s → is_child id s ≡ true → is_below id s ≡ true
unfolding is_child is_below
is_child-is_below id s h k e = elim (Option-cases (behind (row_ ++ id) s)) [
  | inl q ↦ absurd (false_ne_true (unfold number_end in rw q at e))
  | inr (rest, q) ↦ behind-starts_with (row_ ++ id) s rest (row-IsLower id h) k q
]

abbrev pub LowerIds : List Row → Type 0
LowerIds rows = All (λ r. IsLower r.id) rows

first_visible-hide :
    (id : List ℕ) (rows : List Row)
    → IsLower id
    → LowerIds rows
    → first_visible id (map (hide id) (map shown rows)) ≡ false
unfolding first_visible
first_visible-hide id [] h k = refl
first_visible-hide id (r ∷ rows) h k = elim (Bool-cases (is_child id r.id)) [
  | inl e ↦ rw (e, is_child-is_below id r.id h k.0 e) refl
  | inr e ↦ rw (e, first_visible-hide id rows h k.1) refl
]

-- After closing and opening: the children are shown, what is below them is hidden, the rest is as it was.
abbrev pub refolded : List ℕ → Row → List ℕ × Bool
refolded id r =
    (r.id, if is_child id r.id then true else if is_below id r.id then false else r.visible)

show-hide :
    (id : List ℕ) (rows : List Row)
    → map (show id) (map (hide id) (map shown rows)) ≡ map (refolded id) rows
show-hide id [] = refl
show-hide id (r ∷ rows) = ap (λ l. refolded id r ∷ l) (show-hide id rows)

hide-shown :
    (id : List ℕ) (rows : List Row)
    → map (hide id) (map shown rows)
      ≡ map (λ y. (y.id, if is_below id y.id then false else y.visible)) rows
hide-shown id [] = refl
hide-shown id (r ∷ rows) = ap (λ l. hide id (shown r) ∷ l) (hide-shown id rows)

shown-append : (xs ys : List Row) → map shown (xs ++ ys) ≡ map shown xs ++ map shown ys
shown-append [] ys = refl
shown-append (x ∷ xs) ys = ap (λ l. shown x ∷ l) (shown-append xs ys)

fold_rest_visible :
    (id : List ℕ) (vs : List View) → first_visible id vs ≡ true → fold_rest id vs ≡ map (hide id) vs
unfolding fold_rest
fold_rest_visible id vs e = rw e refl

fold_rest_hidden :
    (id : List ℕ) (vs : List View)
    → first_visible id vs ≡ false
    → fold_rest id vs ≡ map (show id) vs
unfolding fold_rest
fold_rest_hidden id vs e = rw e refl

-- toggleFolder, on a table whose ids have no capital letters and in which the first child of the row clicked is
-- visible, hides just the rows after it that are below it, the rows of its own folder and of those in it; a
-- second click shows its children again, but not the rows below them. No other row is shown or hidden.
pub toggle_folder_twice :
    (id : List ℕ) (xs : List Row) (r : Row) (ys : List Row)
    → Others id xs
    → same_id r.id (row_ ++ id) ≡ true
    → IsLower id
    → LowerIds ys
    → first_child_visible id ys ≡ true
    → (map shown (toggle_folder id (xs ++ r ∷ ys))
        ≡ map shown xs
          ++ shown r ∷ map (λ y. (y.id, if is_below id y.id then false else y.visible)) ys)
      × (map shown (toggle_folder id (toggle_folder id (xs ++ r ∷ ys)))
          ≡ map shown xs ++ shown r ∷ map (refolded id) ys)
toggle_folder_twice id xs r ys o e h k v =
    let rows = xs ++ r ∷ ys in
    let hidden = map (hide id) (map shown ys) in
    let around : List View → List View = λ l. map shown xs ++ shown r ∷ l in
    let once : map shown (toggle_folder id rows) ≡ around hidden =
      shown-toggle_folder id rows
      ∙ ap (fold_view id) (shown-append xs (r ∷ ys))
      ∙ fold_view-append id xs r (map shown ys) o e
      ∙ ap around (fold_rest_visible id (map shown ys) (sym (first_child_visible_lem id ys) ∙ v)) in
    (
      once ∙ ap around (hide-shown id ys),
      shown-toggle_folder id (toggle_folder id rows)
          ∙ ap (fold_view id) once
          ∙ fold_view-append id xs r hidden o e
          ∙ ap around (fold_rest_hidden id hidden (first_visible-hide id ys h k) ∙ show-hide id ys),
    )

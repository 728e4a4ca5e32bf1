-- ===== src/Site/Results/Laws.antt =====
-- What SearchResults.Search shows.
use paho_mqtt_c.Common.{ℕ, zero, suc, ◌+◌, ◌≤◌, ◌≡◌, refl, ap, ◌∙◌, arith, inl, inr}
use paho_mqtt_c.Common.{
  Bool, true, false, ◌&&◌, List, [], ◌∷◌, ◌++◌, none, some, ◌==◌, if◌then◌else◌,
}
use paho_mqtt_c.Common.{Bool-cases, length, All, get_elem?}
use paho_mqtt_c.Site.Ids.{convert_to_id, starts_with}
use paho_mqtt_c.Site.Ids.Laws.{IsUnit, starts_with-convert_to_id-append}
use paho_mqtt_c.Site.Results.{block, hidden, Div, ResultsPage, strip_digits, strip_sr}
use paho_mqtt_c.Site.Results.{
  search_word, search_text, row_matches, search_row, search_rows, search,
}
use paho_mqtt_c.Site.Results.{is_block}

abbrev one_if : Bool → ℕ
one_if b = if b then 1 else 0

-- The number of the rows of results that are shown.
abbrev pub shown : List Div → ℕ
shown [] = 0
shown (row ∷ rows) = one_if (row.is_result && is_block row.display) + shown rows

-- The text that `search` compares the rows with, before it is converted to an id.
abbrev pub wanted : (List ℕ → List ℕ) → (List ℕ → List ℕ) → List ℕ → List ℕ → List ℕ
wanted to_lower_case unescape query word =
    search_text to_lower_case (search_word unescape query word)

-- A row of results whose id is 'SR_', the id of a name and a suffix, up to its case.
pub record IsNamed (to_lower_case : List ℕ → List ℕ) (row : Div) (name suffix : List ℕ)
    : Type 0 where
  pub result : row.is_result ≡ true
  pub id : to_lower_case row.id ≡ 115 ∷ 114 ∷ 95 ∷ (convert_to_id name ++ suffix)
  pub units : All IsUnit name

strip_sr_lem : (s : List ℕ) → strip_sr (115 ∷ 114 ∷ 95 ∷ s) ≡ s
unfolding strip_sr strip_digits
strip_sr_lem s = refl

row_shown :
    (row : Div) (r m : Bool)
    → row.is_result ≡ r
    → let row' = if r then record row { display = if m then block else hidden } else row in
      one_if (row'.is_result && is_block row'.display) ≡ one_if (r && m)
unfolding is_block
row_shown row true true e = rw e refl
row_shown row true false e = rw e refl
row_shown row false m e = rw e refl

module _ (to_lower_case : List ℕ → List ℕ) where
  search_row_shown :
      (text : List ℕ) (row : Div)
      → one_if (
          (search_row to_lower_case text row).is_result
          && is_block (search_row to_lower_case text row).display)
        ≡ one_if (row.is_result && row_matches to_lower_case text row)
  unfolding search_row
  search_row_shown text row = row_shown row row.is_result (row_matches to_lower_case text row) refl

  search_rows_count :
      (text : List ℕ) (rows : List Div) (matches : ℕ)
      → (search_rows to_lower_case text rows matches).1
        ≡ matches + shown (search_rows to_lower_case text rows matches).0
  unfolding search_rows
  search_rows_count text [] matches = omega arith
  search_rows_count text (row ∷ rows) matches =
      rw (search_row_shown text row)
        (elim (Bool-cases (row.is_result && row_matches to_lower_case text row)) [
          | inl e ↦ rw e (omega (arith, search_rows_count text rows (matches + 1)))
          | inr e ↦ rw e (omega (arith, search_rows_count text rows matches))
        ])

  search_rows-get_elem? :
      (text : List ℕ) (rows : List Div) (matches i : ℕ) (row : Div)
      → get_elem? rows i ≡ some row
      → get_elem? (search_rows to_lower_case text rows matches).0 i
        ≡ some (search_row to_lower_case text row)
  unfolding search_rows
  search_rows-get_elem? text [] matches i row e = cc
  search_rows-get_elem? text (r ∷ rows) matches zero row e =
      ap (λ o. elim o [ none ↦ none | some d ↦ some (search_row to_lower_case text d) ]) e
  search_rows-get_elem? text (r ∷ rows) matches (suc i) row e =
      search_rows-get_elem? text rows
        (if r.is_result && row_matches to_lower_case text r then matches + 1 else matches) i row e

  search_row_named :
      (text name suffix : List ℕ) (row : Div)
      → IsNamed to_lower_case row name suffix
      → All IsUnit text
      → length text ≤ length name
      → search_row to_lower_case (convert_to_id text) row
        ≡ record row { display = if starts_with text name then block else hidden }
  unfolding search_row row_matches
  search_row_named text name suffix row n u h =
      rw
        (
          n.result,
          n.id,
          strip_sr_lem (convert_to_id name ++ suffix),
          starts_with-convert_to_id-append text name suffix u n.units h,
        )
        refl

  -- After a search, a row of results with a name that is not shorter than the text is shown just if the
  -- name begins with the text, both in lower case and the text without the spaces around it; a `div`
  -- that is no row of results is as it was; the number of matches is that of the rows shown, and the
  -- message for no matches is shown just if there is none.
  pub search_shows :
      (unescape : List ℕ → List ℕ) (query word : List ℕ) (page : ResultsPage)
      → All IsUnit (wanted to_lower_case unescape query word)
      → let after = search to_lower_case unescape query word page in
        ((i : ℕ) (row : Div) (name suffix : List ℕ)
          → get_elem? page.rows i ≡ some row
          → IsNamed to_lower_case row name suffix
          → length (wanted to_lower_case unescape query word) ≤ length name
          → get_elem? after.rows i
            ≡ some (record row {
              display =
                  if starts_with (wanted to_lower_case unescape query word) name
                  then block
                  else hidden;
            }))
        × ((i : ℕ) (row : Div)
            → get_elem? page.rows i ≡ some row
            → row.is_result ≡ false
            → get_elem? after.rows i ≡ some row)
        × (after.last_match_count ≡ shown after.rows)
        × (after.no_matches ≡ (if shown after.rows == 0 then block else hidden))
  unfolding search
  search_shows unescape query word page u =
      let text = convert_to_id (wanted to_lower_case unescape query word) in
      let count : (search_rows to_lower_case text page.rows 0).1
          ≡ shown (search_rows to_lower_case text page.rows 0).0 =
        omega (arith, search_rows_count text page.rows 0) in
      (
        λ i row name suffix e n h.
            search_rows-get_elem? text page.rows 0 i row e
            ∙ ap some
                (search_row_named (wanted to_lower_case unescape query word) name suffix row n u h),
        λ i row e r.
            search_rows-get_elem? text page.rows 0 i row e
            ∙ ap some (unfold search_row in rw r refl),
        count,
        ap (λ m. if m == 0 then block else hidden) count,
      )

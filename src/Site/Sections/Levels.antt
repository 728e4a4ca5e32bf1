-- ===== src/Site/Sections/Levels.antt =====
-- The rows that toggleLevel shows, and their stripes.
use paho_mqtt_c.Common.{
  ltb→lt, lt→leb_false, le→leb, ==_iff, ◌≤◌, ℕ, zero, suc, ◌+◌, ◌-◌, ◌<◌, ◌≡◌, refl, sym, ap, ◌∙◌,
  arith, Bool, true, false, not, ◌&&◌, List, [], ◌∷◌,
}
use paho_mqtt_c.Common.{
  ltb, leb, ◌==◌, if◌then◌else◌, length, map, get_elem?, take, some, some_ne_none, some-injective,
  Bool-cases, inl, inr,
}
use mathlib.Core.Bool.{not-not}
use paho_mqtt_c.Site.Sections.{
  Row, stripe, update_stripes, put_first, split, level_row, toggle_level,
}

-- The depth of a row: its underscores.
unfoldable pub underscores : List ℕ → ℕ
underscores [] = 0
underscores (c ∷ cs) = let rest = underscores cs in if c == 95 then suc rest else rest

-- The visible rows.
unfoldable pub count_visible : List Row → ℕ
count_visible [] = 0
count_visible (r ∷ rows) = let rest = count_visible rows in if r.visible then suc rest else rest

unfoldable pub is_even : ℕ → Bool
is_even zero = true
is_even (suc n) = not (is_even n)

-- A row is striped just if it is visible and the number of visible rows in front of it is even.
abbrev pub IsStriped : List Row → Type 0
IsStriped rows =
    (i : ℕ) (r : Row)
    → get_elem? rows i ≡ some r
    → r.even ≡ (r.visible && is_even (count_visible (take i rows)))

length-put_first :
    (c : ℕ) (parts : List (List ℕ)) → 0 < length parts → length (put_first c parts) ≡ length parts
unfolding put_first
length-put_first c [] h = absurd (omega (arith, h))
length-put_first c (part ∷ parts) h = refl

length-split : (s : List ℕ) → length (split s) ≡ suc (underscores s)
unfolding split underscores
length-split [] = refl
length-split (c ∷ cs) = elim (Bool-cases (c == 95)) [
  | inl e ↦ rw e (ap suc (length-split cs))
  | inr e ↦ rw e (length-put_first c (split cs) (omega (arith, length-split cs)) ∙ length-split cs)
]

-- The id of a row and whether it is shown.
abbrev pub shown : Row → List ℕ × Bool
shown r = (r.id, r.visible)

shown-stripe : (e : Bool) (rows : List Row) → map shown (stripe e rows) ≡ map shown rows
unfolding stripe
shown-stripe e [] = refl
shown-stripe e (r ∷ rows) =
    ap (λ l. shown r ∷ l) (shown-stripe (if r.visible then not e else e) rows)

pub shown-update_stripes : (rows : List Row) → map shown (update_stripes rows) ≡ map shown rows
unfolding update_stripes
shown-update_stripes rows = shown-stripe true rows

-- Whether a number is even, counted from a start that is or is not.
parity : Bool → ℕ → Bool
parity true n = is_even n
parity false n = not (is_even n)

parity_zero : (e : Bool) → parity e 0 ≡ e
unfolding parity is_even
parity_zero true = refl
parity_zero false = refl

parity_next : (e : Bool) (n : ℕ) → parity (not e) n ≡ parity e (suc n)
unfolding parity is_even
parity_next true n = refl
parity_next false n = sym (not-not (is_even n))

parity_after :
    (v e : Bool) (n : ℕ) → parity (if v then not e else e) n ≡ parity e (if v then suc n else n)
parity_after true e n = parity_next e n
parity_after false e n = refl

stripe_at :
    (e : Bool) (rows : List Row) (i : ℕ) (r : Row)
    → get_elem? (stripe e rows) i ≡ some r
    → r.even ≡ (r.visible && parity e (count_visible (take i (stripe e rows))))
unfolding stripe count_visible
stripe_at e [] i r h = absurd (some_ne_none r (sym h))
stripe_at e (x ∷ rows) zero r h = rw (← (some-injective _ r h), parity_zero e) refl
stripe_at e (x ∷ rows) (suc i) r h =
    let e' = if x.visible then not e else e in
    stripe_at e' rows i r h
    ∙ ap (λ b. r.visible && b) (parity_after x.visible e (count_visible (take i (stripe e' rows))))

pub update_stripes-IsStriped : (rows : List Row) → IsStriped (update_stripes rows)
unfolding update_stripes
update_stripes-IsStriped rows i r h = unfold parity in stripe_at true rows i r h

far : (u level : ℕ) → ltb u (level + 1) ≡ false → (u == level + 1) ≡ false → suc level < u
far u level e q = ground arith

shown-level_row :
    (level : ℕ) (r : Row) → shown (level_row level r) ≡ (r.id, leb (underscores r.id) (suc level))
unfolding level_row
shown-level_row level r =
    let u = underscores r.id in
    let depth : length (split r.id) - 1 ≡ u = omega (arith, length-split r.id) in
    let shows : Bool → List ℕ × Bool = λ b. (r.id, b) in
    let near : u ≤ suc level → shows true ≡ shows (leb u (suc level)) =
      λ h. ap shows (sym (le→leb u (suc level) h)) in
    rw depth (elim (Bool-cases (ltb u (level + 1))) [
      | inl e ↦ rw e (near (omega (arith, ltb→lt u (level + 1) e)))
      | inr e ↦ rw e (elim (Bool-cases (u == level + 1)) [
        | inl q ↦ rw q (near (omega (arith, (==_iff u (level + 1)).0 q)))
        | inr q ↦ rw q (ap shows (sym (lt→leb_false u (suc level) (far u level e q))))
      ])
    ])

shown-map_level :
    (level : ℕ) (rows : List Row)
    → map shown (map (level_row level) rows)
      ≡ map (λ r. (r.id, leb (underscores r.id) (suc level))) rows
shown-map_level level [] = refl
shown-map_level level (r ∷ rows) = rw (shown-level_row level r, shown-map_level level rows) refl

-- After toggleLevel exactly the rows of at most the given level are shown, a row's level being the number of
-- underscores in its id less one; of the rows shown, the first, the third and so on are striped.
pub toggle_level-shown :
    (level : ℕ) (rows : List Row)
    → (map shown (toggle_level level rows)
        ≡ map (λ r. (r.id, leb (underscores r.id) (suc level))) rows)
      × IsStriped (toggle_level level rows)
unfolding toggle_level
toggle_level-shown level rows =
    let rows' = map (level_row level) rows in
    (shown-update_stripes rows' ∙ shown-map_level level rows, update_stripes-IsStriped rows')

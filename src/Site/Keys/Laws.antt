-- ===== src/Site/Keys/Laws.antt =====
-- How often a key that is held down acts, and where the keys lead.
use paho_mqtt_c.Common.{ℕ, zero, suc, ◌+◌, ◌-◌, ◌<◌, ◌≡◌, ◌≢◌, ◌⊎◌, refl, ap, ◌∙◌, arith, inl, inr}
use paho_mqtt_c.Common.{true, false, List, [], ◌∷◌, ◌++◌, Option, none, some, if◌then◌else◌}
use paho_mqtt_c.Common.{ne→==_false, replicate, length, get_elem?}
use paho_mqtt_c.Site.Results.{Display, block, is_block, nav_next, nav_prev}
use paho_mqtt_c.Site.Results.Moves.{IsPrev, IsNext, nav_prev-IsPrev, nav_next-IsNext, get_elem?-lt}
use paho_mqtt_c.Site.Keys.{keydown, keypress, keyup, KeyEvent, KeyState, process_keys}
use paho_mqtt_c.Site.Keys.{Item, focus_item, children_shown}
use paho_mqtt_c.Site.Keys.{go_up, go_next, go_down, before, displays, up_found, next_found}

-- The events one after the other: the state behind them, and how many of them act.
abbrev pub run_keys : List KeyEvent → KeyState → KeyState × ℕ
run_keys [] s = (s, 0)
run_keys (e ∷ es) s =
    let (s', acts) = process_keys e s in
    let (s'', n) = run_keys es s' in (s'', (if acts then 1 else 0) + n)

-- A key that is held down: its events, with `repeats` of the browser.
abbrev pub held : ℕ → ℕ → List KeyEvent
held key repeats =
    record { type = keydown; key_code = key }
    ∷ (replicate repeats (record { type = keypress; key_code = key })
        ++ record { type = keyup; key_code = key } ∷ [])

run_repeats :
    (key repeats : ℕ)
    → key ≢ 0
    → run_keys
        (replicate repeats (record { type = keypress; key_code = key })
          ++ record { type = keyup; key_code = key } ∷ [])
        (record { last_key = key; repeat_on = true })
      ≡ (record { last_key = 0; repeat_on = false }, repeats)
unfolding process_keys
run_repeats key zero h = refl
run_repeats key (suc repeats) h = rw (ne→==_false key 0 h) (
    ap (λ (r : KeyState × ℕ). (r.0, 1 + r.1)) (run_repeats key repeats h)
    ∙ ap (λ (n : ℕ). (record { last_key = 0; repeat_on = false }, n)) (omega arith))

-- A key acts when it goes down and then at each repetition but the first one; afterwards the state is
-- that of no key, whatever it was before.
pub run_keys-held :
    (key repeats : ℕ) (s : KeyState)
    → key ≢ 0
    → run_keys (held key repeats) s
      ≡ (record { last_key = 0; repeat_on = false }, 1 + (repeats - 1))
unfolding process_keys
run_keys-held key zero s h = rw (ne→==_false key 0 h) refl
run_keys-held key (suc repeats) s h = rw (ne→==_false key 0 h) (
    ap (λ (r : KeyState × ℕ). (r.0, 1 + (0 + r.1))) (run_repeats key repeats h)
    ∙ ap (λ (n : ℕ). (record { last_key = 0; repeat_on = false }, n)) (omega arith))

compare-cases : (m i : ℕ) → (m < i) ⊎ ((m ≡ i) ⊎ (i < m))
compare-cases m i = ground arith

true_ne_false : true ≢ false
true_ne_false e = cc

-- The element found from `i + 1` on, and the one found from there back.
back :
    (ds : List Display) (i j : ℕ) (r : Option ℕ)
    → get_elem? ds i ≡ some block
    → IsNext ds (suc i) (some (suc j))
    → IsPrev ds j r
    → r ≡ some i
unfolding is_block
back ds i j none at (l, here, between) p = absurd (true_ne_false (p i block (omega arith) at))
back ds i j (some m) at (l, here, between) (k, there, above) = elim (compare-cases m i) [
  | inl lt ↦ absurd (true_ne_false (above i block lt (omega arith) at))
  | inr (inl eq) ↦ ap some eq
  | inr (inr gt) ↦ absurd (true_ne_false (between m block (omega arith) (omega arith) there))
]

get_elem?-displays :
    (items : List Item) (i : ℕ) (item : Item)
    → get_elem? items i ≡ some item
    → get_elem? (displays items) i ≡ some item.display
get_elem?-displays [] i item e = cc
get_elem?-displays (x ∷ items) zero item e =
    ap (λ (o : Option Item). elim o [ none ↦ none | some y ↦ some (y.display) ]) e
get_elem?-displays (x ∷ items) (suc i) item e = get_elem?-displays items i item e

leads_back :
    (items : List Item) (i k : ℕ) (item : Item)
    → get_elem? items i ≡ some item
    → item.display ≡ block
    → children_shown (some item) ≡ false
    → nav_next (displays items) (suc i) ≡ some (suc k)
    → go_up items (some k) ≡ focus_item i
unfolding go_up
leads_back items i k item e d c found =
    let ds = displays items in
    let at : get_elem? ds i ≡ some block = get_elem?-displays items i item e ∙ ap some d in
    let next : IsNext ds (suc i) (some (suc k)) = rw found at (nav_next-IsNext ds (suc i)) in
    let inside : k < length ds = omega (arith, get_elem?-lt ds (suc k) block next.1) in
    rw (back ds i k (nav_prev ds (some k)) at next (nav_prev-IsPrev ds k inside))
      (unfold up_found in rw (e, c) refl)

next_found-some : (r : Option ℕ) (j : ℕ) → next_found r ≡ focus_item j → r ≡ some j
unfolding next_found
next_found-some none j e = cc
next_found-some (some i) j e = cc

go_down-next :
    (items : List Item) (i j : ℕ) (item : Item)
    → get_elem? items i ≡ some item
    → children_shown (some item) ≡ false
    → go_down items i ≡ focus_item j
    → nav_next (displays items) (suc i) ≡ some j
unfolding go_down go_next
go_down-next items i j item e c h =
    let same : suc i ≡ i + 1 = omega arith in
    ap (λ n. nav_next (displays items) n) same
    ∙ next_found-some (nav_next (displays items) (i + 1)) j (rw (e, c) at h)

-- If the down key leads from one element that is shown to another one, the up key leads back, as long as
-- the children of the first one are not shown.
pub go_up-go_down :
    (items : List Item) (i j : ℕ) (item : Item)
    → get_elem? items i ≡ some item
    → item.display ≡ block
    → children_shown (some item) ≡ false
    → go_down items i ≡ focus_item j
    → go_up items (before j) ≡ focus_item i
unfolding before
go_up-go_down items i zero item e d c h =
    let found = go_down-next items i zero item e c h in
    let next : IsNext (displays items) (suc i) (some zero) =
      rw found at (nav_next-IsNext (displays items) (suc i)) in
    absurd (omega (arith, next.0))
go_up-go_down items i (suc k) item e d c h =
    leads_back items i k item e d c (go_down-next items i (suc k) item e c h)

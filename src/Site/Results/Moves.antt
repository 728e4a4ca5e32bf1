-- ===== src/Site/Results/Moves.antt =====
-- Where NavNext and NavPrev go.
use paho_mqtt_c.Common.{ℕ, zero, suc, ◌+◌, ◌<◌, ◌≤◌, ◌≡◌, refl, sym, ap, ◌∙◌, arith, inl, inr}
use paho_mqtt_c.Common.{false, List, [], ◌∷◌, Option, none, some, ◌==◌, if◌then◌else◌}
use paho_mqtt_c.Common.{Bool-cases, Option-cases, ==_iff, length, get_elem?}
use paho_mqtt_c.Site.Results.{Display, block, hidden, unset}
use paho_mqtt_c.Site.Results.{is_block, nav_step, next_loop, nav_next, prev_loop, nav_prev}

-- The loop from `index` on ends with the first element shown, or behind all elements.
abbrev pub IsNext : List Display → ℕ → Option ℕ → Type 0
IsNext items index none =
    (i : ℕ) (display : Display)
    → index ≤ i
    → get_elem? items i ≡ some display
    → is_block display ≡ false
IsNext items index (some found) =
    (index ≤ found)
    × (get_elem? items found ≡ some block)
    × ((i : ℕ) (display : Display)
        → index ≤ i
        → i < found
        → get_elem? items i ≡ some display
        → is_block display ≡ false)

pub get_elem?-lt {ℓ} :
    {A : Type ℓ} (xs : List A) (i : ℕ) (x : A) → get_elem? xs i ≡ some x → i < length xs
get_elem?-lt [] i x e = cc
get_elem?-lt (y ∷ xs) zero x e = omega arith
get_elem?-lt (y ∷ xs) (suc i) x e = omega (arith, get_elem?-lt xs i x e)

get_elem?-none {ℓ} : {A : Type ℓ} (xs : List A) (i : ℕ) → get_elem? xs i ≡ none → length xs ≤ i
get_elem?-none [] i e = omega arith
get_elem?-none (y ∷ xs) zero e = cc
get_elem?-none (y ∷ xs) (suc i) e = omega (arith, get_elem?-none xs i e)

-- An element that is not shown stays out.
not_shown :
    (items : List Display) (index : ℕ) (d : Display)
    → get_elem? items index ≡ some d
    → is_block d ≡ false
    → (i : ℕ) (display : Display) → get_elem? items i ≡ some display
    → (index + 1 ≤ i → is_block display ≡ false)
    → index ≤ i
    → is_block display ≡ false
not_shown items index d e h i display e' later l = elim (Bool-cases (i == index)) [
  | inl same ↦
      let at : get_elem? items i ≡ some d = rw ((==_iff i index).0 same) e in
      let eq : some d ≡ some display = sym at ∙ e' in cc
  | inr other ↦ later (ground arith)
]

IsNext-step :
    (items : List Display) (index : ℕ) (d : Display) (r : Option ℕ)
    → get_elem? items index ≡ some d
    → is_block d ≡ false
    → IsNext items (index + 1) r
    → IsNext items index r
IsNext-step items index d none e h n =
    λ i display l e'. not_shown items index d e h i display e' (λ m. n i display m e') l
IsNext-step items index d (some found) e h (l, at, n) = (
  omega arith,
  at,
  λ i display m k e'. not_shown items index d e h i display e' (λ o. n i display o k e') m,
)

next_loop_found :
    (fuel : ℕ) (items : List Display) (index : ℕ) (d : Display)
    → get_elem? items index ≡ some d
    → next_loop (suc fuel) items index
      ≡ (if is_block d then some index else next_loop fuel items (index + 1))
unfolding next_loop nav_step
next_loop_found fuel items index d e =
    ap (λ o. nav_step o index (next_loop fuel items (index + 1))) e

next_loop_end :
    (fuel : ℕ) (items : List Display) (index : ℕ)
    → get_elem? items index ≡ none
    → next_loop (suc fuel) items index ≡ none
unfolding next_loop nav_step
next_loop_end fuel items index e = ap (λ o. nav_step o index (next_loop fuel items (index + 1))) e

next_loop-IsNext :
    (fuel : ℕ) (items : List Display) (index : ℕ)
    → length items < index + fuel
    → IsNext items index (next_loop fuel items index)
unfolding is_block
next_loop-IsNext zero items index h =
    unfold next_loop in (λ i display l e. absurd (omega (arith, get_elem?-lt items i display e)))
next_loop-IsNext (suc fuel) items index h =
    let later = next_loop-IsNext fuel items (index + 1) (omega arith) in
    elim (Option-cases (get_elem? items index)) [
      | inl e ↦ rw (next_loop_end fuel items index e) (λ i display l e'.
          absurd (omega (arith, get_elem?-lt items i display e', get_elem?-none items index e)))
      | inr (block, e) ↦
          rw (next_loop_found fuel items index block e)
            (omega arith, e, λ i display l k e'. absurd (omega arith))
      | inr (hidden, e) ↦
          rw (next_loop_found fuel items index hidden e)
            (IsNext-step items index hidden _ e refl later)
      | inr (unset, e) ↦
          rw (next_loop_found fuel items index unset e)
            (IsNext-step items index unset _ e refl later)
    ]

-- NavNext gives the first element from the index on whose row is shown, and nothing just if there is none.
pub nav_next-IsNext : (items : List Display) (index : ℕ) → IsNext items index (nav_next items index)
unfolding nav_next
nav_next-IsNext items index = next_loop-IsNext (suc (length items)) items index (omega arith)

-- The last element up to `index` that is shown.
abbrev pub IsPrev : List Display → ℕ → Option ℕ → Type 0
IsPrev items index none =
    (i : ℕ) (display : Display)
    → i ≤ index
    → get_elem? items i ≡ some display
    → is_block display ≡ false
IsPrev items index (some found) =
    (found ≤ index)
    × (get_elem? items found ≡ some block)
    × ((i : ℕ) (display : Display)
        → found < i
        → i ≤ index
        → get_elem? items i ≡ some display
        → is_block display ≡ false)

prev_loop_found :
    (items : List Display) (index : ℕ) (d : Display)
    → get_elem? items (suc index) ≡ some d
    → prev_loop items (suc index) ≡ (if is_block d then some (suc index) else prev_loop items index)
unfolding prev_loop nav_step
prev_loop_found items index d e = ap (λ o. nav_step o (suc index) (prev_loop items index)) e

prev_loop_first :
    (items : List Display) (d : Display)
    → get_elem? items zero ≡ some d
    → prev_loop items zero ≡ (if is_block d then some zero else none)
unfolding prev_loop nav_step
prev_loop_first items d e = ap (λ o. nav_step o zero none) e

-- The element at the index itself stays out.
hidden_at :
    (items : List Display) (index : ℕ) (d : Display)
    → get_elem? items index ≡ some d
    → is_block d ≡ false
    → (i : ℕ) (display : Display) → get_elem? items i ≡ some display
    → (suc i ≤ index → is_block display ≡ false)
    → i ≤ index
    → is_block display ≡ false
hidden_at items index d e h i display e' earlier l = elim (Bool-cases (i == index)) [
  | inl same ↦
      let at : get_elem? items i ≡ some d = rw ((==_iff i index).0 same) e in
      let eq : some d ≡ some display = sym at ∙ e' in cc
  | inr other ↦ earlier (ground arith)
]

IsPrev-step :
    (items : List Display) (index : ℕ) (d : Display) (r : Option ℕ)
    → get_elem? items (suc index) ≡ some d
    → is_block d ≡ false
    → IsPrev items index r
    → IsPrev items (suc index) r
IsPrev-step items index d none e h n = λ i display l e'.
    hidden_at items (suc index) d e h i display e' (λ m. n i display (omega arith) e') l
IsPrev-step items index d (some found) e h (l, at, n) = (
  omega arith,
  at,
  λ i display m k e'.
      hidden_at items (suc index) d e h i display e' (λ o. n i display m (omega arith) e') k,
)

IsPrev-first :
    (items : List Display) (d : Display)
    → get_elem? items zero ≡ some d
    → is_block d ≡ false
    → IsPrev items zero none
IsPrev-first items d e h =
    λ i display l e'. hidden_at items zero d e h i display e' (λ m. absurd (omega arith)) l

prev_loop-IsPrev :
    (items : List Display) (index : ℕ)
    → index < length items
    → IsPrev items index (prev_loop items index)
unfolding is_block
prev_loop-IsPrev items zero h = elim (Option-cases (get_elem? items zero)) [
  | inl e ↦ absurd (omega (arith, get_elem?-none items zero e))
  | inr (block, e) ↦
      rw (prev_loop_first items block e) (omega arith, e, λ i display l k e'. absurd (omega arith))
  | inr (hidden, e) ↦ rw (prev_loop_first items hidden e) (IsPrev-first items hidden e refl)
  | inr (unset, e) ↦ rw (prev_loop_first items unset e) (IsPrev-first items unset e refl)
]
prev_loop-IsPrev items (suc index) h =
    let earlier = prev_loop-IsPrev items index (omega arith) in
    elim (Option-cases (get_elem? items (suc index))) [
      | inl e ↦ absurd (omega (arith, get_elem?-none items (suc index) e))
      | inr (block, e) ↦
          rw (prev_loop_found items index block e)
            (omega arith, e, λ i display l k e'. absurd (omega arith))
      | inr (hidden, e) ↦
          rw (prev_loop_found items index hidden e)
            (IsPrev-step items index hidden _ e refl earlier)
      | inr (unset, e) ↦
          rw (prev_loop_found items index unset e) (IsPrev-step items index unset _ e refl earlier)
    ]

-- From an element of the page, NavPrev gives the last element up to it whose row is shown, and nothing
-- just if there is none.
pub nav_prev-IsPrev :
    (items : List Display) (index : ℕ)
    → index < length items
    → IsPrev items index (nav_prev items (some index))
unfolding nav_prev
nav_prev-IsPrev items index h = prev_loop-IsPrev items index h

-- ===== src/Site/Index/Typed.antt =====
-- docs/MQTTAsync/html/search/search.js: what a user types for a name, and what the search makes of it.
use paho_mqtt_c.Common.{ℕ, zero, suc, ◌+◌, ◌≤◌, ◌≡◌, ◌⊎◌, refl, ap, ◌∙◌, arith, inl, inr}
use paho_mqtt_c.Common.{Bool, true, false, not, ◌&&◌, List, [], ◌∷◌, ◌++◌, replicate}
use paho_mqtt_c.Common.{◌==◌}
use paho_mqtt_c.Site.Results.{strip_leading, strip_trailing, put_stripped, search_word, search_text}
use paho_mqtt_c.Site.Results.Laws.{wanted}
use paho_mqtt_c.Site.Index.{lower_unit}
use paho_mqtt_c.Site.Index.Laws.{lower, is_trimmed, no_space_behind}

-- The same ASCII character, or the same letter in the other case.
abbrev pub IsCaseOf : ℕ → ℕ → Type 0
IsCaseOf c d =
    (c ≡ d) ⊎ (((c ≡ d + 32) × (65 ≤ d) × (d ≤ 90)) ⊎ ((d ≡ c + 32) × (65 ≤ c) × (c ≤ 90)))

-- Texts that differ in the case of letters only.
abbrev pub AnyCase : List ℕ → List ℕ → Type 0
AnyCase [] [] = Unit
AnyCase [] (d ∷ ds) = ⊥
AnyCase (c ∷ cs) [] = ⊥
AnyCase (c ∷ cs) (d ∷ ds) = IsCaseOf c d × AnyCase cs ds

abbrev pub spaces : ℕ → List ℕ
spaces n = replicate n 32

abbrev pub padded : ℕ → List ℕ → ℕ → List ℕ
padded before text behind = spaces before ++ (text ++ spaces behind)

lower_unit_same : (c d : ℕ) → IsCaseOf c d → lower_unit c ≡ lower_unit d
lower_unit_same c d (inl e) = ap lower_unit e
lower_unit_same c d (inr (inl (e, l, h))) = rw e (ground arith)
lower_unit_same c d (inr (inr (e, l, h))) = rw e (ground arith)

pub lower-AnyCase : (s t : List ℕ) → AnyCase s t → lower s ≡ lower t
lower-AnyCase [] [] h = refl
lower-AnyCase [] (d ∷ t) h = absurd h
lower-AnyCase (c ∷ s) [] h = absurd h
lower-AnyCase (c ∷ s) (d ∷ t) (h, hs) = rw (lower_unit_same c d h, lower-AnyCase s t hs) refl

lower_space : (c : ℕ) → (lower_unit c == 32) ≡ (c == 32)
lower_space c = ground arith

no_space_behind-lower : (s : List ℕ) → no_space_behind (lower s) ≡ no_space_behind s
unfolding no_space_behind
no_space_behind-lower [] = refl
no_space_behind-lower (c ∷ []) = ap not (lower_space c)
no_space_behind-lower (c ∷ d ∷ s) = no_space_behind-lower (d ∷ s)

pub is_trimmed-lower : (s : List ℕ) → is_trimmed (lower s) ≡ is_trimmed s
unfolding is_trimmed
is_trimmed-lower [] = refl
is_trimmed-lower (c ∷ s) =
    ap (λ b. not b && no_space_behind (lower (c ∷ s))) (lower_space c)
    ∙ ap (λ b. not (c == 32) && b) (no_space_behind-lower (c ∷ s))

strip_leading-spaces : (n : ℕ) (s : List ℕ) → strip_leading (spaces n ++ s) ≡ strip_leading s
unfolding strip_leading
strip_leading-spaces zero s = refl
strip_leading-spaces (suc n) s = strip_leading-spaces n s

strip_trailing-spaces : (n : ℕ) → strip_trailing (spaces n) ≡ []
unfolding strip_trailing put_stripped
strip_trailing-spaces zero = refl
strip_trailing-spaces (suc n) = rw (strip_trailing-spaces n) refl

put_stripped_last : (c : ℕ) → not (c == 32) ≡ true → put_stripped c [] ≡ c ∷ []
unfolding put_stripped
put_stripped_last c h = ground arith

strip_trailing-append :
    (s : List ℕ) (n : ℕ) → no_space_behind s ≡ true → strip_trailing (s ++ spaces n) ≡ s
unfolding strip_trailing no_space_behind
strip_trailing-append [] n h = cc
strip_trailing-append (c ∷ []) n h = rw (strip_trailing-spaces n) (put_stripped_last c h)
strip_trailing-append (c ∷ d ∷ s) n h =
    ap (put_stripped c) (strip_trailing-append (d ∷ s) n h) ∙ (unfold put_stripped in refl)

search_word_given :
    (unescape : List ℕ → List ℕ) (query : List ℕ) (n c : ℕ) (s : List ℕ)
    → search_word unescape query (spaces n ++ (c ∷ s)) ≡ spaces n ++ (c ∷ s)
unfolding search_word
search_word_given unescape query zero c s = refl
search_word_given unescape query (suc n) c s = refl

not_space : (c : ℕ) (b : Bool) → (not (c == 32) && b) ≡ true → ((c == 32) ≡ false) × (b ≡ true)
not_space c b h = ground arith

-- The search takes the spaces off and puts the letters in lower case.
pub wanted-padded :
    (unescape : List ℕ → List ℕ) (query s : List ℕ) (before behind : ℕ)
    → is_trimmed s ≡ true
    → wanted lower unescape query (padded before s behind) ≡ lower s
unfolding is_trimmed search_text
wanted-padded unescape query [] before behind h = cc
wanted-padded unescape query (c ∷ s) before behind h =
    let (first, last) = not_space c (no_space_behind (c ∷ s)) h in
    let front : strip_leading ((c ∷ s) ++ spaces behind) ≡ (c ∷ s) ++ spaces behind =
      unfold strip_leading in rw first refl in
    ap (λ w. lower (strip_trailing (strip_leading w)))
      (search_word_given unescape query before c (s ++ spaces behind))
    ∙ ap (λ w. lower (strip_trailing w))
        (strip_leading-spaces before ((c ∷ s) ++ spaces behind) ∙ front)
    ∙ ap lower (strip_trailing-append (c ∷ s) behind last)

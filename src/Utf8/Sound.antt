-- ===== src/Utf8/Sound.antt =====
-- What the validator accepts is the encoding of a text.
use paho_mqtt_c.Common.{
  Option-cases, ◌∙◌, ℕ, zero, suc, ◌≡◌, ◌+◌, ◌*◌, ◌-◌, ◌≤◌, refl, ap, sym, ◌⊎◌, inl, inr, arith,
  true, List, [], ◌∷◌, ◌++◌,
}
use paho_mqtt_c.Common.{Option, none, some, ltb, leb, if◌then◌else◌, length, drop, All}
use paho_mqtt_c.Common.Bits.{IsByte, top_bit, top_nibble, top_three}
use paho_mqtt_c.Utf8.{
  char_len, row_good, some_row, valid_ranges, char_validate, validate_loop, validate,
}
use paho_mqtt_c.Utf8.Spec.{IsScalar, encode_scalar, encode_text}

-- The number of bytes, in arithmetic.
abbrev pub char_len_of : ℕ → ℕ
char_len_of c = if ltb c 128 then 1 else if leb 240 c then 4 else if leb 224 c then 3 else 2

pub char_len_lem : (c : ℕ) → IsByte c → char_len c ≡ char_len_of c
unfolding char_len
char_len_lem c h = rw (top_bit c h, top_nibble c h, top_three c h) (ground arith)

sound1 :
    (c : ℕ) (bs : List ℕ)
    → some_row valid_ranges 1 (c ∷ bs) ≡ true
    → IsScalar c × (encode_scalar c ≡ c ∷ [])
unfolding some_row row_good
sound1 c bs h = ground arith

abbrev scalar2 : ℕ → ℕ → ℕ
scalar2 c b = (c - 0xC0) * 64 + (b - 0x80)

sound2 :
    (c b : ℕ) (bs : List ℕ)
    → some_row valid_ranges 2 (c ∷ b ∷ bs) ≡ true
    → IsScalar (scalar2 c b) × (encode_scalar (scalar2 c b) ≡ c ∷ b ∷ [])
unfolding some_row row_good
sound2 c b bs h = ground arith

abbrev scalar3 : ℕ → ℕ → ℕ → ℕ
scalar3 c b d = (c - 0xE0) * 4096 + (b - 0x80) * 64 + (d - 0x80)

-- The ranges of three bytes leave out the overlong forms and the surrogates.
ranges3 :
    (c b d : ℕ) (bs : List ℕ)
    → some_row valid_ranges 3 (c ∷ b ∷ d ∷ bs) ≡ true
    → (0xE0 ≤ c)
      × (c ≤ 0xEF)
      × (0x80 ≤ b)
      × (b ≤ 0xBF)
      × (0x80 ≤ d)
      × (d ≤ 0xBF)
      × (c ≡ 0xE0 → 0xA0 ≤ b)
      × (c ≡ 0xED → b ≤ 0x9F)
unfolding some_row row_good
ranges3 c b d bs h = ground arith

sound3 :
    (c b d : ℕ) (bs : List ℕ)
    → some_row valid_ranges 3 (c ∷ b ∷ d ∷ bs) ≡ true
    → IsScalar (scalar3 c b d) × (encode_scalar (scalar3 c b d) ≡ c ∷ b ∷ d ∷ [])
sound3 c b d bs h = let r = ranges3 c b d bs h in ground arith

abbrev scalar4 : ℕ → ℕ → ℕ → ℕ → ℕ
scalar4 c b d e = (c - 0xF0) * 262144 + (b - 0x80) * 4096 + (d - 0x80) * 64 + (e - 0x80)

-- The ranges of four bytes leave out the overlong forms and what lies beyond the last code point.
ranges4 :
    (c b d e : ℕ) (bs : List ℕ)
    → some_row valid_ranges 4 (c ∷ b ∷ d ∷ e ∷ bs) ≡ true
    → (0xF0 ≤ c)
      × (c ≤ 0xF4)
      × (0x80 ≤ b)
      × (b ≤ 0xBF)
      × (0x80 ≤ d)
      × (d ≤ 0xBF)
      × (0x80 ≤ e)
      × (e ≤ 0xBF)
      × (c ≡ 0xF0 → 0x90 ≤ b)
      × (c ≡ 0xF4 → b ≤ 0x8F)
unfolding some_row row_good
ranges4 c b d e bs h = ground arith

sound4 :
    (c b d e : ℕ) (bs : List ℕ)
    → some_row valid_ranges 4 (c ∷ b ∷ d ∷ e ∷ bs) ≡ true
    → IsScalar (scalar4 c b d e) × (encode_scalar (scalar4 c b d e) ≡ c ∷ b ∷ d ∷ e ∷ [])
sound4 c b d e bs h = let r = ranges4 c b d e bs h in ground arith

-- A scalar value whose encoding the bytes begin with.
abbrev pub StartsWithScalar : List ℕ → List ℕ → Type 0
StartsWithScalar bytes rest = (u : ℕ) × IsScalar u × (bytes ≡ encode_scalar u ++ rest)

starts_of :
    (u : ℕ) (front rest : List ℕ)
    → IsScalar u × (encode_scalar u ≡ front)
    → StartsWithScalar (front ++ rest) rest
starts_of u front rest (s, e) = (u, s, ap (λ l. l ++ rest) (sym e))

-- The validator's answer for a character of `n` bytes.
abbrev char_answer : ℕ → List ℕ → Option (List ℕ)
char_answer n bytes =
    if ltb (length bytes) n
    then none
    else if some_row valid_ranges n bytes
    then some (drop n bytes)
    else none

-- The three tests that an answer passes.
char_answer-some :
    (n : ℕ) (bytes rest : List ℕ)
    → char_answer n bytes ≡ some rest
    → (n ≤ length bytes) × (some_row valid_ranges n bytes ≡ true) × (drop n bytes ≡ rest)
char_answer-some n bytes rest h = ground arith

sound_at1 : (bytes rest : List ℕ) → char_answer 1 bytes ≡ some rest → StartsWithScalar bytes rest
sound_at1 [] rest h = absurd (omega (arith, char_answer-some 1 [] rest h))
sound_at1 (c ∷ bs) rest h =
    let (len, row, left) = char_answer-some 1 (c ∷ bs) rest h in
    rw (← left) (starts_of c (c ∷ []) bs (sound1 c bs row))

sound_at2 : (bytes rest : List ℕ) → char_answer 2 bytes ≡ some rest → StartsWithScalar bytes rest
sound_at2 (c ∷ b ∷ bs) rest h =
    let (len, row, left) = char_answer-some 2 (c ∷ b ∷ bs) rest h in
    rw (← left) (starts_of (scalar2 c b) (c ∷ b ∷ []) bs (sound2 c b bs row))
sound_at2 [] rest h = absurd (omega (arith, char_answer-some 2 [] rest h))
sound_at2 (c ∷ []) rest h = absurd (omega (arith, char_answer-some 2 (c ∷ []) rest h))

sound_at3 : (bytes rest : List ℕ) → char_answer 3 bytes ≡ some rest → StartsWithScalar bytes rest
sound_at3 (c ∷ b ∷ d ∷ bs) rest h =
    let (len, row, left) = char_answer-some 3 (c ∷ b ∷ d ∷ bs) rest h in
    rw (← left) (starts_of (scalar3 c b d) (c ∷ b ∷ d ∷ []) bs (sound3 c b d bs row))
sound_at3 [] rest h = absurd (omega (arith, char_answer-some 3 [] rest h))
sound_at3 (c ∷ []) rest h = absurd (omega (arith, char_answer-some 3 (c ∷ []) rest h))
sound_at3 (c ∷ b ∷ []) rest h = absurd (omega (arith, char_answer-some 3 (c ∷ b ∷ []) rest h))

sound_at4 : (bytes rest : List ℕ) → char_answer 4 bytes ≡ some rest → StartsWithScalar bytes rest
sound_at4 (c ∷ b ∷ d ∷ e ∷ bs) rest h =
    let (len, row, left) = char_answer-some 4 (c ∷ b ∷ d ∷ e ∷ bs) rest h in
    rw (← left) (starts_of (scalar4 c b d e) (c ∷ b ∷ d ∷ e ∷ []) bs (sound4 c b d e bs row))
sound_at4 [] rest h = absurd (omega (arith, char_answer-some 4 [] rest h))
sound_at4 (c ∷ []) rest h = absurd (omega (arith, char_answer-some 4 (c ∷ []) rest h))
sound_at4 (c ∷ b ∷ []) rest h = absurd (omega (arith, char_answer-some 4 (c ∷ b ∷ []) rest h))
sound_at4 (c ∷ b ∷ d ∷ []) rest h =
    absurd (omega (arith, char_answer-some 4 (c ∷ b ∷ d ∷ []) rest h))

char_len_cases :
    (c : ℕ)
    → IsByte c
    → (char_len c ≡ 1) ⊎ ((char_len c ≡ 2) ⊎ ((char_len c ≡ 3) ⊎ (char_len c ≡ 4)))
char_len_cases c h = rw (char_len_lem c h) (ground arith)

char_validate_sound :
    (bytes rest : List ℕ)
    → All IsByte bytes
    → char_validate bytes ≡ some rest
    → StartsWithScalar bytes rest
unfolding char_validate
char_validate_sound [] rest b h = cc
char_validate_sound (c ∷ bs) rest (b, _) h = elim (char_len_cases c b) [
  | inl e ↦ sound_at1 (c ∷ bs) rest (rw e at h)
  | inr (inl e) ↦ sound_at2 (c ∷ bs) rest (rw e at h)
  | inr (inr (inl e)) ↦ sound_at3 (c ∷ bs) rest (rw e at h)
  | inr (inr (inr e)) ↦ sound_at4 (c ∷ bs) rest (rw e at h)
]

All-drop : (n : ℕ) (bytes : List ℕ) → All IsByte bytes → All IsByte (drop n bytes)
All-drop zero bytes h = h
All-drop (suc n) [] h = tt
All-drop (suc n) (c ∷ bs) h = All-drop n bs h.1

char_validate-drop :
    (bytes rest : List ℕ) → char_validate bytes ≡ some rest → (n : ℕ) × (rest ≡ drop n bytes)
unfolding char_validate
char_validate-drop [] rest h = cc
char_validate-drop (c ∷ bs) rest h =
    (char_len c, sym (char_answer-some (char_len c) (c ∷ bs) rest h).2)

pub validate_loop_step :
    (fuel c : ℕ) (bs : List ℕ)
    → validate_loop (suc fuel) (some (c ∷ bs)) ≡ validate_loop fuel (char_validate (c ∷ bs))
unfolding validate_loop
validate_loop_step fuel c bs = refl

validate_loop_sound :
    (fuel : ℕ) (bytes : List ℕ)
    → All IsByte bytes
    → validate_loop fuel (some bytes) ≡ true
    → (text : List ℕ) × All IsScalar text × (bytes ≡ encode_text text)
unfolding validate_loop
validate_loop_sound fuel [] b h = ([], tt, refl)
validate_loop_sound zero (c ∷ bs) b h = cc
validate_loop_sound (suc fuel) (c ∷ bs) b h = elim (Option-cases (char_validate (c ∷ bs))) [
  | inl e ↦ cc (rw e at (sym (validate_loop_step fuel c bs) ∙ h))
  | inr (rest, e) ↦
      let (n, d) = char_validate-drop (c ∷ bs) rest e in
      let (text, scalars, same) =
        validate_loop_sound fuel rest (rw d (All-drop n (c ∷ bs) b))
          (rw e at (sym (validate_loop_step fuel c bs) ∙ h)) in
      let (u, scalar, first) = char_validate_sound (c ∷ bs) rest b e in
      (u ∷ text, (scalar, scalars), first ∙ ap (λ l. encode_scalar u ++ l) same)
]

-- Every string of bytes that UTF8_validate accepts is the UTF-8 encoding of a text of Unicode scalar
-- values.
pub validate_sound :
    (bytes : List ℕ)
    → All IsByte bytes
    → validate bytes ≡ true
    → (text : List ℕ) × All IsScalar text × (bytes ≡ encode_text text)
unfolding validate
validate_sound [] b h = ([], tt, refl)
validate_sound (c ∷ bs) b h =
    validate_loop_sound (suc (length (c ∷ bs))) (c ∷ bs) b
      (validate_loop_step (length (c ∷ bs)) c bs ∙ h)

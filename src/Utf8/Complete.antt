-- ===== src/Utf8/Complete.antt =====
-- The validator accepts the encoding of every text.
use paho_mqtt_c.Common.{ℕ, zero, suc, ◌≡◌, ◌+◌, ◌/◌, ◌%◌, ◌<◌, ◌≤◌, refl, sym, ap, ◌∙◌}
use paho_mqtt_c.Common.{arith, true, List, [], ◌∷◌, ◌++◌, some, All}
use paho_mqtt_c.Common.{length, drop, length-append, le→ltb_false}
use paho_mqtt_c.Utf8.{
  char_len, row_good, some_row, valid_ranges, char_validate, validate_loop, validate,
}
use paho_mqtt_c.Utf8.Spec.{IsScalar, encode_scalar, encode_text}
use paho_mqtt_c.Utf8.Sound.{char_len_lem, validate_loop_step}

-- The answer on a front whose first byte announces its length and which passes a row.
accepted :
    (c : ℕ) (front rest : List ℕ)
    → char_len c ≡ suc (length front)
    → some_row valid_ranges (suc (length front)) (c ∷ (front ++ rest)) ≡ true
    → drop (length front) (front ++ rest) ≡ rest
    → char_validate (c ∷ (front ++ rest)) ≡ some rest
unfolding char_validate
accepted c front rest e row d =
    let le : length front ≤ length (front ++ rest) = omega (arith, length-append front rest) in
    rw (
      e,
      le→ltb_false (suc (length (front ++ rest))) (suc (length front)) (omega (arith, le)),
      row,
      d,
    )

accepted1 : (u : ℕ) (rest : List ℕ) → u < 0x80 → char_validate (u ∷ rest) ≡ some rest
accepted1 u rest h =
    accepted u [] rest (rw (char_len_lem u (omega arith)) (ground arith))
      (unfold some_row row_good in ground arith) refl

accepted2 :
    (u : ℕ) (rest : List ℕ)
    → 0x80 ≤ u
    → u < 0x800
    → char_validate ((0xC0 + u / 64) ∷ (0x80 + u % 64) ∷ rest) ≡ some rest
accepted2 u rest l h =
    accepted (0xC0 + u / 64) ((0x80 + u % 64) ∷ []) rest
      (rw (char_len_lem (0xC0 + u / 64) (omega arith)) (ground arith))
      (unfold some_row row_good in ground arith) refl

accepted3 :
    (u : ℕ) (rest : List ℕ)
    → IsScalar u
    → 0x800 ≤ u
    → u < 0x10000
    → char_validate ((0xE0 + u / 4096) ∷ (0x80 + u / 64 % 64) ∷ (0x80 + u % 64) ∷ rest) ≡ some rest
accepted3 u rest s l h =
    accepted (0xE0 + u / 4096) ((0x80 + u / 64 % 64) ∷ (0x80 + u % 64) ∷ []) rest
      (rw (char_len_lem (0xE0 + u / 4096) (omega arith)) (ground arith))
      (unfold some_row row_good in ground arith) refl

accepted4 :
    (u : ℕ) (rest : List ℕ)
    → IsScalar u
    → 0x10000 ≤ u
    → char_validate (
        (0xF0 + u / 262144)
        ∷ (0x80 + u / 4096 % 64)
        ∷ (0x80 + u / 64 % 64)
        ∷ (0x80 + u % 64)
        ∷ rest)
      ≡ some rest
accepted4 u rest s l =
    accepted (0xF0 + u / 262144)
      ((0x80 + u / 4096 % 64) ∷ (0x80 + u / 64 % 64) ∷ (0x80 + u % 64) ∷ []) rest
      (rw (char_len_lem (0xF0 + u / 262144) (omega arith)) (ground arith))
      (unfold some_row row_good in ground arith) refl

char_validate-encode_scalar :
    (u : ℕ) (rest : List ℕ) → IsScalar u → char_validate (encode_scalar u ++ rest) ≡ some rest
char_validate-encode_scalar u rest s =
    ground (arith, accepted1 u rest, accepted2 u rest, accepted3 u rest s, accepted4 u rest s)

-- A character takes a byte at least.
length-encode_scalar : (u : ℕ) → 0 < length (encode_scalar u)
length-encode_scalar u = ground arith

validate_loop_first :
    (fuel : ℕ) (bytes rest : List ℕ)
    → 0 < length bytes
    → char_validate bytes ≡ some rest
    → validate_loop (suc fuel) (some bytes) ≡ validate_loop fuel (some rest)
validate_loop_first fuel [] rest h e = elim h [ ]
validate_loop_first fuel (c ∷ bs) rest h e =
    validate_loop_step fuel c bs ∙ ap (λ a. validate_loop fuel a) e

validate_loop-encode_text :
    (text : List ℕ) (fuel : ℕ)
    → All IsScalar text
    → length (encode_text text) ≤ fuel
    → validate_loop fuel (some (encode_text text)) ≡ true
validate_loop-encode_text [] fuel s f = unfold validate_loop in refl
validate_loop-encode_text (u ∷ text) zero s f =
    absurd
      (omega (arith, length-append (encode_scalar u) (encode_text text), length-encode_scalar u))
validate_loop-encode_text (u ∷ text) (suc fuel) (s, ss) f =
    let longer = length-append (encode_scalar u) (encode_text text) in
    validate_loop_first fuel (encode_scalar u ++ encode_text text) (encode_text text)
      (omega (arith, longer, length-encode_scalar u))
      (char_validate-encode_scalar u (encode_text text) s)
    ∙ validate_loop-encode_text text fuel ss (omega (arith, longer, length-encode_scalar u))

validate_of_loop :
    (bytes : List ℕ)
    → validate_loop (suc (length bytes)) (some bytes) ≡ true
    → validate bytes ≡ true
unfolding validate
validate_of_loop [] h = refl
validate_of_loop (c ∷ bs) h = sym (validate_loop_step (length (c ∷ bs)) c bs) ∙ h

-- UTF8_validate accepts the UTF-8 encoding of every text of Unicode scalar values.
pub validate-encode_text : (text : List ℕ) → All IsScalar text → validate (encode_text text) ≡ true
validate-encode_text text s =
    validate_of_loop (encode_text text)
      (validate_loop-encode_text text (suc (length (encode_text text))) s (omega arith))

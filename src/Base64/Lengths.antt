-- ===== src/Base64/Lengths.antt =====
-- Base64_decodeLength tells how many bytes a text stands for.
use paho_mqtt_c.Common.{
  ℕ, zero, suc, ◌+◌, ◌-◌, ◌*◌, ◌/◌, ◌%◌, ◌≤◌, ◌<◌, ◌≡◌, refl, ap, arith, Bool, true,
}
use paho_mqtt_c.Common.{
  List, [], ◌∷◌, All, length, lt→ltb, ◌==◌, ◌&&◌, get_elem?, Option, none, some,
}
use paho_mqtt_c.Common.Bits.{IsByte}
use paho_mqtt_c.Base64.{quad, encode_char, is_pad, pad_count, decode_length}
use paho_mqtt_c.Base64.Laws.{chars_of}

-- No index of a byte is that of '='.
no_pad_below : ℕ → Bool
no_pad_below zero = true
no_pad_below (suc n) = (is_pad (some (encode_char n)) == 0) && no_pad_below n

no_pad_sound : (n : ℕ) → no_pad_below n ≡ true → (i : ℕ) → i < n → is_pad (some (encode_char i)) ≡ 0
unfolding no_pad_below
no_pad_sound zero e i h = absurd (omega arith)
no_pad_sound (suc n) e i h = ground (arith, no_pad_sound n (ground arith) i)

is_pad-encode_char : (c : ℕ) → c < 64 → is_pad (some (encode_char c)) ≡ 0
unfolding no_pad_below is_pad encode_char
is_pad-encode_char c h = no_pad_sound 64 refl c h

is_pad_le : (o : Option ℕ) → is_pad o ≤ 1
unfolding is_pad
is_pad_le none = omega arith
is_pad_le (some c) = ground arith

four : (i : ℕ) → 4 + i ≡ suc (suc (suc (suc i)))
four i = omega arith

get_elem?_next :
    (w x y z : ℕ) (s : List ℕ) (i : ℕ) → get_elem? (w ∷ x ∷ y ∷ z ∷ s) (4 + i) ≡ get_elem? s i
get_elem?_next w x y z s i = ap (λ n. get_elem? (w ∷ x ∷ y ∷ z ∷ s) n) (four i)

-- A group in front of others has no influence on the padding.
pad_count_next :
    (w x y z : ℕ) (s : List ℕ) → 4 ≤ length s → pad_count (w ∷ x ∷ y ∷ z ∷ s) ≡ pad_count s
unfolding pad_count
pad_count_next w x y z s h =
    let all = w ∷ x ∷ y ∷ z ∷ s in
    let n = length s in
    let two : length all - 2 ≡ 4 + (n - 2) = omega (arith, h) in
    let one : length all - 1 ≡ 4 + (n - 1) = omega (arith, h) in
    rw
      (
        lt→ltb 1 (length all) (omega arith),
        lt→ltb 0 (length all) (omega arith),
        lt→ltb 1 n (omega (arith, h)),
        lt→ltb 0 n (omega (arith, h)),
        two,
        one,
        get_elem?_next w x y z s (n - 2),
        get_elem?_next w x y z s (n - 1),
      )
      refl

chars_len_pos : (a : ℕ) (input : List ℕ) → 4 ≤ length (chars_of (a ∷ input))
unfolding chars_of quad
chars_len_pos a [] = omega arith
chars_len_pos a (b ∷ []) = omega arith
chars_len_pos a (b ∷ c ∷ input) = omega arith

is_pad_64 : is_pad (some (encode_char 64)) ≡ 1
unfolding is_pad encode_char
is_pad_64 = refl

-- Three bytes for each group, or padding in their place.
length-pad_count :
    (input : List ℕ)
    → All IsByte input
    → length (chars_of input) / 4 * 3 ≡ length input + pad_count (chars_of input)
unfolding chars_of quad pad_count
length-pad_count [] b = refl
length-pad_count (a ∷ []) b = rw is_pad_64 refl
length-pad_count (a ∷ x ∷ []) b = rw (is_pad-encode_char (x % 16 * 4) (omega arith), is_pad_64) refl
length-pad_count (a ∷ x ∷ y ∷ []) b =
    rw
      (
        is_pad-encode_char (x % 16 * 4 + y / 64) (omega (arith, b.1.1.0)),
        is_pad-encode_char (y % 64) (omega arith),
      )
      refl
length-pad_count (a ∷ x ∷ y ∷ d ∷ input) b =
    let rest = chars_of (d ∷ input) in
    omega (
      arith,
      length-pad_count (d ∷ input) b.1.1.1,
      pad_count_next (encode_char (a / 4)) (encode_char (a % 4 * 16 + x / 16))
          (encode_char (x % 16 * 4 + y / 64)) (encode_char (y % 64)) rest (chars_len_pos d input),
    )

pad_count_le : (s : List ℕ) → pad_count s ≤ 2
unfolding pad_count
pad_count_le s =
    ground (arith, is_pad_le (get_elem? s (length s - 2)), is_pad_le (get_elem? s (length s - 1)))

pub decode_length-chars_of :
    (input : List ℕ)
    → All IsByte input
    → length input < 1073741824
    → decode_length (chars_of input) ≡ length input
unfolding decode_length
decode_length-chars_of input b h =
    omega (arith, h, length-pad_count input b, pad_count_le (chars_of input))

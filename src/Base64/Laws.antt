-- ===== src/Base64/Laws.antt =====
-- What Base64_encode writes, in numbers.
use paho_mqtt_c.Common.{ℕ, ◌+◌, ◌*◌, ◌/◌, ◌%◌, ◌≤◌, ◌<◌, ◌≡◌, refl, sym, ap, ◌∙◌, arith}
use paho_mqtt_c.Common.{List, [], ◌∷◌, ◌++◌, All, length, lt→ltb}
use paho_mqtt_c.Common.{bit_or}
use paho_mqtt_c.Common.Bits.{IsByte}
use paho_mqtt_c.Packet.Wire.{Result}
use paho_mqtt_c.Base64.{two_32, encode_char, first_index, second_index, third_index, quad, grown}
use paho_mqtt_c.Base64.{
  put_quad, encode_groups, first_byte, second_byte, third_byte, group_bytes, decode_group,
}
use paho_mqtt_c.Base64.{encode_length}
use paho_mqtt_c.Base64.Masks.{and_252, and_240, and_192, and_63, and_15, and_3, or_4, or_16, or_64}
use paho_mqtt_c.Base64.Masks.{decode_char-encode_char}

-- The indices as numbers.
first_index_lem : (a : ℕ) → IsByte a → first_index a ≡ a / 4
unfolding first_index
first_index_lem a h = and_252 a h

second_index_lem : (a b : ℕ) → IsByte a → IsByte b → second_index a b ≡ a % 4 * 16 + b / 16
unfolding second_index
second_index_lem a b h k =
    let n = a % 4 * 16 + b / 16 in
    let high : n / 16 * 16 ≡ a % 4 * 16 = omega arith in
    let low : n % 16 ≡ b / 16 = omega arith in
    rw (and_3 a h, and_240 b k)
      (ap (λ x. bit_or x (b / 16)) (sym high)
        ∙ ap (λ y. bit_or (n / 16 * 16) y) (sym low)
        ∙ or_16 n (omega arith))

third_index_lem : (b c : ℕ) → IsByte b → IsByte c → third_index b c ≡ b % 16 * 4 + c / 64
unfolding third_index
third_index_lem b c h k =
    let n = b % 16 * 4 + c / 64 in
    let high : n / 4 * 4 ≡ b % 16 * 4 = omega arith in
    let low : n % 4 ≡ c / 64 = omega arith in
    rw (and_15 b h, and_192 c k)
      (ap (λ x. bit_or x (c / 64)) (sym high)
        ∙ ap (λ y. bit_or (n / 4 * 4) y) (sym low)
        ∙ or_4 n (omega arith))

-- The bytes that come back from the indices.
pub first_byte_lem : (a k : ℕ) → IsByte a → k < 16 → first_byte (a / 4) (a % 4 * 16 + k) ≡ a
unfolding first_byte
first_byte_lem a k h small =
    let shifted : a / 4 * 4 % 256 ≡ a / 4 * 4 = omega arith in
    let high : (a % 4 * 16 + k) / 16 ≡ a % 4 = omega arith in
    rw (and_240 (a % 4 * 16 + k) (omega arith), shifted, high) (or_4 a h)

pub second_byte_lem :
    (g b k : ℕ) → g < 4 → IsByte b → k < 4 → second_byte (g * 16 + b / 16) (b % 16 * 4 + k) ≡ b
unfolding second_byte
second_byte_lem g b k hg h small =
    let low : (g * 16 + b / 16) % 16 ≡ b / 16 = omega arith in
    let high : (b % 16 * 4 + k) / 4 ≡ b % 16 = omega arith in
    rw (and_15 (g * 16 + b / 16) (omega arith), and_252 (b % 16 * 4 + k) (omega arith), low, high)
      (or_16 b h)

pub third_byte_lem : (g c : ℕ) → g < 16 → IsByte c → third_byte (g * 4 + c / 64) (c % 64) ≡ c
unfolding third_byte
third_byte_lem g c hg h =
    let low : (g * 4 + c / 64) % 4 ≡ c / 64 = omega arith in
    rw (and_3 (g * 4 + c / 64) (omega arith), low) (or_64 c h)

-- A group of characters is read as its indices.
pub decode_group-quad :
    (room c0 c1 c2 c3 : ℕ) (later : Result (List ℕ))
    → c0 < 65
    → c1 < 65
    → c2 < 65
    → c3 < 65
    → decode_group room (encode_char c0) (encode_char c1) (encode_char c2) (encode_char c3) later
      ≡ group_bytes room c0 c1 c2 c3 later
unfolding decode_group
decode_group-quad room c0 c1 c2 c3 later h0 h1 h2 h3 =
    rw
      (
        decode_char-encode_char c0 h0,
        decode_char-encode_char c1 h1,
        decode_char-encode_char c2 h2,
        decode_char-encode_char c3 h3,
      )
      refl

-- The characters of a text of bytes, whatever the room.
unfoldable pub chars_of : List ℕ → List ℕ
chars_of [] = []
chars_of (a ∷ []) = quad (a / 4) (a % 4 * 16) 64 64
chars_of (a ∷ b ∷ []) = quad (a / 4) (a % 4 * 16 + b / 16) (b % 16 * 4) 64
chars_of (a ∷ b ∷ c ∷ input) =
    quad (a / 4) (a % 4 * 16 + b / 16) (b % 16 * 4 + c / 64) (c % 64) ++ chars_of input

-- Their number: four for each three bytes, and four for what is left.
unfoldable pub chars_len : List ℕ → ℕ
chars_len [] = 0
chars_len (a ∷ []) = 4
chars_len (a ∷ b ∷ []) = 4
chars_len (a ∷ b ∷ c ∷ input) = 4 + chars_len input

pub length-chars_of : (input : List ℕ) → length (chars_of input) ≡ chars_len input
unfolding chars_of chars_len quad
length-chars_of [] = refl
length-chars_of (a ∷ []) = refl
length-chars_of (a ∷ b ∷ []) = refl
length-chars_of (a ∷ b ∷ c ∷ input) = omega (arith, length-chars_of input)

chars_len_lem : (input : List ℕ) → chars_len input ≡ (length input + 2) / 3 * 4
unfolding chars_len
chars_len_lem [] = refl
chars_len_lem (a ∷ []) = refl
chars_len_lem (a ∷ b ∷ []) = refl
chars_len_lem (a ∷ b ∷ c ∷ input) = omega (arith, chars_len_lem input)

-- The room that Base64_encodeLength asks for is exactly what is needed.
pub encode_length_lem :
    (input : List ℕ) → length input < 1073741824 → encode_length (length input) ≡ chars_len input
unfolding encode_length
encode_length_lem input h = omega (arith, chars_len_lem input)

put_quad_lem :
    (out_len out_count : ℕ) (chars rest : List ℕ) (count : ℕ)
    → out_count + 4 ≤ out_len
    → out_len < two_32
    → put_quad out_len out_count chars (rest, count) ≡ (chars ++ rest, count)
unfolding put_quad grown
put_quad_lem out_len out_count chars rest count h k = ground arith

grown_lem :
    (out_len out_count : ℕ)
    → out_count + 4 ≤ out_len
    → out_len < two_32
    → grown out_count ≡ out_count + 4
unfolding grown
grown_lem out_len out_count h k = omega arith

pub encode_groups_lem :
    (out_len out_count : ℕ) (input : List ℕ)
    → All IsByte input
    → out_count + chars_len input ≤ out_len
    → out_len < two_32
    → encode_groups out_len out_count input ≡ (chars_of input, out_count + chars_len input)
unfolding encode_groups chars_of chars_len quad
encode_groups_lem out_len out_count [] b h k = ap (λ n. ([], n)) (omega arith)
encode_groups_lem out_len out_count (a ∷ []) b h k =
    rw
      (
        lt→ltb out_count out_len (omega arith),
        first_index_lem a b.0,
        and_3 a b.0,
        grown_lem out_len out_count h k,
      )
      (put_quad_lem out_len out_count _ [] _ h k)
encode_groups_lem out_len out_count (a ∷ x ∷ []) b h k =
    rw
      (
        lt→ltb out_count out_len (omega arith),
        first_index_lem a b.0,
        second_index_lem a x b.0 b.1.0,
        and_15 x b.1.0,
        grown_lem out_len out_count h k,
      )
      (put_quad_lem out_len out_count _ [] _ h k)
encode_groups_lem out_len out_count (a ∷ x ∷ y ∷ input) b h k =
    rw
      (
        lt→ltb out_count out_len (omega arith),
        first_index_lem a b.0,
        second_index_lem a x b.0 b.1.0,
        third_index_lem x y b.1.0 b.1.1.0,
        and_63 y b.1.1.0,
        grown_lem out_len out_count (omega arith) k,
        encode_groups_lem out_len (out_count + 4) input b.1.1.1 (omega arith) k,
      )
      (put_quad_lem out_len out_count _ (chars_of input) _ (omega arith) k
        ∙ ap (λ n. (chars_of (a ∷ x ∷ y ∷ input), n)) (omega arith))

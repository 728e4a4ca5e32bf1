-- ===== src/Base64.antt =====
-- src/Base64.c, the functions of a build without OpenSSL and outside Windows. Lengths are unsigned numbers of 32
-- bits. A byte of text from 128 on is a negative `char`, whose place is no entry of the decoding table.
use paho_mqtt_c.Common.{
  ℕ, zero, suc, ◌+◌, ◌-◌, ◌*◌, ◌/◌, ◌%◌, List, [], ◌∷◌, ◌++◌, Option, none, some,
}
use paho_mqtt_c.Common.{
  ltb, leb, ◌==◌, ◌||◌, if◌then◌else◌, length, get_elem?, get_or, replicate, bit_and, bit_or,
}
use paho_mqtt_c.Packet.Wire.{Result, ok, fault, ◌>>=◌}
pub mod Masks
pub mod Laws
pub mod Lengths
pub mod RoundTrip

abbrev pub two_32 : ℕ
two_32 = 4294967296

-- `NV`
abbrev pub nv : ℕ
nv = 64

-- The numbers from `n` on.
abbrev pub run_from : ℕ → ℕ → List ℕ
run_from zero n = []
run_from (suc k) n = n ∷ run_from k (n + 1)

-- BASE64_ENCODE_TABLE: the capital letters, the small letters, the digits, and "+/=".
abbrev pub encode_table : List ℕ
encode_table = run_from 26 65 ++ (run_from 26 97 ++ (run_from 10 48 ++ (43 ∷ 47 ∷ 61 ∷ [])))

-- BASE64_DECODE_TABLE, its first half; the entries from 128 on, all NV, are not reached.
abbrev pub decode_table : List ℕ
decode_table =
    replicate 43 nv
    ++ (62
        ∷ nv
        ∷ nv
        ∷ nv
        ∷ 63
        ∷ (run_from 10 52
            ++ (replicate 7 nv
                ++ (run_from 26 0 ++ (replicate 6 nv ++ (run_from 26 26 ++ replicate 5 nv))))))

unfoldable pub encode_char : ℕ → ℕ
encode_char c = get_or encode_table c 0

unfoldable pub decoded : Option ℕ → Result ℕ
decoded none = fault
decoded (some c) = ok c

unfoldable pub decode_char : ℕ → Result ℕ
decode_char c = decoded (get_elem? decode_table c)

-- The four indices for three bytes, or for the last two or one; 64 is the index of '='.
unfoldable pub first_index : ℕ → ℕ
first_index a = bit_and a 252 / 4

unfoldable pub second_index : ℕ → ℕ → ℕ
second_index a b = bit_or (bit_and a 3 * 16) (bit_and b 240 / 16)

unfoldable pub third_index : ℕ → ℕ → ℕ
third_index b c = bit_or (bit_and b 15 * 4) (bit_and c 192 / 64)

unfoldable pub quad : ℕ → ℕ → ℕ → ℕ → List ℕ
quad c0 c1 c2 c3 = encode_char c0 ∷ encode_char c1 ∷ encode_char c2 ∷ encode_char c3 ∷ []

unfoldable pub grown : ℕ → ℕ
grown out_count = (out_count + 4) % two_32

-- The characters of a group are written if there is room for all.
unfoldable pub put_quad : ℕ → ℕ → List ℕ → List ℕ × ℕ → List ℕ × ℕ
put_quad out_len out_count chars (rest, count) =
    ((if leb (grown out_count) out_len then chars else []) ++ rest, count)

-- The loop of Base64_encode: the characters written, and `out_count`.
unfoldable pub encode_groups : ℕ → ℕ → List ℕ → List ℕ × ℕ
encode_groups out_len out_count [] = ([], out_count)
encode_groups out_len out_count (a ∷ []) =
    if ltb out_count out_len
    then put_quad out_len out_count (quad (first_index a) (bit_and a 3 * 16) 64 64)
        ([], grown out_count)
    else ([], out_count)
encode_groups out_len out_count (a ∷ b ∷ []) =
    if ltb out_count out_len
    then put_quad out_len out_count (quad (first_index a) (second_index a b) (bit_and b 15 * 4) 64)
        ([], grown out_count)
    else ([], out_count)
encode_groups out_len out_count (a ∷ b ∷ c ∷ input) =
    let rest = encode_groups out_len (grown out_count) input in
    if ltb out_count out_len
    then put_quad out_len out_count
        (quad (first_index a) (second_index a b) (third_index b c) (bit_and c 63)) rest
    else ([], out_count)

-- Base64_encode: the characters and the number returned, 0 if there is not room for all.
unfoldable pub encode_base64 : ℕ → List ℕ → List ℕ × ℕ
encode_base64 out_len input =
    let (chars, out_count) = encode_groups out_len 0 input in
    (chars, if leb out_count out_len then out_count else 0)

-- The three bytes of a group of four indices.
unfoldable pub first_byte : ℕ → ℕ → ℕ
first_byte c0 c1 = bit_or (c0 * 4 % 256) (bit_and c1 240 / 16)

unfoldable pub second_byte : ℕ → ℕ → ℕ
second_byte c1 c2 = bit_or (bit_and c1 15 * 16) (bit_and c2 252 / 4)

unfoldable pub third_byte : ℕ → ℕ → ℕ
third_byte c2 c3 = bit_or (bit_and c2 3 * 64) c3

-- As many bytes as there is room for and no '=' stands in the way; the loop goes on behind the third one only.
-- `room` is what is left of `out_len`, not 0; `later` is what the loop makes of the groups behind.
unfoldable pub group_bytes : ℕ → ℕ → ℕ → ℕ → ℕ → Result (List ℕ) → Result (List ℕ)
group_bytes room c0 c1 c2 c3 later =
    if leb nv c2 || leb room 1
    then ok (first_byte c0 c1 ∷ [])
    else if leb nv c3 || leb room 2
    then ok (first_byte c0 c1 ∷ second_byte c1 c2 ∷ [])
    else (do rest ← later; ok (first_byte c0 c1 ∷ second_byte c1 c2 ∷ third_byte c2 c3 ∷ rest))

-- The body of the loop of Base64_decode.
unfoldable pub decode_group : ℕ → ℕ → ℕ → ℕ → ℕ → Result (List ℕ) → Result (List ℕ)
decode_group room w x y z later = do
  c0 ← decode_char w
  c1 ← decode_char x
  c2 ← decode_char y
  c3 ← decode_char z
  group_bytes room c0 c1 c2 c3 later

-- Base64_decode with `out_len`: the bytes written, whose number is the result.
unfoldable pub decode_base64 : ℕ → List ℕ → Result (List ℕ)
decode_base64 room (w ∷ x ∷ y ∷ z ∷ input) =
    let later = decode_base64 (room - 3) input in
    if room == 0 then ok [] else decode_group room w x y z later
decode_base64 room _ = ok []

-- 1 if the character stands there and is '='.
unfoldable pub is_pad : Option ℕ → ℕ
is_pad none = 0
is_pad (some c) = if c == 61 then 1 else 0

-- `pad` of Base64_decodeLength.
unfoldable pub pad_count : List ℕ → ℕ
pad_count input =
    let n = length input in
    let last_but_one = if ltb 1 n then is_pad (get_elem? input (n - 2)) else 0 in
    let last = if ltb 0 n then is_pad (get_elem? input (n - 1)) else 0 in last_but_one + last

-- Base64_decodeLength, of a string that is not NULL and has fewer than 2^32 characters; the difference is one of
-- unsigned ints.
unfoldable pub decode_length : List ℕ → ℕ
decode_length input = (length input / 4 * 3 % two_32 + two_32 - pad_count input) % two_32

-- Base64_encodeLength; `& ~0x3` takes off the remainder of the division by 4.
unfoldable pub encode_length : ℕ → ℕ
encode_length in_len = (4 * in_len % two_32 / 3 + 3) / 4 * 4

-- ===== src/Utf8.antt =====
-- src/utf-8.c: whether a counted string is UTF-8. A `char` is given as its byte; the tests compare two
-- `char`s of one sign, or tell them apart by their sign, so signed and unsigned `char`s agree.
use paho_mqtt_c.Common.{
  ℕ, zero, suc, ◌-◌, Bool, true, false, ◌&&◌, List, [], ◌∷◌, Option, none, some,
}
use paho_mqtt_c.Common.{ltb, leb, ◌==◌, if◌then◌else◌, length, drop, bit_and}
pub mod Spec
pub mod Sound
pub mod Complete

-- The lower and the upper limit of a byte.
abbrev pub ByteRange : Type 0
ByteRange = ℕ × ℕ

-- A row of `valid_ranges`: the number of bytes is the number of their ranges.
abbrev pub valid_ranges : List (List ByteRange)
valid_ranges =
    ((0, 0x7F) ∷ [])
    ∷ ((0xC2, 0xDF) ∷ (0x80, 0xBF) ∷ [])
    ∷ ((0xE0, 0xE0) ∷ (0xA0, 0xBF) ∷ (0x80, 0xBF) ∷ [])
    ∷ ((0xE1, 0xEC) ∷ (0x80, 0xBF) ∷ (0x80, 0xBF) ∷ [])
    ∷ ((0xED, 0xED) ∷ (0x80, 0x9F) ∷ (0x80, 0xBF) ∷ [])
    ∷ ((0xEE, 0xEF) ∷ (0x80, 0xBF) ∷ (0x80, 0xBF) ∷ [])
    ∷ ((0xF0, 0xF0) ∷ (0x90, 0xBF) ∷ (0x80, 0xBF) ∷ (0x80, 0xBF) ∷ [])
    ∷ ((0xF1, 0xF3) ∷ (0x80, 0xBF) ∷ (0x80, 0xBF) ∷ (0x80, 0xBF) ∷ [])
    ∷ ((0xF4, 0xF4) ∷ (0x80, 0x8F) ∷ (0x80, 0xBF) ∷ (0x80, 0xBF) ∷ [])
    ∷ []

-- How many bytes the first byte announces.
unfoldable pub char_len : ℕ → ℕ
char_len c =
    if bit_and c 128 == 0
    then 1
    else if bit_and c 0xF0 == 0xF0
    then 4
    else if bit_and c 0xE0 == 0xE0
    then 3
    else 2

-- The inner loop: each byte lies in the range of its place.
unfoldable pub row_good : List ByteRange → List ℕ → Bool
row_good [] bytes = true
row_good (range ∷ ranges) [] = false
row_good ((lower, upper) ∷ ranges) (c ∷ bytes) = leb lower c && leb c upper && row_good ranges bytes

-- The outer loop: one of the rows of that length matches.
unfoldable pub some_row : List (List ByteRange) → ℕ → List ℕ → Bool
some_row [] charlen bytes = false
some_row (row ∷ rows) charlen bytes =
    if length row == charlen && row_good row bytes then true else some_row rows charlen bytes

-- `UTF8_char_validate`: what follows the first character. The caller gives it a byte at least.
unfoldable pub char_validate : List ℕ → Option (List ℕ)
char_validate [] = none
char_validate (c ∷ bytes) =
    if ltb (suc (length bytes)) (char_len c)
    then none
    else if some_row valid_ranges (char_len c) (c ∷ bytes)
    then some (drop (char_len c) (c ∷ bytes))
    else none

-- The while loop of `UTF8_validate`. Each round takes a byte at least.
unfoldable pub validate_loop : ℕ → Option (List ℕ) → Bool
validate_loop fuel none = false
validate_loop fuel (some []) = true
validate_loop zero (some (c ∷ bytes)) = false
validate_loop (suc fuel) (some (c ∷ bytes)) = validate_loop fuel (char_validate (c ∷ bytes))

-- A string of length 0 is valid.
unfoldable pub validate : List ℕ → Bool
validate [] = true
validate (c ∷ bytes) = validate_loop (length (c ∷ bytes)) (char_validate (c ∷ bytes))

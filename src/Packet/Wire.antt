-- ===== src/Packet/Wire.antt =====
-- src/MQTTPacket.c: readInt, readChar, readUTFlen, readInt4, MQTTLenStringRead and the writers.
-- A buffer that is read is the list of its bytes from `*pptr` up to `enddata`; a buffer that is
-- written is the list of the bytes put at `*pptr`, which the pointer then stands behind.
use paho_mqtt_c.Common.{ℕ, ◌+◌, ◌*◌, ◌/◌, ◌%◌, Bool, List, [], ◌∷◌, ◌++◌}
use paho_mqtt_c.Common.{suc, ◌==◌, ltb, leb, if◌then◌else◌, length, take, drop}
pub mod Laws

-- `err` is the error return of a function. `fault` is no return: the code reads a byte, or moves
-- its pointer, beyond the end of the buffer. `stuck` is no value of the code: a loop ran out of the
-- fuel that the model gives it.
pub data Result {ℓ} (A : Type ℓ) : Type ℓ where
  ok : A → Result A
  err : Result A
  fault : Result A
  stuck : Result A

infixl 5 ◌>>=◌
abbrev pub ◌>>=◌ {ℓ κ} : {A : Type ℓ} {B : Type κ} → Result A → (A → Result B) → Result B
ok a >>= f = f a
err >>= f = err
fault >>= f = fault
stuck >>= f = stuck

-- The bytes between `*pptr` and `enddata`.
abbrev pub Buffer : Type 0
Buffer = List ℕ

unfoldable pub read_char : Buffer → Result (ℕ × Buffer)
read_char [] = fault
read_char (c ∷ rest) = ok (c, rest)

unfoldable pub read_int : Buffer → Result (ℕ × Buffer)
read_int (a ∷ b ∷ rest) = ok (256 * a + b, rest)
read_int _ = fault

unfoldable pub read_int4 : Buffer → Result (ℕ × Buffer)
read_int4 (a ∷ b ∷ c ∷ d ∷ rest) = ok (16777216 * a + 65536 * b + 256 * c + d, rest)
read_int4 _ = fault

-- `*pptr += n`
abbrev pub advance : ℕ → Buffer → Result Buffer
advance n buf = if leb n (length buf) then ok (drop n buf) else fault

-- The string that follows a length of two bytes; it has to end before `enddata`.
unfoldable pub read_counted : ℕ → Buffer → Result (List ℕ × Buffer)
read_counted len buf = if leb len (length buf) then ok (take len buf, drop len buf) else err

unfoldable pub read_utf_len : Buffer → Result (List ℕ × Buffer)
unfolding read_int
read_utf_len buf =
    if ltb 1 (length buf) then (do (len, rest) ← read_int buf; read_counted len rest) else err

-- The result is the number of bytes taken, with the string.
unfoldable pub read_len_string : Buffer → Result (ℕ × List ℕ × Buffer)
unfolding read_int
read_len_string buf =
    if ltb 1 (length buf)
    then (do
      (len, rest) ← read_int buf
      (string, left) ← read_counted len rest
      ok (2 + len, string, left))
    else err

unfoldable pub write_char : ℕ → List ℕ
write_char c = (c % 256) ∷ []

unfoldable pub write_int : ℕ → List ℕ
write_int n = (n / 256 % 256) ∷ (n % 256) ∷ []

unfoldable pub write_int4 : ℕ → List ℕ
write_int4 n =
    let n3 = n % 16777216 in
    let n2 = n3 % 65536 in
    (n / 16777216 % 256) ∷ (n3 / 65536 % 256) ∷ (n2 / 256 % 256) ∷ (n2 % 256) ∷ []

-- `strlen`: the bytes in front of the first zero byte.
unfoldable pub strlen : List ℕ → ℕ
strlen [] = 0
strlen (c ∷ cs) = if c == 0 then 0 else suc (strlen cs)

unfoldable pub write_utf : List ℕ → List ℕ
write_utf string = write_int (strlen string) ++ take (strlen string) string

unfoldable pub write_data : List ℕ → ℕ → List ℕ
write_data bytes datalen = write_int datalen ++ take datalen bytes

-- `MQTTLenString` is a counted string: its `len` is the length of the list.
unfoldable pub write_len_string : List ℕ → List ℕ
write_len_string lenstring = write_int (length lenstring) ++ lenstring

-- The bits of the header byte, as the union `Header` lays them out.
abbrev pub header_type : ℕ → ℕ
header_type byte = byte / 16

abbrev pub header_qos : ℕ → ℕ
header_qos byte = byte / 2 % 4

unfoldable pub header_byte : ℕ → ℕ → ℕ → ℕ → ℕ
header_byte type dup qos retain = type % 16 * 16 + dup % 2 * 8 + qos % 4 * 2 + retain % 2

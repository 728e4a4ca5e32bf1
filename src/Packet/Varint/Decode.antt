-- ===== src/Packet/Varint/Decode.antt =====
-- MQTTPacket_VBIdecode over a buffer and MQTTPacket_decode over a connection.
use paho_mqtt_c.Common.{ℕ, zero, suc, ◌+◌, ◌*◌, ◌/◌, ◌%◌, ◌^◌, ◌<◌, ◌≡◌, inl, inr, ◌∙◌, ap, arith}
use paho_mqtt_c.Common.{Bool-cases, ltb→lt}
use native.Mathlib.Nat.{div-add-mod, zero-add, mul-one}
use native.Mathlib.Numerals.{add-one}
use paho_mqtt_c.Common.{◌∷◌, ◌++◌, ltb, length}
use paho_mqtt_c.Common.Bits.{low_bits, top_bit}
use paho_mqtt_c.Packet.Wire.{ok, Buffer}
use paho_mqtt_c.Packet.Varint.{encode, vbi_loop, decode_buf}
use paho_mqtt_c.Packet.Varint.Encode.{groups, encode-eq-groups}

vbi_loop_last :
    (rounds len multiplier value c : ℕ) (buf : Buffer)
    → c < 128
    → vbi_loop (suc rounds) len multiplier value (c ∷ buf) ≡ ok (suc len, value + c * multiplier)
unfolding vbi_loop
vbi_loop_last rounds len multiplier value c buf h = ground (arith, low_bits c, top_bit c)

vbi_loop_more :
    (rounds len multiplier value g : ℕ) (buf : Buffer)
    → g < 128
    → vbi_loop (suc rounds) len multiplier value ((g + 128) ∷ buf)
      ≡ vbi_loop rounds (suc len) (multiplier * 128) (value + g * multiplier) buf
unfolding vbi_loop
vbi_loop_more rounds len multiplier value g buf h =
    ground (arith, low_bits (g + 128), top_bit (g + 128))

-- A number is its lowest group and, 128 times as heavy, the others.
pub split_value :
    (n multiplier value : ℕ)
    → value + n % 128 * multiplier + n / 128 * (multiplier * 128) ≡ value + n * multiplier
split_value n multiplier value = omega (arith, ap (λ (t : ℕ). t * multiplier) (div-add-mod n 128))

-- The groups of `n` add `n * multiplier` to the value.
vbi_loop-groups :
    (k len multiplier value n : ℕ) (buf : Buffer)
    → n < 128 ^ suc k
    → vbi_loop (suc k) len multiplier value (groups k n ++ buf)
      ≡ ok (len + length (groups k n), value + n * multiplier)
unfolding groups
vbi_loop-groups zero len multiplier value n buf h =
    ground (arith, vbi_loop_last 0 len multiplier value n buf)
vbi_loop-groups (suc k) len multiplier value n buf h = elim (Bool-cases (ltb n 128)) [
  | inl small ↦
      rw small
        (vbi_loop_last (suc k) len multiplier value n buf (ltb→lt n 128 small) ∙ cc (add-one len))
  | inr large ↦ rw large (
      vbi_loop_more (suc k) len multiplier value (n % 128) (groups k (n / 128) ++ buf) (omega arith)
      ∙ vbi_loop-groups k (suc len) (multiplier * 128) (value + n % 128 * multiplier) (n / 128) buf
          (omega arith)
      ∙ ground (arith, split_value n multiplier value))
]

-- MQTTPacket_decodeBuf reads back each number of 28 bits that MQTTPacket_encode wrote, whatever
-- bytes follow, and returns the number of bytes that were written.
pub decode_buf-encode :
    (n : ℕ) (buf : Buffer)
    → n < 268435456
    → decode_buf (encode n ++ buf) ≡ ok (length (encode n), n)
unfolding decode_buf
decode_buf-encode n buf h = rw (encode-eq-groups 3 n (omega arith)) (
    rw (vbi_loop-groups 3 0 1 0 n buf (omega arith))
      (cc (zero-add (length (groups 3 n)), zero-add (n * 1), mul-one n)))

-- ===== src/Base64/Masks.antt =====
-- The masks and shifts of src/Base64.c as arithmetic, and its tables; each is checked by evaluation.
use Prim.Native.Nat.{ℕ, zero, suc, ◌*◌, ◌/◌, ◌%◌, ◌<◌, bit_and, bit_or}
use paho_mqtt_c.Common.{◌≡◌, ◌≢◌, refl, ap, arith, Bool, true, false, ◌&&◌, ◌==◌, ==_iff}
use paho_mqtt_c.Common.Bits.{agree_below, agree_below_sound}
use paho_mqtt_c.Packet.Wire.{Result, ok, err, fault, stuck}
use paho_mqtt_c.Base64.{encode_char, decode_char, decoded}

pub and_252 : (b : ℕ) → b < 256 → bit_and b 252 / 4 ≡ b / 4
unfolding agree_below
and_252 = agree_below_sound _ _ 256 refl

pub and_240 : (b : ℕ) → b < 256 → bit_and b 240 / 16 ≡ b / 16
unfolding agree_below
and_240 = agree_below_sound _ _ 256 refl

pub and_192 : (b : ℕ) → b < 256 → bit_and b 192 / 64 ≡ b / 64
unfolding agree_below
and_192 = agree_below_sound _ _ 256 refl

pub and_63 : (b : ℕ) → b < 256 → bit_and b 63 ≡ b % 64
unfolding agree_below
and_63 = agree_below_sound _ _ 256 refl

pub and_15 : (b : ℕ) → b < 256 → bit_and b 15 ≡ b % 16
unfolding agree_below
and_15 = agree_below_sound _ _ 256 refl

pub and_3 : (b : ℕ) → b < 256 → bit_and b 3 ≡ b % 4
unfolding agree_below
and_3 = agree_below_sound _ _ 256 refl

-- Two parts of a byte that do not overlap.
pub or_4 : (b : ℕ) → b < 256 → bit_or (b / 4 * 4) (b % 4) ≡ b
unfolding agree_below
or_4 = agree_below_sound _ _ 256 refl

pub or_16 : (b : ℕ) → b < 256 → bit_or (b / 16 * 16) (b % 16) ≡ b
unfolding agree_below
or_16 = agree_below_sound _ _ 256 refl

pub or_64 : (b : ℕ) → b < 256 → bit_or (b / 64 * 64) (b % 64) ≡ b
unfolding agree_below
or_64 = agree_below_sound _ _ 256 refl

false_ne_true : false ≢ true
false_ne_true e = cc

is_ok : Result ℕ → ℕ → Bool
is_ok (ok c) n = c == n
is_ok err n = false
is_ok fault n = false
is_ok stuck n = false

is_ok_sound : (r : Result ℕ) (n : ℕ) → is_ok r n ≡ true → r ≡ ok n
unfolding is_ok
is_ok_sound (ok c) n e = ap ok ((==_iff c n).0 e)
is_ok_sound err n e = absurd (false_ne_true e)
is_ok_sound fault n e = absurd (false_ne_true e)
is_ok_sound stuck n e = absurd (false_ne_true e)

inverse_below : ℕ → Bool
inverse_below zero = true
inverse_below (suc n) = is_ok (decode_char (encode_char n)) n && inverse_below n

inverse_below_sound :
    (n : ℕ)
    → inverse_below n ≡ true
    → (i : ℕ) → i < n
    → is_ok (decode_char (encode_char i)) i ≡ true
unfolding inverse_below
inverse_below_sound zero e i h = absurd (omega arith)
inverse_below_sound (suc n) e i h = ground (arith, inverse_below_sound n (ground arith) i)

-- The tables are inverse to each other, '=' included.
pub decode_char-encode_char : (c : ℕ) → c < 65 → decode_char (encode_char c) ≡ ok c
unfolding inverse_below is_ok decode_char encode_char decoded
decode_char-encode_char c h =
    is_ok_sound (decode_char (encode_char c)) c (inverse_below_sound 65 refl c h)

-- ===== src/Common/Bits.antt =====
-- Masks on one byte as arithmetic; each is a table of 256 entries, checked by evaluation.
use Prim.Native.Nat.{ℕ, zero, suc, ◌+◌, ◌*◌, ◌/◌, ◌%◌, ◌<◌, bit_and, bit_or}
use mathlib.Core.Path.{◌≡◌, refl}
use mathlib.Core.Bool.{Bool, true, ◌&&◌}
use native.Mathlib.Omega.{arith}
use paho_mqtt_c.Common.Tests.{◌==◌}

abbrev pub IsByte : ℕ → Type 0
IsByte b = b < 256

-- `f` and `g` take the same value at every number below the bound.
unfoldable pub agree_below : (ℕ → ℕ) → (ℕ → ℕ) → ℕ → Bool
agree_below f g zero = true
agree_below f g (suc n) = f n == g n && agree_below f g n

pub agree_below_sound :
    (f g : ℕ → ℕ) (n : ℕ) → agree_below f g n ≡ true → (i : ℕ) → i < n → f i ≡ g i
unfolding agree_below
agree_below_sound f g zero e i h = absurd (omega arith)
agree_below_sound f g (suc n) e i h = ground (arith, agree_below_sound f g n (ground arith) i)

pub low_bits : (b : ℕ) → b < 256 → bit_and b 127 ≡ b % 128
unfolding agree_below
low_bits = agree_below_sound _ _ 256 refl

pub top_bit : (b : ℕ) → b < 256 → bit_and b 128 ≡ b / 128 * 128
unfolding agree_below
top_bit = agree_below_sound _ _ 256 refl

pub set_top_bit : (b : ℕ) → b < 128 → bit_or b 128 ≡ b + 128
unfolding agree_below
set_top_bit = agree_below_sound _ _ 128 refl

pub top_nibble : (b : ℕ) → b < 256 → bit_and b 240 ≡ b / 16 * 16
unfolding agree_below
top_nibble = agree_below_sound _ _ 256 refl

pub top_three : (b : ℕ) → b < 256 → bit_and b 224 ≡ b / 32 * 32
unfolding agree_below
top_three = agree_below_sound _ _ 256 refl

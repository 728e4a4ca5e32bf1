-- ===== src/Packet/Varint/Encode.antt =====
-- What MQTTPacket_encode writes, and how many bytes.
use paho_mqtt_c.Common.{ℕ, zero, suc, ◌+◌, ◌/◌, ◌%◌, ◌^◌, ◌<◌, ◌≡◌, arith}
use paho_mqtt_c.Common.{List, [], ◌∷◌, ltb, if◌then◌else◌, length, All}
use paho_mqtt_c.Common.Bits.{IsByte, set_top_bit}
use paho_mqtt_c.Packet.Varint.{encode_loop, encode, vbi_len}

-- The groups of seven bits, lowest first, of a number below `128 ^ suc k`.
unfoldable pub groups : ℕ → ℕ → List ℕ
groups zero n = n ∷ []
groups (suc k) n =
    let more = (n % 128 + 128) ∷ groups k (n / 128) in if ltb n 128 then n ∷ [] else more

encode_loop-eq-groups :
    (k fuel n : ℕ) → n < fuel → n < 128 ^ suc k → encode_loop fuel n ≡ groups k n
unfolding encode_loop groups
encode_loop-eq-groups k zero n h b = absurd (omega arith)
encode_loop-eq-groups zero (suc fuel) n h b = ground arith
encode_loop-eq-groups (suc k) (suc fuel) n h b =
    ground (arith, set_top_bit (n % 128), encode_loop-eq-groups k fuel (n / 128))

pub encode-eq-groups : (k n : ℕ) → n < 128 ^ suc k → encode n ≡ groups k n
unfolding encode
encode-eq-groups k n h = encode_loop-eq-groups k (suc n) n (omega arith) h

groups-IsByte : (k n : ℕ) → n < 128 ^ suc k → All IsByte (groups k n)
unfolding groups
groups-IsByte zero n h = (omega arith, tt)
groups-IsByte (suc k) n h = ground (arith, groups-IsByte k (n / 128))

-- Every number of 28 bits is written as bytes, and `MQTTPacket_VBIlen` tells how many.
pub length-encode :
    (n : ℕ) → n < 268435456 → (length (encode n) ≡ vbi_len n) × All IsByte (encode n)
unfolding groups vbi_len
length-encode n h =
    rw (encode-eq-groups 3 n (omega arith)) (ground arith, groups-IsByte 3 n (omega arith))

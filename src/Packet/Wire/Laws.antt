-- ===== src/Packet/Wire/Laws.antt =====
-- What the readers of src/MQTTPacket.c make of the bytes of the writers.
use paho_mqtt_c.Common.{ℕ, ◌+◌, ◌*◌, ◌/◌, ◌%◌, ◌^◌, ◌<◌, ◌≡◌, refl, arith, List, [], ◌∷◌, ◌++◌}
use paho_mqtt_c.Common.{length, take, take-append_self, drop-append_self}
use paho_mqtt_c.Common.{length-append, le→leb}
use paho_mqtt_c.Packet.Wire.{ok, Buffer, read_char, read_int, read_int4}
use paho_mqtt_c.Common.{All, take-length, append_assoc}
use paho_mqtt_c.Packet.Wire.{strlen, header_type, header_qos, header_byte}
use paho_mqtt_c.Packet.Wire.{read_counted, read_utf_len, read_len_string}
use paho_mqtt_c.Packet.Wire.{write_char, write_int, write_int4, write_utf, write_len_string}

pub read_char-write_char :
    (c : ℕ) (rest : Buffer) → c < 256 → read_char (write_char c ++ rest) ≡ ok (c, rest)
unfolding read_char write_char
read_char-write_char c rest h = ground arith

pub read_int-write_int :
    (n : ℕ) (rest : Buffer) → n < 65536 → read_int (write_int n ++ rest) ≡ ok (n, rest)
unfolding read_int write_int
read_int-write_int n rest h = ground arith

pub read_int4-write_int4 :
    (n : ℕ) (rest : Buffer) → n < 2 ^ 32 → read_int4 (write_int4 n ++ rest) ≡ ok (n, rest)
unfolding read_int4 write_int4
read_int4-write_int4 n rest h = ground arith

pub read_counted-append :
    (s : List ℕ) (rest : Buffer) → read_counted (length s) (s ++ rest) ≡ ok (s, rest)
unfolding read_counted
read_counted-append s rest =
    rw (le→leb (length s) (length (s ++ rest)) (omega (arith, length-append s rest)))
      (rw (take-append_self s rest, drop-append_self s rest))

read_counted_at :
    (s : List ℕ) (rest : Buffer) (len : ℕ)
    → len ≡ length s
    → read_counted len (s ++ rest) ≡ ok (s, rest)
read_counted_at s rest len e = rw e (read_counted-append s rest)

-- A string of the length that stands in front of it.
pub read_utf_len-append :
    (s : List ℕ) (rest : Buffer)
    → length s < 65536
    → read_utf_len (write_int (length s) ++ (s ++ rest)) ≡ ok (s, rest)
unfolding read_utf_len write_int
read_utf_len-append s rest h =
    ground
      (arith, read_counted_at s rest (256 * (length s / 256 % 256) + length s % 256) (omega arith))

-- A C string has no zero byte, and its length is what `strlen` counts.
pub strlen-eq-length : (s : List ℕ) → All (λ c. 0 < c) s → strlen s ≡ length s
unfolding strlen
strlen-eq-length [] h = refl
strlen-eq-length (c ∷ cs) (h, hs) = ground (arith, strlen-eq-length cs hs)

pub take-strlen : (s : List ℕ) → All (λ c. 0 < c) s → take (strlen s) s ≡ s
take-strlen s h = rw (strlen-eq-length s h) (take-length s)

pub read_utf_len-write_utf :
    (s : List ℕ) (rest : Buffer)
    → All (λ c. 0 < c) s
    → length s < 65536
    → read_utf_len (write_utf s ++ rest) ≡ ok (s, rest)
unfolding write_utf
read_utf_len-write_utf s rest nz h = rw (take-strlen s nz) (
    rw (strlen-eq-length s nz)
      (rw (append_assoc (write_int (length s)) s rest) (read_utf_len-append s rest h)))

pub read_len_string-write_len_string :
    (s : List ℕ) (rest : Buffer)
    → length s < 65536
    → read_len_string (write_len_string s ++ rest) ≡ ok (2 + length s, s, rest)
unfolding read_len_string write_len_string write_int
read_len_string-write_len_string s rest h =
    ground
      (arith, read_counted_at s rest (256 * (length s / 256 % 256) + length s % 256) (omega arith))

pub header_byte_fields :
    (type dup qos retain : ℕ)
    → type < 16
    → qos < 4
    → (header_type (header_byte type dup qos retain) ≡ type)
      × (header_qos (header_byte type dup qos retain) ≡ qos)
unfolding header_byte
header_byte_fields type dup qos retain h k = omega arith

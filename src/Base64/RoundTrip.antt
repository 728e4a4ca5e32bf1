-- ===== src/Base64/RoundTrip.antt =====
-- What Base64_encode writes, Base64_decode reads back.
use paho_mqtt_c.Common.{ℕ, ◌+◌, ◌-◌, ◌*◌, ◌/◌, ◌%◌, ◌≤◌, ◌<◌, ◌≡◌, refl, sym, ap, ◌∙◌, arith}
use paho_mqtt_c.Common.{List, [], ◌∷◌, All, length, le→leb}
use paho_mqtt_c.Common.{lt→leb_false, ne→==_false}
use paho_mqtt_c.Common.Bits.{IsByte}
use paho_mqtt_c.Packet.Wire.{Result, ok}
use paho_mqtt_c.Base64.{nv, two_32, quad}
use paho_mqtt_c.Base64.{encode_base64, first_byte, second_byte, third_byte, group_bytes}
use paho_mqtt_c.Base64.{decode_base64, encode_length}
use paho_mqtt_c.Base64.{decode_length}
use paho_mqtt_c.Base64.Lengths.{decode_length-chars_of}
use paho_mqtt_c.Base64.Laws.{
  first_byte_lem, second_byte_lem, third_byte_lem, decode_group-quad, chars_of, chars_len,
}
use paho_mqtt_c.Base64.Laws.{length-chars_of, encode_length_lem, encode_groups_lem}

group_of_one :
    (room c0 c1 : ℕ) (later : Result (List ℕ))
    → group_bytes room c0 c1 64 64 later ≡ ok (first_byte c0 c1 ∷ [])
unfolding group_bytes
group_of_one room c0 c1 later = refl

group_of_two :
    (room c0 c1 c2 : ℕ) (later : Result (List ℕ))
    → 1 < room
    → c2 < 64
    → group_bytes room c0 c1 c2 64 later ≡ ok (first_byte c0 c1 ∷ second_byte c1 c2 ∷ [])
unfolding group_bytes
group_of_two room c0 c1 c2 later h k = rw (lt→leb_false nv c2 k, lt→leb_false room 1 h) refl

group_of_three :
    (room c0 c1 c2 c3 : ℕ) (rest : List ℕ)
    → 2 < room
    → c2 < 64
    → c3 < 64
    → group_bytes room c0 c1 c2 c3 (ok rest)
      ≡ ok (first_byte c0 c1 ∷ second_byte c1 c2 ∷ third_byte c2 c3 ∷ rest)
unfolding group_bytes
group_of_three room c0 c1 c2 c3 rest h k l =
    rw
      (
        lt→leb_false nv c2 k,
        lt→leb_false room 1 (omega arith),
        lt→leb_false nv c3 l,
        lt→leb_false room 2 h,
      )
      refl

last_byte : (a : ℕ) → IsByte a → first_byte (a / 4) (a % 4 * 16) ≡ a
last_byte a h =
    let same : a % 4 * 16 ≡ a % 4 * 16 + 0 = omega arith in
    ap (λ n. first_byte (a / 4) n) same ∙ first_byte_lem a 0 h (omega arith)

last_two : (a x : ℕ) → IsByte x → second_byte (a % 4 * 16 + x / 16) (x % 16 * 4) ≡ x
last_two a x h =
    let same : x % 16 * 4 ≡ x % 16 * 4 + 0 = omega arith in
    ap (λ n. second_byte (a % 4 * 16 + x / 16) n) same
    ∙ second_byte_lem (a % 4) x 0 (omega arith) h (omega arith)

decode_base64-chars_of :
    (room : ℕ) (input : List ℕ)
    → All IsByte input
    → length input ≤ room
    → decode_base64 room (chars_of input) ≡ ok input
unfolding decode_base64 chars_of quad
decode_base64-chars_of room [] b h = refl
decode_base64-chars_of room (a ∷ []) b h =
    rw
      (
        ne→==_false room 0 (λ e. absurd (omega (arith, e, h))),
        decode_group-quad room (a / 4) (a % 4 * 16) 64 64 (ok []) (omega (arith, b.0)) (omega arith)
            (omega arith) (omega arith),
      )
      (group_of_one room (a / 4) (a % 4 * 16) (ok []) ∙ ap (λ x. ok (x ∷ [])) (last_byte a b.0))
decode_base64-chars_of room (a ∷ x ∷ []) b h =
    rw
      (
        ne→==_false room 0 (λ e. absurd (omega (arith, e, h))),
        decode_group-quad room (a / 4) (a % 4 * 16 + x / 16) (x % 16 * 4) 64 (ok [])
            (omega (arith, b.0)) (omega (arith, b.1.0)) (omega arith) (omega arith),
      )
      (group_of_two room (a / 4) (a % 4 * 16 + x / 16) (x % 16 * 4) (ok []) (omega (arith, h))
          (omega arith)
        ∙ rw (first_byte_lem a (x / 16) b.0 (omega (arith, b.1.0)), last_two a x b.1.0) refl)
decode_base64-chars_of room (a ∷ x ∷ y ∷ input) b h =
    rw
      (
        ne→==_false room 0 (λ e. absurd (omega (arith, e, h))),
        decode_group-quad room (a / 4) (a % 4 * 16 + x / 16) (x % 16 * 4 + y / 64) (y % 64)
            (decode_base64 (room - 3) (chars_of input)) (omega (arith, b.0)) (omega (arith, b.1.0))
            (omega (arith, b.1.1.0)) (omega arith),
        decode_base64-chars_of (room - 3) input b.1.1.1 (omega (arith, h)),
      )
      (group_of_three room (a / 4) (a % 4 * 16 + x / 16) (x % 16 * 4 + y / 64) (y % 64) input
          (omega (arith, h)) (omega (arith, b.1.1.0)) (omega arith)
        ∙ rw
            (
              first_byte_lem a (x / 16) b.0 (omega (arith, b.1.0)),
              second_byte_lem (a % 4) x (y / 64) (omega arith) b.1.0 (omega (arith, b.1.1.0)),
              third_byte_lem (x % 16) y (omega arith) b.1.1.0,
            )
            refl)

-- Base64_encode, with room for what Base64_encodeLength tells, writes just as many characters and returns their
-- number; from these Base64_decodeLength tells the number of the bytes, and Base64_decode, with room for them, reads
-- the bytes back, whatever they are (fewer than 2^30).
pub decode_base64-encode_base64 :
    (out_len room : ℕ) (input : List ℕ)
    → All IsByte input
    → length input < 1073741824
    → encode_length (length input) ≤ out_len
    → out_len < two_32
    → length input ≤ room
    → (chars : List ℕ) × (encode_base64 out_len input ≡ (chars, length chars))
      × (length chars ≡ encode_length (length input))
      × (decode_length chars ≡ length input)
      × (decode_base64 room chars ≡ ok input)
unfolding encode_base64
decode_base64-encode_base64 out_len room input b short fits small room_for =
    let len = encode_length_lem input short in
    let same = length-chars_of input in
    let room_in : 0 + chars_len input ≤ out_len = omega (arith, len, fits) in
    (
      chars_of input,
      rw
          (
            encode_groups_lem out_len 0 input b room_in small,
            le→leb (0 + chars_len input) out_len room_in,
          )
          (ap (λ n. (chars_of input, n)) (omega (arith, same))),
      same ∙ sym len,
      decode_length-chars_of input b short,
      decode_base64-chars_of room input b room_for,
    )

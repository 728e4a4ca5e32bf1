-- ===== src/Runs/Texts.antt =====
-- Base64 at concrete inputs: "pah" and "paho" of the test table of src/Base64.c.
use paho_mqtt_c.Common.{ℕ, ◌≤◌, ◌≡◌, refl, arith, List, [], ◌∷◌, All, length}
use paho_mqtt_c.Common.Bits.{IsByte}
use paho_mqtt_c.Packet.Wire.{ok}
use paho_mqtt_c.Base64.{
  encode_base64, encode_groups, decode_base64, encode_length, decode_length, pad_count, is_pad,
  put_quad, quad, grown,
}
use paho_mqtt_c.Base64.{encode_char, first_index, second_index, third_index}
use paho_mqtt_c.Base64.RoundTrip.{decode_base64-encode_base64}

abbrev paho : List ℕ
paho = 112 ∷ 97 ∷ 104 ∷ 111 ∷ []

-- "cGFobw=="
abbrev paho_text : List ℕ
paho_text = 99 ∷ 71 ∷ 70 ∷ 111 ∷ 98 ∷ 119 ∷ 61 ∷ 61 ∷ []

encode_paho : encode_base64 9 paho ≡ (paho_text, 8)
unfolding encode_base64 encode_groups put_quad quad grown encode_char first_index second_index
    third_index
encode_paho = refl

decode_length_paho : decode_length paho_text ≡ 4
unfolding decode_length pad_count is_pad
decode_length_paho = refl

-- The padding of "=" is taken off a length of 0.
decode_length_wraps : decode_length (61 ∷ []) ≡ 4294967295
unfolding decode_length pad_count is_pad
decode_length_wraps = refl

paho-IsByte : All IsByte paho
paho-IsByte = (omega arith, (omega arith, (omega arith, (omega arith, tt))))

paho_fits : encode_length (length paho) ≤ 9
unfolding encode_length
paho_fits = omega arith

decode_base64-encode_base64_example :
    (chars : List ℕ) × (encode_base64 9 paho ≡ (chars, length chars))
    × (length chars ≡ encode_length (length paho))
    × (decode_length chars ≡ length paho)
    × (decode_base64 4 chars ≡ ok paho)
decode_base64-encode_base64_example =
    decode_base64-encode_base64 9 4 paho paho-IsByte (omega arith) paho_fits (omega arith)
      (omega arith)

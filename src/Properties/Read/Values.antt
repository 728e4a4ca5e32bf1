-- ===== src/Properties/Read/Values.antt =====
-- Reading back one property.
use paho_mqtt_c.Common.{
  ℕ, zero, suc, ◌+◌, ◌-◌, ◌%◌, ◌^◌, ◌≤◌, ◌<◌, ◌≡◌, ap, ◌∙◌, refl, sym, true, arith,
}
use paho_mqtt_c.Common.{List, [], ◌∷◌, ◌++◌, map, Option, none, some, All, Bool-cases, inl, inr}
use paho_mqtt_c.Common.{
  ◌==◌, ltb, leb, le→leb, append-nil, lt→ltb, length-append, append_assoc, drop-append_self,
}
use paho_mqtt_c.Common as Common
use paho_mqtt_c.Packet.Wire.{ok, Buffer, advance}
use paho_mqtt_c.Packet.Wire.{write_char, write_len_string}
use paho_mqtt_c.Packet.Wire.Laws.{read_char-write_char, read_int-write_int, read_int4-write_int4}
use paho_mqtt_c.Packet.Wire.Laws.{read_len_string-write_len_string}
use paho_mqtt_c.Packet.Varint.{encode, vbi_len}
use paho_mqtt_c.Packet.Varint.Encode.{length-encode}
use paho_mqtt_c.Packet.Varint.Decode.{decode_buf-encode}
use paho_mqtt_c.Properties.Types.{PropertyType, get_type, find_type, names_to_types, MqttProperty}
use paho_mqtt_c.Properties.Types.{byte, two_byte_integer, four_byte_integer, variable_byte_integer}
use paho_mqtt_c.Properties.Types.{binary_data, utf8_encoded_string, utf8_string_pair}
use paho_mqtt_c.Properties.Write.{value_len, write_value, write_property}
use paho_mqtt_c.Properties.Write.{write_typed}
use paho_mqtt_c.Properties.Write.Laws.{FitsType, IsFit, len_of_type}
use paho_mqtt_c.Properties.Read.{blank, read_string, read_value, read_property}
use paho_mqtt_c.Properties.Read.{read_typed}

-- The fields that go with a type; the others are blank.
abbrev pub of_type : PropertyType → MqttProperty → MqttProperty
of_type byte prop = record (blank prop.identifier) { byte_value = prop.byte_value }
of_type two_byte_integer prop = record (blank prop.identifier) { integer2 = prop.integer2 }
of_type four_byte_integer prop = record (blank prop.identifier) { integer4 = prop.integer4 }
of_type variable_byte_integer prop = record (blank prop.identifier) { integer4 = prop.integer4 }
of_type binary_data prop = record (blank prop.identifier) { string_data = prop.string_data }
of_type utf8_encoded_string prop = record (blank prop.identifier) { string_data = prop.string_data }
of_type utf8_string_pair prop = record (blank prop.identifier) {
  string_data = prop.string_data;
  string_value = prop.string_value;
}

-- A property without the fields that its type does not use.
abbrev pub relevant_for : Option PropertyType → MqttProperty → MqttProperty
relevant_for none prop = prop
relevant_for (some type) prop = of_type type prop

abbrev pub relevant : MqttProperty → MqttProperty
relevant prop = relevant_for (get_type prop.identifier) prop

pub vbi_len_pos : (n : ℕ) → 0 < vbi_len n
unfolding vbi_len
vbi_len_pos n = ground arith

pub advance_written :
    (s : List ℕ) (n : ℕ) (rest : Buffer) → n ≡ Common.length s → advance n (s ++ rest) ≡ ok rest
advance_written s n rest e = rw e (
    rw (le→leb (Common.length s) (Common.length (s ++ rest)) (omega (arith, length-append s rest)))
      (rw (drop-append_self s rest)))

read_value-write_value :
    (type : PropertyType) (prop : MqttProperty) (rest : Buffer)
    → FitsType type prop
    → read_value type prop.identifier ((write_value type prop).1 ++ rest)
      ≡ ok (value_len type prop, of_type type prop, rest)
unfolding read_value write_value value_len read_string
read_value-write_value byte prop rest h = rw (read_char-write_char prop.byte_value rest h)
read_value-write_value two_byte_integer prop rest h = rw (read_int-write_int prop.integer2 rest h)
read_value-write_value four_byte_integer prop rest h =
    rw (read_int4-write_int4 prop.integer4 rest h)
read_value-write_value variable_byte_integer prop rest h =
    rw (decode_buf-encode prop.integer4 rest h) (
      rw (advance_written (encode prop.integer4) (Common.length (encode prop.integer4)) rest refl)
        (rw (length-encode prop.integer4 h).0))
read_value-write_value binary_data prop rest h =
    rw (read_len_string-write_len_string prop.string_data rest h)
read_value-write_value utf8_encoded_string prop rest h =
    rw (read_len_string-write_len_string prop.string_data rest h)
read_value-write_value utf8_string_pair prop rest (h, k) =
    rw (append_assoc (write_len_string prop.string_data) (write_len_string prop.string_value) rest)
      (rw
        (read_len_string-write_len_string prop.string_data
          (write_len_string prop.string_value ++ rest) h)
        (rw (read_len_string-write_len_string prop.string_value rest k)))

find_type-lt :
    (rows : List (ℕ × PropertyType)) (value : ℕ) (type : PropertyType)
    → All (λ row. row.0 < 256) rows
    → find_type value rows ≡ some type
    → value < 256
unfolding find_type
find_type-lt [] value type h e = cc
find_type-lt ((name, t) ∷ rows) value type (h, hs) e =
    ground (arith, find_type-lt rows value type hs)

-- An identifier that has a type is written in one byte.
identifier-lt : (value : ℕ) (type : PropertyType) → get_type value ≡ some type → value < 256
unfolding get_type
identifier-lt value type e = find_type-lt names_to_types value type (omega arith) e

pub read_property-write_property :
    (prop : MqttProperty) (rest : Buffer)
    → IsFit prop
    → read_property ((write_property prop).1 ++ rest)
      ≡ ok (len_of_type (get_type prop.identifier) prop, relevant prop, rest)
unfolding read_property write_property write_typed
read_property-write_property prop rest f = rw f.known (
    rw (append_assoc (write_char prop.identifier) (write_value f.type prop).1 rest) (
      rw
        (read_char-write_char prop.identifier ((write_value f.type prop).1 ++ rest)
          (identifier-lt prop.identifier f.type f.known))
        (rw f.known (unfold read_typed in rw (read_value-write_value f.type prop rest f.fits)))))

-- ===== src/Runs/Packets.antt =====
-- Packets, property lists and texts at concrete inputs.
use paho_mqtt_c.Common.{◌*◌}
use paho_mqtt_c.Common.{ℕ, ◌+◌, ◌%◌, ◌<◌, ◌≤◌, ◌≡◌, refl, arith, true, false, List, [], ◌∷◌, ◌++◌}
use paho_mqtt_c.Common.{none, some, length, map, All, inl, inr, leb, if◌then◌else◌}
use paho_mqtt_c.Common.Bits.{IsByte}
use paho_mqtt_c.Packet.Wire.{ok, fault, header_type, header_qos}
use paho_mqtt_c.Packet.Varint.{encode, encode_loop, vbi_len, vbi_loop, decode_buf, Rc, decode}
use paho_mqtt_c.Packet.Varint.{tcpsocket_complete, socket_error}
use paho_mqtt_c.Packet.Varint.Encode.{length-encode}
use paho_mqtt_c.Packet.Varint.Decode.{decode_buf-encode}
use paho_mqtt_c.Packet.Varint.Stream.{Delivers, decode-encode, decode-lt}
use paho_mqtt_c.Properties.Types.{
  MqttProperty, MqttProperties, byte, utf8_string_pair, user_property,
}
use paho_mqtt_c.Properties.Types.{
  payload_format_indicator, get_type, find_type, entries_of, initializer,
}
use paho_mqtt_c.Properties.Write.{properties_len, write_properties, add, value_len}
use paho_mqtt_c.Properties.Write.Laws.{
  IsFit, IsValid, len_of_type, length-write_properties, add-IsValid,
}
use paho_mqtt_c.Properties.Read.{blank, read_properties}
use paho_mqtt_c.Properties.Read.Laws.{read_properties-write_properties}
use paho_mqtt_c.Properties.Read.Values.{relevant}
use paho_mqtt_c.Packet.Publish.{Publish, publish, publish_type, send_publish}
use paho_mqtt_c.Packet.Publish.Laws.{SameProperties, sent_id, publish-send_publish}
use paho_mqtt_c.Packet.Publish.Buffers.{CanSend}
use paho_mqtt_c.Packet.Ack.{pubrec, Ack, ack, send_ack, send_disconnect, Subscription}
use paho_mqtt_c.Packet.Ack.{send_subscribe, send_unsubscribe, topics_len}
use paho_mqtt_c.Properties.Write.{properties_len}
use paho_mqtt_c.Packet.Wire.{strlen}
use paho_mqtt_c.Packet.Ack.Laws.{ack-send_ack, ack-send_disconnect, length-send_subscribe}
use paho_mqtt_c.Utf8.{validate, validate_loop, char_validate, char_len, some_row, row_good}
use paho_mqtt_c.Utf8.Spec.{IsScalar, encode_text}
use paho_mqtt_c.Utf8.Sound.{validate_sound}
use paho_mqtt_c.Utf8.Complete.{validate-encode_text}

encode_321 : encode 321 ≡ 193 ∷ 2 ∷ []
unfolding encode encode_loop
encode_321 = refl

-- A fourth byte that announces another one is followed by no byte, and `len` is 5.
decode_buf_too_long : decode_buf (128 ∷ 128 ∷ 128 ∷ 128 ∷ []) ≡ ok (5, 0)
unfolding decode_buf vbi_loop
decode_buf_too_long = refl

decode_buf_cut : decode_buf (193 ∷ []) ≡ fault
unfolding decode_buf vbi_loop
decode_buf_cut = refl

length-encode_example : (length (encode 321) ≡ vbi_len 321) × All IsByte (encode 321)
length-encode_example = length-encode 321 (omega arith)

decode_buf-encode_example : decode_buf (encode 321 ++ 7 ∷ []) ≡ ok (length (encode 321), 321)
decode_buf-encode_example = decode_buf-encode 321 (7 ∷ []) (omega arith)

-- A connection that gives the bytes of a list, and an error at its end.
abbrev getch : List ℕ → Rc × ℕ × List ℕ
getch [] = (socket_error, 0, [])
getch (c ∷ cs) = (tcpsocket_complete, c % 256, cs)

getch-Delivers : Delivers getch (193 ∷ 2 ∷ 9 ∷ []) (encode 321) (9 ∷ [])
unfolding encode encode_loop
getch-Delivers = (2 ∷ 9 ∷ [], refl, (9 ∷ [], refl, refl))

getch-IsByte : (net : List ℕ) → IsByte (getch net).1
getch-IsByte [] = omega arith
getch-IsByte (c ∷ cs) = omega arith

decode-encode_example : decode getch (193 ∷ 2 ∷ 9 ∷ []) ≡ (tcpsocket_complete, 321, 9 ∷ [])
decode-encode_example =
    decode-encode getch 321 (193 ∷ 2 ∷ 9 ∷ []) (9 ∷ []) (omega arith) getch-Delivers

decode-lt_example : (decode getch (255 ∷ 255 ∷ 255 ∷ 127 ∷ [])).1 < 268435456
decode-lt_example = decode-lt getch (255 ∷ 255 ∷ 255 ∷ 127 ∷ []) getch-IsByte

abbrev format : MqttProperty
format = record (blank payload_format_indicator) { byte_value = 1 }

abbrev pair : MqttProperty
pair = record (blank user_property) { string_data = 107 ∷ []; string_value = 118 ∷ 119 ∷ [] }

format-IsFit : IsFit format
unfolding get_type find_type
format-IsFit = record { type = byte; known = refl; fits = omega arith }

pair-IsFit : IsFit pair
unfolding get_type find_type
pair-IsFit = record { type = utf8_string_pair; known = refl; fits = (omega arith, omega arith) }

abbrev pub one_property : MqttProperties
one_property = record { max_count = 10; length = 2; array = some (format ∷ []) }

pub one_property-IsValid : IsValid one_property
unfolding get_type find_type value_len
one_property-IsValid = record {
  counted = refl;
  room = omega arith;
  short = omega arith;
  fit = (format-IsFit, tt);
}

-- The list is valid, and its two properties take ten bytes.
abbrev two_properties : MqttProperties
two_properties = record { max_count = 10; length = 10; array = some (format ∷ pair ∷ []) }

two_properties-IsValid : IsValid two_properties
unfolding get_type find_type value_len
two_properties-IsValid = record {
  counted = refl;
  room = omega arith;
  short = omega arith;
  fit = (format-IsFit, (pair-IsFit, tt));
}

length-write_properties_example :
    (length (write_properties (some two_properties)).1 ≡ properties_len (some two_properties))
    × ((write_properties (some two_properties)).0 ≡ 1 + 10)
length-write_properties_example = length-write_properties two_properties two_properties-IsValid

one_and_pair_short : one_property.length + len_of_type (get_type pair.identifier) pair < 268435456
unfolding get_type find_type value_len
one_and_pair_short = omega arith

add-IsValid_example :
    (props' : MqttProperties) × (add one_property pair ≡ some props')
    × IsValid props'
    × (entries_of props'.array ≡ entries_of one_property.array ++ pair ∷ [])
add-IsValid_example =
    add-IsValid one_property pair one_property-IsValid pair-IsFit one_and_pair_short

read_properties-write_properties_example :
    (out : MqttProperties) × (read_properties initializer
        ((write_properties (some two_properties)).1 ++ 5 ∷ [])
      ≡ ok (out, 5 ∷ []))
    × (entries_of out.array ≡ map relevant (entries_of two_properties.array))
    × (out.length ≡ two_properties.length)
    × (length (entries_of out.array) ≤ out.max_count)
read_properties-write_properties_example =
    read_properties-write_properties two_properties (5 ∷ []) two_properties-IsValid

-- A message of MQTT 5 on the topic "a/b".
abbrev pack : Publish
pack = record {
  header = 0;
  topic = 97 ∷ 47 ∷ 98 ∷ [];
  msg_id = 258;
  payload = 0 ∷ 1 ∷ 2 ∷ [];
  mqtt_version = 5;
  properties = two_properties;
}

pack-CanSend : CanSend pack
pack-CanSend = record {
  no_zero = (omega arith, (omega arith, (omega arith, tt)));
  topic_short = omega arith;
  id_short = omega arith;
  properties_valid = two_properties-IsValid;
}

publish-send_publish_example :
    (header : ℕ) × (bytes : List ℕ) × (got : Publish) × (send_publish pack 0 2 1
      ≡ header ∷ (encode (length bytes) ++ bytes))
    × (header_type header ≡ publish_type)
    × (header_qos header ≡ 2)
    × (publish 5 header bytes ≡ ok got)
    × (got.topic ≡ pack.topic)
    × (got.msg_id ≡ sent_id 2 258)
    × (got.payload ≡ pack.payload)
    × SameProperties 5 two_properties got.properties
publish-send_publish_example = publish-send_publish pack 0 2 1 pack-CanSend (omega arith)

ack-send_ack_example :
    ack 5 (send_ack pubrec 258 0).0 (send_ack pubrec 258 0).1
    ≡ ok (record {
      header = (send_ack pubrec 258 0).0;
      msg_id = some 258;
      rc = if leb 5 5 then some 0 else none;
      mqtt_version = 5;
      properties = if leb 5 5 then some initializer else none;
    })
ack-send_ack_example = ack-send_ack 5 pubrec 258 0 (omega arith) (omega arith) (omega arith)

ack-send_disconnect_example :
    (length (send_disconnect 5 130 (some two_properties)).1.1
      ≡ (send_disconnect 5 130 (some two_properties)).1.0)
    × (got : Ack) × (ack 5
          (send_disconnect 5 130 (some two_properties)).0
          (send_disconnect 5 130 (some two_properties)).1.1
        ≡ ok got)
    × (got.rc ≡ some 130)
    × (out : MqttProperties) × (got.properties ≡ some out)
    × (entries_of out.array ≡ map relevant (entries_of two_properties.array))
ack-send_disconnect_example =
    ack-send_disconnect 5 130 two_properties (omega arith) (omega arith) two_properties-IsValid

abbrev subscriptions : List Subscription
subscriptions =
    record { topic = 97 ∷ []; qos = 1; opts = none }
    ∷ record { topic = 35 ∷ []; qos = 2; opts = none }
    ∷ []

subscriptions_short :
    2 + length subscriptions * 3 + topics_len subscriptions + properties_len (some one_property)
    < 2147483648
unfolding topics_len properties_len strlen vbi_len
subscriptions_short = omega arith

length-send_subscribe_example :
    (length (send_subscribe 5 subscriptions (some one_property) 7).1
      ≡ (send_subscribe 5 subscriptions (some one_property) 7).0)
    × (length (send_unsubscribe 5 subscriptions (some one_property) 7).1
        ≡ (send_unsubscribe 5 subscriptions (some one_property) 7).0)
length-send_subscribe_example =
    length-send_subscribe 5 7 subscriptions one_property one_property-IsValid subscriptions_short

-- "é€" is accepted, and an overlong zero is not.
validate_two : validate (0xC3 ∷ 0xA9 ∷ 0xE2 ∷ 0x82 ∷ 0xAC ∷ []) ≡ true
unfolding validate validate_loop char_validate char_len some_row row_good
validate_two = refl

validate_overlong : validate (0xC0 ∷ 0x80 ∷ []) ≡ false
unfolding validate validate_loop char_validate char_len some_row row_good
validate_overlong = refl

validate_sound_example :
    (text : List ℕ) × All IsScalar text × (0xC3 ∷ 0xA9 ∷ 0xE2 ∷ 0x82 ∷ 0xAC ∷ [] ≡ encode_text text)
validate_sound_example =
    validate_sound (0xC3 ∷ 0xA9 ∷ 0xE2 ∷ 0x82 ∷ 0xAC ∷ [])
      (omega arith, (omega arith, (omega arith, (omega arith, (omega arith, tt))))) validate_two

validate-encode_text_example : validate (encode_text (0x41 ∷ 0x20AC ∷ 0x1F600 ∷ [])) ≡ true
validate-encode_text_example =
    validate-encode_text (0x41 ∷ 0x20AC ∷ 0x1F600 ∷ [])
      (inl (omega arith), (inl (omega arith), (inr (omega arith, omega arith), tt)))

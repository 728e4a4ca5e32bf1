-- ===== src/Packet/Publish/Buffers.antt =====
-- The bytes that MQTTPacket_send_publish gathers.
use paho_mqtt_c.Common.{ℕ, ◌+◌, ◌<◌, ◌≡◌, refl, arith, false, List, [], ◌∷◌, ◌++◌}
use paho_mqtt_c.Common.{ltb, leb, length, take, All, Bool-cases, inl, inr, ap, append_assoc}
use paho_mqtt_c.Common.{length-append, take-length, take_all, append-nil, ◌||◌, ◌∙◌, sym}
use paho_mqtt_c.Packet.Wire.{write_int}
use paho_mqtt_c.Packet.Wire.{header_byte}
use paho_mqtt_c.Packet.Wire.Laws.{strlen-eq-length}
use paho_mqtt_c.Packet.Varint.{encode}
use paho_mqtt_c.Properties.Write.Laws.{IsValid, length-write_properties}
use paho_mqtt_c.Packet.Publish.{Publish}
use paho_mqtt_c.Packet.Publish.{
  total_len, gathered, sends, variable_header, publish_buffers, id_bytes, property_bytes,
}
use paho_mqtt_c.Packet.Publish.{publish_type, send_publish}

-- A packet that can be sent: a topic that is a C string with a length of two bytes, a message id of two
-- bytes, properties that are valid.
pub record CanSend (pack : Publish) : Type 0 where
  pub no_zero : All (λ c. 0 < c) pack.topic
  pub topic_short : length pack.topic < 65536
  pub id_short : pack.msg_id < 65536
  pub properties_valid : IsValid pack.properties

-- The bytes after the fixed header.
unfoldable pub body : Publish → ℕ → List ℕ
body pack qos =
    write_int (length pack.topic)
    ++ (pack.topic
        ++ (id_bytes qos pack.msg_id
            ++ (property_bytes pack.mqtt_version pack.properties ++ pack.payload)))

length-variable_header :
    (pack : Publish) (qos : ℕ)
    → IsValid pack.properties
    → length (variable_header pack qos).1 ≡ (variable_header pack qos).0
unfolding variable_header id_bytes property_bytes write_int
length-variable_header pack qos v =
    let sizes = length-write_properties pack.properties v in
    elim (Bool-cases (ltb 0 qos)) [
      | inl q ↦ elim (Bool-cases (leb 5 pack.mqtt_version)) [
        | inl m ↦ rw q (rw m (omega (arith, sizes.0)))
        | inr m ↦ rw q (rw m refl)
      ]
      | inr q ↦ elim (Bool-cases (leb 5 pack.mqtt_version)) [
        | inl m ↦ rw q (rw m (omega (arith, sizes.0)))
        | inr m ↦ rw q (rw m refl)
      ]
    ]

variable_bytes :
    (pack : Publish) (qos : ℕ)
    → IsValid pack.properties
    → take (variable_header pack qos).0 (variable_header pack qos).1
      ≡ id_bytes qos pack.msg_id ++ property_bytes pack.mqtt_version pack.properties
variable_bytes pack qos v =
    take_all (variable_header pack qos).0 (variable_header pack qos).1
      (length-variable_header pack qos v)
    ∙ unfold variable_header in refl

-- With no message id and no properties there is no third buffer.
no_variable_bytes :
    (pack : Publish) (qos : ℕ)
    → (ltb 0 qos || leb 5 pack.mqtt_version) ≡ false
    → id_bytes qos pack.msg_id ++ property_bytes pack.mqtt_version pack.properties ≡ []
unfolding id_bytes property_bytes
no_variable_bytes pack qos h = ground arith

gathered-publish_buffers :
    (pack : Publish) (qos : ℕ) → CanSend pack → gathered (publish_buffers pack qos) ≡ body pack qos
unfolding gathered publish_buffers body
gathered-publish_buffers pack qos c = elim (Bool-cases (ltb 0 qos || leb 5 pack.mqtt_version)) [
  | inl q ↦ rw q (
      rw
        (
          strlen-eq-length pack.topic c.no_zero,
          variable_bytes pack qos c.properties_valid,
          take-length pack.topic,
          take-length pack.payload,
          append-nil pack.payload,
        )
        (unfold write_int in
          ap (λ l. write_int (length pack.topic) ++ (pack.topic ++ l))
            (append_assoc (id_bytes qos pack.msg_id)
              (property_bytes pack.mqtt_version pack.properties) pack.payload)))
  | inr q ↦ rw q (
      rw
        (
          strlen-eq-length pack.topic c.no_zero,
          take-length pack.topic,
          take-length pack.payload,
          append-nil pack.payload,
        )
        (unfold write_int in
          ap (λ l. write_int (length pack.topic) ++ (pack.topic ++ l))
            (sym (ap (λ l. l ++ pack.payload) (no_variable_bytes pack qos q))
              ∙ append_assoc (id_bytes qos pack.msg_id)
                  (property_bytes pack.mqtt_version pack.properties) pack.payload)))
]

append_len3 : (a b c : List ℕ) → length (a ++ (b ++ c)) ≡ length (a ++ b) + length c
append_len3 a b c = rw (← append_assoc a b c) (length-append (a ++ b) c)

length-body :
    (pack : Publish) (qos : ℕ)
    → length (body pack qos)
      ≡ 2
        + length pack.topic
        + length (
            id_bytes qos pack.msg_id
            ++ (property_bytes pack.mqtt_version pack.properties ++ pack.payload))
unfolding body write_int
length-body pack qos = omega (
  arith,
  length-append pack.topic (
      id_bytes qos pack.msg_id
      ++ (property_bytes pack.mqtt_version pack.properties ++ pack.payload)),
)

variable_header_bytes :
    (pack : Publish) (qos : ℕ)
    → (variable_header pack qos).1
      ≡ id_bytes qos pack.msg_id ++ property_bytes pack.mqtt_version pack.properties
unfolding variable_header
variable_header_bytes pack qos = refl

total_len-publish_buffers :
    (pack : Publish) (qos : ℕ)
    → CanSend pack
    → total_len (publish_buffers pack qos) ≡ length (body pack qos)
unfolding total_len publish_buffers
total_len-publish_buffers pack qos c =
    let third =
      append_len3 (id_bytes qos pack.msg_id) (property_bytes pack.mqtt_version pack.properties)
        pack.payload in
    let all = length-body pack qos in
    let topic = strlen-eq-length pack.topic c.no_zero in
    elim (Bool-cases (ltb 0 qos || leb 5 pack.mqtt_version)) [
      | inl q ↦ rw q (
          omega (
            arith,
            all,
            third,
            topic,
            length-variable_header pack qos c.properties_valid,
            ap length (variable_header_bytes pack qos),
          ))
      | inr q ↦ rw q (omega (arith, all, third, topic, ap length (no_variable_bytes pack qos q)))
    ]

-- What MQTTPacket_send_publish sends is the header byte, the number of the bytes that follow, and these
-- bytes.
pub send_publish_lem :
    (pack : Publish) (dup qos retained : ℕ)
    → CanSend pack
    → send_publish pack dup qos retained
      ≡ header_byte publish_type dup qos retained
        ∷ (encode (length (body pack qos)) ++ body pack qos)
unfolding send_publish sends
send_publish_lem pack dup qos retained c =
    rw (total_len-publish_buffers pack qos c, gathered-publish_buffers pack qos c)

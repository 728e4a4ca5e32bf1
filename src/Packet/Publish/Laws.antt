-- ===== src/Packet/Publish/Laws.antt =====
-- Reading back what MQTTPacket_send_publish sends.
use paho_mqtt_c.Common.{ℕ, ◌<◌, ◌≡◌, refl, arith, List, [], ◌∷◌, ◌++◌}
use paho_mqtt_c.Common.{ltb, leb, if◌then◌else◌, length, Bool-cases, inl, inr}
use paho_mqtt_c.Common.{map}
use paho_mqtt_c.Packet.Wire.{ok, Buffer, write_int}
use paho_mqtt_c.Packet.Wire.{header_qos, header_type, header_byte}
use paho_mqtt_c.Packet.Wire.Laws.{read_utf_len-append, read_int-write_int}
use paho_mqtt_c.Packet.Wire.Laws.{header_byte_fields}
use paho_mqtt_c.Packet.Varint.{encode}
use paho_mqtt_c.Properties.Types.{MqttProperties, initializer, entries_of}
use paho_mqtt_c.Properties.Write.Laws.{IsValid}
use paho_mqtt_c.Properties.Read.Laws.{read_properties-write_properties}
use paho_mqtt_c.Properties.Read.Values.{relevant}
use paho_mqtt_c.Packet.Publish.{Publish, read_msg_id, read_v5_properties, publish}
use paho_mqtt_c.Packet.Publish.{id_bytes, property_bytes}
use paho_mqtt_c.Packet.Publish.{publish_type, send_publish}
use paho_mqtt_c.Packet.Publish.Buffers.{CanSend, body, send_publish_lem}

-- The properties that a reader gets: those that were sent, each with the fields that its type uses, or
-- none before MQTT 5.
abbrev pub SameProperties : ℕ → MqttProperties → MqttProperties → Type 0
SameProperties mqtt_version sent got =
    entries_of got.array ≡ (if leb 5 mqtt_version then map relevant (entries_of sent.array) else [])

pub read_v5_properties-property_bytes :
    (mqtt_version : ℕ) (properties : MqttProperties) (rest : Buffer)
    → IsValid properties
    → (got : MqttProperties) × (read_v5_properties mqtt_version
          (property_bytes mqtt_version properties ++ rest)
        ≡ ok (got, rest))
      × SameProperties mqtt_version properties got
unfolding read_v5_properties property_bytes
read_v5_properties-property_bytes mqtt_version properties rest v =
    elim (Bool-cases (leb 5 mqtt_version)) [
      | inl m ↦
          let (got, run, same, _, _) = read_properties-write_properties properties rest v in
          (got, rw m run, rw m same)
      | inr m ↦ (initializer, rw m refl, rw m refl)
    ]

-- The message id that a reader gets.
abbrev pub sent_id : ℕ → ℕ → ℕ
sent_id qos msg_id = if ltb 0 qos then msg_id else 0

pub read_msg_id-write_int :
    (msg_id : ℕ) (rest : Buffer)
    → msg_id < 65536
    → read_msg_id (write_int msg_id ++ rest) ≡ ok (msg_id, rest)
unfolding read_msg_id
read_msg_id-write_int msg_id rest h =
    rw (read_int-write_int msg_id rest h) (unfold write_int in ground arith)

read_id-id_bytes :
    (header qos msg_id : ℕ) (rest : Buffer)
    → header_qos header ≡ qos
    → msg_id < 65536
    → (if ltb 0 (header_qos header)
        then read_msg_id (id_bytes qos msg_id ++ rest)
        else ok (0, id_bytes qos msg_id ++ rest))
      ≡ ok (sent_id qos msg_id, rest)
unfolding id_bytes
read_id-id_bytes header qos msg_id rest e h = rw e (elim (Bool-cases (ltb 0 qos)) [
  | inl q ↦ rw q (read_msg_id-write_int msg_id rest h)
  | inr q ↦ rw q refl
])

publish-body :
    (pack : Publish) (header qos : ℕ)
    → CanSend pack
    → header_qos header ≡ qos
    → (got : Publish) × (publish pack.mqtt_version header (body pack qos) ≡ ok got)
      × (got.topic ≡ pack.topic)
      × (got.msg_id ≡ sent_id qos pack.msg_id)
      × (got.payload ≡ pack.payload)
      × SameProperties pack.mqtt_version pack.properties got.properties
unfolding publish body
publish-body pack header qos c e =
    let after = property_bytes pack.mqtt_version pack.properties ++ pack.payload in
    let (got, run, same) =
      read_v5_properties-property_bytes pack.mqtt_version pack.properties pack.payload
        c.properties_valid in
    (
      record {
        header = header;
        topic = pack.topic;
        msg_id = sent_id qos pack.msg_id;
        payload = pack.payload;
        mqtt_version = pack.mqtt_version;
        properties = got;
      },
      rw (read_utf_len-append pack.topic (id_bytes qos pack.msg_id ++ after) c.topic_short)
          (rw (read_id-id_bytes header qos pack.msg_id after e c.id_short) (rw run)),
      refl,
      refl,
      refl,
      same,
    )

-- What MQTTPacket_send_publish sends is a fixed header, of the given type and QoS, whose remaining
-- length is the number of the bytes behind it; and from these bytes MQTTPacket_publish reads the topic,
-- the payload, the message id (if the QoS is not 0) and the properties (in MQTT 5) that were sent.
pub publish-send_publish :
    (pack : Publish) (dup qos retained : ℕ)
    → CanSend pack
    → qos < 4
    → (header : ℕ) × (bytes : List ℕ) × (got : Publish) × (send_publish pack dup qos retained
        ≡ header ∷ (encode (length bytes) ++ bytes))
      × (header_type header ≡ publish_type)
      × (header_qos header ≡ qos)
      × (publish pack.mqtt_version header bytes ≡ ok got)
      × (got.topic ≡ pack.topic)
      × (got.msg_id ≡ sent_id qos pack.msg_id)
      × (got.payload ≡ pack.payload)
      × SameProperties pack.mqtt_version pack.properties got.properties
publish-send_publish pack dup qos retained c h =
    let header = header_byte publish_type dup qos retained in
    let (t, q) = header_byte_fields publish_type dup qos retained (omega arith) h in
    let (got, run, topic, id, payload, same) = publish-body pack header qos c q in
    (
      header,
      body pack qos,
      got,
      send_publish_lem pack dup qos retained c,
      t,
      q,
      run,
      topic,
      id,
      payload,
      same,
    )

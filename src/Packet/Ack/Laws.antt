-- ===== src/Packet/Ack/Laws.antt =====
-- Acknowledgements read back, disconnects read back, and the sizes of subscribe packets.
use paho_mqtt_c.Common.{ℕ, ◌+◌, ◌*◌, ◌≤◌, ◌<◌, ◌≡◌, ◌≢◌, refl, arith, List, [], ◌∷◌, ◌++◌}
use paho_mqtt_c.Common.{none, some, leb, ◌==◌, if◌then◌else◌, length, length-append}
use paho_mqtt_c.Common.{
  Bool-cases, inl, inr, suc, le→leb, append-nil, ◌%◌, ne→==_false, map, length-take,
}
use paho_mqtt_c.Packet.Wire.{ok, Buffer, write_int, write_char, write_utf, strlen}
use paho_mqtt_c.Packet.Wire.{header_byte, read_char, read_int}
use paho_mqtt_c.Packet.Wire.Laws.{header_byte_fields}
use paho_mqtt_c.Packet.Publish.{read_msg_id}
use paho_mqtt_c.Properties.Types.{MqttProperties, initializer, entries_of}
use paho_mqtt_c.Properties.Write.{properties_len, write_properties}
use paho_mqtt_c.Properties.Write.Laws.{IsValid, length-write_properties}
use paho_mqtt_c.Properties.Read.{read_properties}
use paho_mqtt_c.Properties.Read.Laws.{read_properties-write_properties}
use paho_mqtt_c.Properties.Read.Values.{vbi_len_pos, relevant}
use paho_mqtt_c.Packet.Ack.{
  Ack, ack, ack_id, ack_v5, ack_reason, ack_properties, send_ack, send_disconnect,
  disconnect_buffer,
}
use paho_mqtt_c.Packet.Ack.{
  disconnect, pubrel, Subscription, subscribe_topics, unsubscribe_topics, topics_len,
}
use paho_mqtt_c.Packet.Ack.{subopts, send_subscribe, send_unsubscribe}

read_msg_id_all : (msg_id : ℕ) → msg_id < 65536 → read_msg_id (write_int msg_id) ≡ ok (msg_id, [])
read_msg_id_all msg_id h = unfold write_int in unfold read_msg_id read_int in ground arith

-- An acknowledgement that MQTTPacket_send_ack makes, of any type but DISCONNECT, is read back by
-- MQTTPacket_ack with its message id. In MQTT 5 its reason code is then 0 and it has no properties.
pub ack-send_ack :
    (mqtt_version type msg_id dup : ℕ)
    → type < 16
    → type ≢ disconnect
    → msg_id < 65536
    → ack mqtt_version (send_ack type msg_id dup).0 (send_ack type msg_id dup).1
      ≡ ok (record {
        header = (send_ack type msg_id dup).0;
        msg_id = some msg_id;
        rc = if leb 5 mqtt_version then some 0 else none;
        mqtt_version = mqtt_version;
        properties = if leb 5 mqtt_version then some initializer else none;
      })
unfolding ack ack_id ack_v5 ack_reason ack_properties send_ack
ack-send_ack mqtt_version type msg_id dup h ne k =
    let header = header_byte type dup (if type == pubrel then 1 else 0) 0 in
    let t = (header_byte_fields type dup (if type == pubrel then 1 else 0) 0 h (ground arith)).0 in
    rw (t, ne→==_false type disconnect ne)
      (rw (read_msg_id_all msg_id k) (elim (Bool-cases (leb 5 mqtt_version)) [
        | inl v ↦ rw v (unfold write_int in refl)
        | inr v ↦ rw v refl
      ]))

send_disconnect_lem :
    (mqtt_version reason : ℕ) (props : MqttProperties)
    → 5 ≤ mqtt_version
    → send_disconnect mqtt_version reason (some props)
      ≡ (224, (1 + properties_len (some props), (reason % 256) ∷ (write_properties (some props)).1))
unfolding send_disconnect disconnect_buffer write_char header_byte
send_disconnect_lem mqtt_version reason props v = rw (le→leb 5 mqtt_version v) refl

disconnect_reason : (n c : ℕ) (buf : Buffer) → 0 < n → ack_reason 224 n (c ∷ buf) ≡ ok (c, buf)
unfolding ack_reason read_char
disconnect_reason n c buf h = ground arith

disconnect_properties :
    (n : ℕ) (buf : Buffer) → 1 < n → ack_properties 224 n buf ≡ read_properties initializer buf
unfolding ack_properties
disconnect_properties n buf h = ground arith

-- The reader on a reason code and a list of properties.
ack_disconnect :
    (mqtt_version reason : ℕ) (bytes : List ℕ) (out : MqttProperties)
    → 5 ≤ mqtt_version
    → reason < 256
    → 0 < length bytes
    → read_properties initializer bytes ≡ ok (out, [])
    → ack mqtt_version 224 ((reason % 256) ∷ bytes)
      ≡ ok (record {
        header = 224;
        msg_id = none;
        rc = some reason;
        mqtt_version = mqtt_version;
        properties = some out;
      })
unfolding ack ack_id ack_v5
ack_disconnect mqtt_version reason bytes out v r pos run =
    rw
      (
        le→leb 5 mqtt_version v,
        disconnect_reason (suc (length bytes)) (reason % 256) bytes (omega arith),
        disconnect_properties (suc (length bytes)) bytes (omega arith),
        run,
      )
      (ground arith)

pub properties_len_pos : (props : MqttProperties) → 0 < properties_len (some props)
unfolding properties_len
properties_len_pos props = omega (arith, vbi_len_pos props.length)

-- A disconnect of MQTT 5 is read back with the reason that was sent, and with the properties that were
-- sent, each with the fields that its type uses; the length that is allocated for it is the number of
-- bytes written.
pub ack-send_disconnect :
    (mqtt_version reason : ℕ) (props : MqttProperties)
    → 5 ≤ mqtt_version
    → reason < 256
    → IsValid props
    → (length (send_disconnect mqtt_version reason (some props)).1.1
        ≡ (send_disconnect mqtt_version reason (some props)).1.0)
      × (got : Ack) × (ack mqtt_version
            (send_disconnect mqtt_version reason (some props)).0
            (send_disconnect mqtt_version reason (some props)).1.1
          ≡ ok got)
      × (got.rc ≡ some reason)
      × (out : MqttProperties) × (got.properties ≡ some out)
      × (entries_of out.array ≡ map relevant (entries_of props.array))
ack-send_disconnect mqtt_version reason props v r valid =
    let (out, run, same, _, _) = read_properties-write_properties props [] valid in
    let bytes = (write_properties (some props)).1 in
    rw (send_disconnect_lem mqtt_version reason props v) (
      omega (arith, (length-write_properties props valid).0),
      record {
        header = 224;
        msg_id = none;
        rc = some reason;
        mqtt_version = mqtt_version;
        properties = some out;
      },
      ack_disconnect mqtt_version reason bytes out v r
          (omega (arith, (length-write_properties props valid).0, properties_len_pos props))
          (rw (append-nil bytes) at run),
      refl,
      out,
      refl,
      same,
    )

abbrev pub v5_bytes : ℕ → MqttProperties → List ℕ
v5_bytes mqtt_version props = if leb 5 mqtt_version then (write_properties (some props)).1 else []

pub v5_len :
    (mqtt_version : ℕ) (props : MqttProperties)
    → IsValid props
    → length (v5_bytes mqtt_version props)
      ≡ (if leb 5 mqtt_version then properties_len (some props) else 0)
v5_len mqtt_version props v = elim (Bool-cases (leb 5 mqtt_version)) [
  | inl m ↦ rw m (length-write_properties props v).0
  | inr m ↦ rw m refl
]

v5_len_le :
    (mqtt_version : ℕ) (props : MqttProperties)
    → (if leb 5 mqtt_version then properties_len (some props) else 0) ≤ properties_len (some props)
v5_len_le mqtt_version props = ground arith

pub length-write_int : (n : ℕ) → length (write_int n) ≡ 2
unfolding write_int
length-write_int n = refl

strlen-le : (s : List ℕ) → strlen s ≤ length s
unfolding strlen
strlen-le [] = omega arith
strlen-le (c ∷ cs) = ground (arith, strlen-le cs)

pub length-write_utf : (s : List ℕ) → length (write_utf s) ≡ 2 + strlen s
unfolding write_utf write_int
length-write_utf s = omega (arith, length-take (strlen s) s, strlen-le s)

subscribe_topics_len :
    (mqtt_version : ℕ) (subs : List Subscription)
    → length (subscribe_topics mqtt_version subs) ≡ length subs * 3 + topics_len subs
unfolding subscribe_topics topics_len write_char
subscribe_topics_len mqtt_version [] = refl
subscribe_topics_len mqtt_version (s ∷ subs) = omega (
  arith,
  length-append (write_utf s.topic)
      ((subopts mqtt_version s % 256) ∷ subscribe_topics mqtt_version subs),
  length-write_utf s.topic,
  subscribe_topics_len mqtt_version subs,
)

unsubscribe_topics_len :
    (subs : List Subscription)
    → length (unsubscribe_topics subs) ≡ length subs * 2 + topics_len subs
unfolding unsubscribe_topics topics_len
unsubscribe_topics_len [] = refl
unsubscribe_topics_len (s ∷ subs) = omega (
  arith,
  length-append (write_utf s.topic) (unsubscribe_topics subs),
  length-write_utf s.topic,
  unsubscribe_topics_len subs,
)

-- The buffers that MQTTPacket_send_subscribe and MQTTPacket_send_unsubscribe allocate, for valid properties and
-- as long as three bytes for each topic, the bytes of the topics and the properties are together fewer than
-- 2^31 - 2, are filled exactly by what they write.
pub length-send_subscribe :
    (mqtt_version msg_id : ℕ) (subs : List Subscription) (props : MqttProperties)
    → IsValid props
    → 2 + length subs * 3 + topics_len subs + properties_len (some props) < 2147483648
    → (length (send_subscribe mqtt_version subs (some props) msg_id).1
        ≡ (send_subscribe mqtt_version subs (some props) msg_id).0)
      × (length (send_unsubscribe mqtt_version subs (some props) msg_id).1
          ≡ (send_unsubscribe mqtt_version subs (some props) msg_id).0)
length-send_subscribe mqtt_version msg_id subs props v short = (
  unfold send_subscribe in
      omega (
        arith,
        length-append (write_int msg_id)
            (v5_bytes mqtt_version props ++ subscribe_topics mqtt_version subs),
        length-append (v5_bytes mqtt_version props) (subscribe_topics mqtt_version subs),
        length-write_int msg_id,
        v5_len mqtt_version props v,
        subscribe_topics_len mqtt_version subs,
        v5_len_le mqtt_version props,
        short,
      ),
  unfold send_unsubscribe in
      omega (
        arith,
        length-append (write_int msg_id) (v5_bytes mqtt_version props ++ unsubscribe_topics subs),
        length-append (v5_bytes mqtt_version props) (unsubscribe_topics subs),
        length-write_int msg_id,
        v5_len mqtt_version props v,
        unsubscribe_topics_len subs,
        v5_len_le mqtt_version props,
        short,
      ),
)

-- ===== src/Packet/Ack.antt =====
-- src/MQTTPacket.c: MQTTPacket_ack, MQTTPacket_send_ack, MQTTPacket_send_disconnect.
-- src/MQTTPacketOut.c: MQTTPacket_suback, MQTTPacket_unsuback, MQTTPacket_send_subscribe and
-- MQTTPacket_send_unsubscribe. Of a sender, the buffer that it hands to MQTTPacket_send.
use paho_mqtt_c.Common.{
  ℕ, zero, suc, ◌+◌, ◌*◌, ◌%◌, Bool, not, List, [], ◌∷◌, ◌++◌, Option, none, some,
}
use paho_mqtt_c.Common.{ltb, leb, ◌==◌, ◌||◌, ◌&&◌, if◌then◌else◌, length, bit_or}
use paho_mqtt_c.Packet.Wire.{
  Result, ok, err, ◌>>=◌, Buffer, read_char, write_int, write_char, strlen,
}
use paho_mqtt_c.Packet.Wire.{header_type, header_byte, write_utf}
use paho_mqtt_c.Packet.Publish.{PacketBuffer, sends, read_msg_id, read_v5_properties}
use paho_mqtt_c.Properties.Types.{MqttProperties, initializer}
use paho_mqtt_c.Properties.Write.{properties_len, write_properties}
use paho_mqtt_c.Properties.Read.{read_properties}
pub mod Laws

-- enum msgTypes
abbrev pub puback : ℕ
puback = 4

abbrev pub pubrec : ℕ
pubrec = 5

abbrev pub pubrel : ℕ
pubrel = 6

abbrev pub pubcomp : ℕ
pubcomp = 7

abbrev pub disconnect : ℕ
disconnect = 14

-- `Ack`. The structure is not cleared when it is allocated: a field that is never set is `none`.
pub record Ack : Type 0 where
  pub header : ℕ
  pub msg_id : Option ℕ
  pub rc : Option ℕ
  pub mqtt_version : ℕ
  pub properties : Option MqttProperties

unfoldable pub ack_id : ℕ → Buffer → Result (Option ℕ × Buffer)
ack_id header buf =
    if header_type header == disconnect
    then ok (none, buf)
    else (do (msg_id, rest) ← read_msg_id buf; ok (some msg_id, rest))

-- The reason code and the properties, by the length of the packet.
unfoldable pub ack_reason : ℕ → ℕ → Buffer → Result (ℕ × Buffer)
ack_reason header datalen buf =
    if ltb 2 datalen || (header_type header == disconnect && ltb 0 datalen)
    then read_char buf
    else ok (0, buf)

unfoldable pub ack_properties : ℕ → ℕ → Buffer → Result (MqttProperties × Buffer)
ack_properties header datalen buf =
    if ltb 3 datalen || (header_type header == disconnect && ltb 1 datalen)
    then read_properties initializer buf
    else ok (initializer, buf)

-- Before MQTT 5 neither is set.
unfoldable pub ack_v5 : ℕ → ℕ → ℕ → Buffer → Result (Option ℕ × Option MqttProperties)
ack_v5 mqtt_version header datalen buf =
    if leb 5 mqtt_version
    then (do
      (rc, rest) ← ack_reason header datalen buf
      (properties, left) ← ack_properties header datalen rest
      ok (some rc, some properties))
    else ok (none, none)

unfoldable pub ack : ℕ → ℕ → Buffer → Result Ack
ack mqtt_version header buf = do
  (msg_id, rest) ← ack_id header buf
  (rc, properties) ← ack_v5 mqtt_version header (length buf) rest
  ok (record {
    header = header;
    msg_id = msg_id;
    rc = rc;
    mqtt_version = mqtt_version;
    properties = properties;
  })

-- The fixed header and the buffer of MQTTPacket_send_ack.
unfoldable pub send_ack : ℕ → ℕ → ℕ → ℕ × List ℕ
send_ack type msg_id dup =
    (header_byte type dup (if type == pubrel then 1 else 0) 0, write_int msg_id)

-- The reason and the properties of a disconnect, with the length given for their buffer.
unfoldable pub disconnect_buffer : ℕ → Option MqttProperties → PacketBuffer
disconnect_buffer reason none = if reason == 0 then (0, []) else (1, write_char reason)
disconnect_buffer reason (some props) =
    (1 + properties_len (some props), write_char reason ++ (write_properties (some props)).1)

-- The fixed header and the buffer of MQTTPacket_send_disconnect.
unfoldable pub send_disconnect : ℕ → ℕ → Option MqttProperties → ℕ × PacketBuffer
send_disconnect mqtt_version reason props = (
  header_byte disconnect 0 0 0,
  if leb 5 mqtt_version then disconnect_buffer reason props else (0, []),
)

-- `Suback` and `Unsuback`: the list of the bytes behind the properties.
pub record Suback : Type 0 where
  pub header : ℕ
  pub msg_id : ℕ
  pub mqtt_version : ℕ
  pub properties : MqttProperties
  pub qoss : List ℕ

-- The loop that appends a byte for each round reads the rest of the packet.
unfoldable pub suback : ℕ → ℕ → Buffer → Result Suback
suback mqtt_version header buf = do
  (msg_id, rest) ← read_msg_id buf
  (properties, qoss) ← read_v5_properties mqtt_version rest
  codes ← if length qoss == 0 then err else ok qoss
  ok (record {
    header = header;
    msg_id = msg_id;
    mqtt_version = mqtt_version;
    properties = properties;
    qoss = codes;
  })

-- Before MQTT 5 an unsuback has no reason codes, and what follows the message id is not read.
unfoldable pub unsuback : ℕ → ℕ → Buffer → Result Suback
unsuback mqtt_version header buf = do
  (msg_id, rest) ← read_msg_id buf
  (properties, left) ← read_v5_properties mqtt_version rest
  codes ← if leb 5 mqtt_version then (if length left == 0 then err else ok left) else ok []
  ok (record {
    header = header;
    msg_id = msg_id;
    mqtt_version = mqtt_version;
    properties = properties;
    qoss = codes;
  })

-- A topic with what `qoss` and `opts` hold at its place. `opts` is `none` for NULL.
pub record SubscribeOptions : Type 0 where
  pub no_local : ℕ
  pub retain_as_published : ℕ
  pub retain_handling : ℕ

pub record Subscription : Type 0 where
  pub topic : List ℕ
  pub qos : ℕ
  pub opts : Option SubscribeOptions

unfoldable pub subopts : ℕ → Subscription → ℕ
subopts mqtt_version s = elim s.opts [
  | none ↦ s.qos
  | some o ↦
      if leb 5 mqtt_version
      then bit_or (bit_or (bit_or s.qos (o.no_local * 4)) (o.retain_as_published * 8))
          (o.retain_handling * 16)
      else s.qos
]

unfoldable pub topics_len : List Subscription → ℕ
topics_len [] = 0
topics_len (s ∷ subs) = strlen s.topic + topics_len subs

unfoldable pub subscribe_topics : ℕ → List Subscription → List ℕ
subscribe_topics mqtt_version [] = []
subscribe_topics mqtt_version (s ∷ subs) =
    write_utf s.topic ++ (write_char (subopts mqtt_version s) ++ subscribe_topics mqtt_version subs)

-- The length that is allocated, `datalen`, an int here given by its 32 bits, and the bytes that are written.
unfoldable pub send_subscribe : ℕ → List Subscription → Option MqttProperties → ℕ → PacketBuffer
send_subscribe mqtt_version subs props msg_id = (
  (2 + length subs * 3 + topics_len subs + (if leb 5 mqtt_version then properties_len props else 0))
      % 4294967296,
  write_int msg_id
      ++ ((if leb 5 mqtt_version then (write_properties props).1 else [])
          ++ subscribe_topics mqtt_version subs),
)

unfoldable pub unsubscribe_topics : List Subscription → List ℕ
unsubscribe_topics [] = []
unsubscribe_topics (s ∷ subs) = write_utf s.topic ++ unsubscribe_topics subs

-- As for SUBSCRIBE, with two bytes of length for each topic and none of options.
unfoldable pub send_unsubscribe : ℕ → List Subscription → Option MqttProperties → ℕ → PacketBuffer
send_unsubscribe mqtt_version subs props msg_id = (
  (2 + length subs * 2 + topics_len subs + (if leb 5 mqtt_version then properties_len props else 0))
      % 4294967296,
  write_int msg_id
      ++ ((if leb 5 mqtt_version then (write_properties props).1 else [])
          ++ unsubscribe_topics subs),
)

-- ===== src/Packet/Publish.antt =====
-- src/MQTTPacket.c: MQTTPacket_publish, and what MQTTPacket_send_publish and MQTTPacket_sends hand to
-- the socket layer. The persistence of the packet and the masking of a web socket are left out.
use paho_mqtt_c.Common.{
  ℕ, ◌+◌, Bool, List, [], ◌∷◌, ◌++◌, some, ltb, leb, if◌then◌else◌, length, take, ◌||◌,
}
use paho_mqtt_c.Packet.Wire.{
  Result, ok, err, ◌>>=◌, Buffer, read_int, read_utf_len, write_int, strlen,
}
use paho_mqtt_c.Packet.Wire.{header_qos, header_byte}
use paho_mqtt_c.Packet.Varint.{encode}
use paho_mqtt_c.Properties.Types.{MqttProperties, initializer}
use paho_mqtt_c.Properties.Write.{properties_len, write_properties}
use paho_mqtt_c.Properties.Read.{read_properties}
pub mod Laws
pub mod Buffers

-- `Publish`. `topiclen` and `payloadlen` are the lengths of the lists.
pub record Publish : Type 0 where
  pub header : ℕ
  pub topic : List ℕ
  pub msg_id : ℕ
  pub payload : List ℕ
  pub mqtt_version : ℕ
  pub properties : MqttProperties

-- The message id of a packet, if there is enough data for it.
unfoldable pub read_msg_id : Buffer → Result (ℕ × Buffer)
read_msg_id buf = if ltb (length buf) 2 then err else read_int buf

-- The properties that a packet of MQTT 5 has at this place.
unfoldable pub read_v5_properties : ℕ → Buffer → Result (MqttProperties × Buffer)
read_v5_properties mqtt_version buf =
    if leb 5 mqtt_version then read_properties initializer buf else ok (initializer, buf)

unfoldable pub publish : ℕ → ℕ → Buffer → Result Publish
publish mqtt_version header buf = do
  (topic, rest) ← read_utf_len buf
  (msg_id, rest') ← if ltb 0 (header_qos header) then read_msg_id rest else ok (0, rest)
  (properties, payload) ← read_v5_properties mqtt_version rest'
  ok (record {
    header = header;
    topic = topic;
    msg_id = msg_id;
    payload = payload;
    mqtt_version = mqtt_version;
    properties = properties;
  })

-- A buffer of `PacketBuffers`: the length given for it, and the bytes written in it.
abbrev pub PacketBuffer : Type 0
PacketBuffer = ℕ × List ℕ

unfoldable pub total_len : List PacketBuffer → ℕ
total_len [] = 0
total_len ((len, bytes) ∷ bufs) = len + total_len bufs

unfoldable pub gathered : List PacketBuffer → List ℕ
gathered [] = []
gathered ((len, bytes) ∷ bufs) = take len bytes ++ gathered bufs

-- What `MQTTPacket_sends` gives to `WebSocket_putdatas`: the fixed header and the buffers.
unfoldable pub sends : ℕ → List PacketBuffer → List ℕ
sends header bufs = header ∷ (encode (total_len bufs) ++ gathered bufs)

unfoldable pub id_bytes : ℕ → ℕ → List ℕ
id_bytes qos msg_id = if ltb 0 qos then write_int msg_id else []

unfoldable pub property_bytes : ℕ → MqttProperties → List ℕ
property_bytes mqtt_version properties =
    if leb 5 mqtt_version then (write_properties (some properties)).1 else []

-- The third buffer, with the message id and the properties.
unfoldable pub variable_header : Publish → ℕ → PacketBuffer
variable_header pack qos = (
  (if ltb 0 qos then 2 else 0)
      + (if leb 5 pack.mqtt_version then properties_len (some pack.properties) else 0),
  id_bytes qos pack.msg_id ++ property_bytes pack.mqtt_version pack.properties,
)

unfoldable pub publish_buffers : Publish → ℕ → List PacketBuffer
publish_buffers pack qos =
    let topiclen = strlen pack.topic in
    if ltb 0 qos || leb 5 pack.mqtt_version
    then (2, write_int topiclen)
      ∷ (topiclen, pack.topic)
      ∷ variable_header pack qos
      ∷ (length pack.payload, pack.payload)
      ∷ []
    else (2, write_int topiclen) ∷ (topiclen, pack.topic) ∷ (length pack.payload, pack.payload) ∷ []

abbrev pub publish_type : ℕ
publish_type = 3

unfoldable pub send_publish : Publish → ℕ → ℕ → ℕ → List ℕ
send_publish pack dup qos retained =
    sends (header_byte publish_type dup qos retained) (publish_buffers pack qos)

-- ===== src/Protocol/Exchange.antt =====
-- src/MQTTProtocolClient.c: the exchanges of messages of QoS 1 and 2. MQTTProtocol_startPublish,
-- MQTTProtocol_handlePublishes, handlePubacks, handlePubrecs, handlePubrels, handlePubcomps and
-- MQTTProtocol_queueAck. Allocation succeeds. Times, log lines and the bookkeeping of the memory of stored
-- publications (`state.publications`, `pubToRemove`) are left out: a message holds its publication.
use paho_mqtt_c.Common.{
  ℕ, ◌+◌, ◌%◌, Bool, true, false, not, ◌&&◌, List, [], ◌∷◌, ◌++◌, Option, none, some,
}
use paho_mqtt_c.Common.{leb, ltb, ◌==◌, if◌then◌else◌}
use paho_mqtt_c.Packet.Wire.{header_qos}
use paho_mqtt_c.Packet.Publish.{Publish}
use paho_mqtt_c.Packet.Ack.{puback, pubrec, pubrel, pubcomp}
use paho_mqtt_c.Properties.Types.{MqttProperties, initializer}
use paho_mqtt_c.Properties.Write.{copy}
pub mod Messages
pub mod Inbound
pub mod Release
pub mod Outbound
pub mod Handshake

-- `Publications`: the topic and the payload.
pub record Publication : Type 0 where
  pub topic : List ℕ
  pub payload : List ℕ

-- `Messages`. `publish` is `none` for NULL.
pub record Message : Type 0 where
  pub qos : ℕ
  pub retain : ℕ
  pub msgid : ℕ
  pub mqtt_version : ℕ
  pub properties : MqttProperties
  pub publish : Option Publication
  pub next_message_type : ℕ

-- The `AckRequest` that waits in `outboundQueue`.
pub record AckRequest : Type 0 where
  pub ack_type : ℕ
  pub message_id : ℕ

-- The fields of `Clients` and of `state` that the handlers change. The counters are unsigned ints.
pub record Session : Type 0 where
  pub inbound : List Message
  pub outbound : List Message
  pub outbound_queue : List AckRequest
  pub msgs_sent : ℕ
  pub msgs_received : ℕ

-- `++` on a counter of messages, an unsigned int of 32 bits.
abbrev pub count_up : ℕ → ℕ
count_up n = (n + 1) % 4294967296

-- What a handler does outside: a call of `Protocol_processPublication`, a packet sent, a record removed
-- from the persistent store.
pub data Event : Type 0 where
  deliver : Message → Event
  send_ack : ℕ → ℕ → Event
  send_publish : Message → Event
  unpersist : ℕ → Event

-- What a handler gets from outside: whether the socket has pending writes, the completion code of a
-- packet sent, and the return code of MQTTPersistence_remove.
pub record Env : Type 0 where
  pub pending_writes : Bool
  pub send_rc : ℕ
  pub remove_rc : ℕ

-- `ListFindItem` with `messageIDCompare`, on a list without two messages of one id. `ListFindItem` tests the
-- `current` element of the list before it searches: see Messages for a search that does.
unfoldable pub find : ℕ → List Message → Option Message
find msgid [] = none
find msgid (m ∷ ms) = if m.msgid == msgid then some m else find msgid ms

-- `ListInsert` in front of the message found, and `ListRemove` of that message.
unfoldable pub replace : ℕ → Message → List Message → List Message
replace msgid new [] = []
replace msgid new (m ∷ ms) = if m.msgid == msgid then new ∷ ms else m ∷ replace msgid new ms

-- `ListRemove` of the message found.
unfoldable pub remove : ℕ → List Message → List Message
remove msgid [] = []
remove msgid (m ∷ ms) = if m.msgid == msgid then ms else m ∷ remove msgid ms

-- `MQTTProtocol_queueAck` if the socket has pending writes, otherwise the packet is sent.
unfoldable pub ack_or_queue : Env → ℕ → ℕ → Session → Session × List Event × ℕ
ack_or_queue env type msgid s =
    if env.pending_writes
    then (
      record s {
        outbound_queue = s.outbound_queue ++ record { ack_type = type; message_id = msgid } ∷ [];
      },
      [],
      0,
    )
    else (s, send_ack type msgid ∷ [], env.send_rc)

-- The message that a publish packet gives.
unfoldable pub message_of : Publish → ℕ → Message
message_of pack next_message_type = record {
  qos = header_qos pack.header;
  retain = pack.header % 2;
  msgid = pack.msg_id;
  mqtt_version = pack.mqtt_version;
  properties = if leb 5 pack.mqtt_version then copy pack.properties else initializer;
  publish = some (record { topic = pack.topic; payload = pack.payload });
  next_message_type = next_message_type;
}

-- The events put in front of those of the call that ends a handler.
abbrev pub after : List Event → Session × List Event × ℕ → Session × List Event × ℕ
after events (s, more, rc) = (s, events ++ more, rc)

-- The list of inbound messages with the message of QoS 2. MQTT 5 hands the message on when it comes first,
-- and its publication is gone then.
unfoldable pub store_inbound : Message → Option Message → List Message → List Event × List Message
store_inbound m (some old) ms = ([], replace m.msgid m ms)
store_inbound m none ms =
    if leb 5 m.mqtt_version
    then (deliver m ∷ [], ms ++ record m { publish = none } ∷ [])
    else ([], ms ++ m ∷ [])

unfoldable pub receive_qos2 : Env → Message → Session → Session × List Event × ℕ
receive_qos2 env m s =
    let (events, inbound') = store_inbound m (find m.msgid s.inbound) s.inbound in
    after events (ack_or_queue env pubrec m.msgid (record s { inbound = inbound' }))

unfoldable pub handle_publishes : Env → Publish → Session → Session × List Event × ℕ
handle_publishes env pack s =
    let m = message_of pack pubrel in
    if m.qos == 0
    then (s, deliver m ∷ [], 0)
    else if m.qos == 1
    then after (deliver m ∷ []) (ack_or_queue env puback m.msgid s)
    else if m.qos == 2
    then receive_qos2 env m s
    else (s, [], 0)

-- `MQTTPersistence_remove` and `ListRemove` of an outbound message.
unfoldable pub remove_outbound : Env → ℕ → Session → Session × List Event × ℕ
remove_outbound env msgid s =
    (record s { outbound = remove msgid s.outbound }, unpersist msgid ∷ [], env.remove_rc)

unfoldable pub puback_found : Env → ℕ → Option Message → Session → Session × List Event × ℕ
puback_found env msgid none s = (s, [], 0)
puback_found env msgid (some m) s = if m.qos == 1 then remove_outbound env msgid s else (s, [], 0)

unfoldable pub handle_pubacks : Env → ℕ → Session → Session × List Event × ℕ
handle_pubacks env msgid s = puback_found env msgid (find msgid s.outbound) s

-- An acknowledgement as `Ack` holds it.
pub record AckPacket : Type 0 where
  pub ack_id : ℕ
  pub ack_rc : ℕ
  pub ack_version : ℕ

-- A PUBREC of MQTT 5 with an error ends the exchange.
unfoldable pub pubrec_expected : Env → AckPacket → Message → Session → Session × List Event × ℕ
pubrec_expected env ack m s =
    if leb 5 ack.ack_version && leb 128 ack.ack_rc
    then (let (s', events, rc) = remove_outbound env ack.ack_id s in
        (record s' { msgs_sent = count_up s.msgs_sent }, events, rc))
    else ack_or_queue env pubrel ack.ack_id (record s {
      outbound = replace ack.ack_id (record m { next_message_type = pubcomp }) s.outbound;
    })

unfoldable pub pubrec_found : Env → AckPacket → Option Message → Session → Session × List Event × ℕ
pubrec_found env ack none s = ack_or_queue env pubrel ack.ack_id s
pubrec_found env ack (some m) s =
    if m.qos == 2 && m.next_message_type == pubrec
    then pubrec_expected env ack m s
    else ack_or_queue env pubrel ack.ack_id s

unfoldable pub handle_pubrecs : Env → AckPacket → Session → Session × List Event × ℕ
handle_pubrecs env ack s = pubrec_found env ack (find ack.ack_id s.outbound) s

unfoldable pub pubrel_found : ℕ → Option Message → Session → Session × List Event
pubrel_found msgid none s = (s, [])
pubrel_found msgid (some m) s =
    if m.qos == 2 && m.next_message_type == pubrel
    then (
      record s { inbound = remove msgid s.inbound; msgs_received = count_up s.msgs_received },
      (if leb 5 m.mqtt_version then [] else deliver m ∷ []) ++ unpersist msgid ∷ [],
    )
    else (s, [])

-- A PUBCOMP is sent in every case.
unfoldable pub handle_pubrels : Env → ℕ → Session → Session × List Event × ℕ
handle_pubrels env msgid s =
    let (s', events) = pubrel_found msgid (find msgid s.inbound) s in
    after events (ack_or_queue env pubcomp msgid s')

unfoldable pub pubcomp_found : Env → ℕ → Option Message → Session → Session × List Event × ℕ
pubcomp_found env msgid none s = (s, [], 0)
pubcomp_found env msgid (some m) s =
    if m.qos == 2 && m.next_message_type == pubcomp
    then (let (s', events, rc) = remove_outbound env msgid s in
        (record s' { msgs_sent = count_up s.msgs_sent }, events, rc))
    else (s, [], 0)

unfoldable pub handle_pubcomps : Env → ℕ → Session → Session × List Event × ℕ
handle_pubcomps env msgid s = pubcomp_found env msgid (find msgid s.outbound) s

-- `MQTTProtocol_startPublish`: a message of QoS 1 or 2 is kept for retries. For QoS 1 the source leaves
-- `nextMessageType` unset.
unfoldable pub start_publish : Env → Publish → ℕ → ℕ → Session → Session × List Event × ℕ
start_publish env pack qos retained s =
    let m = record (message_of pack (if qos == 2 then pubrec else 0)) {
      qos = qos;
      retain = retained;
    } in
    (
      if ltb 0 qos then record s { outbound = s.outbound ++ m ∷ [] } else s,
      send_publish m ∷ [],
      env.send_rc,
    )

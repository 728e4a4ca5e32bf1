-- ===== src/Runs/Sessions.antt =====
-- Message ids and exchanges of messages at concrete inputs.
use paho_mqtt_c.Common.{
  ℕ, ◌≤◌, ◌≡◌, ◌≢◌, ◌⊎◌, refl, arith, true, false, List, [], ◌∷◌, ◌++◌, none, some,
}
use paho_mqtt_c.Common.{get_elem?}
use paho_mqtt_c.Protocol.Exchange.Messages.{find_current, find_current-find}
use paho_mqtt_c.Common.{zero, suc}
use paho_mqtt_c.Packet.Publish.{Publish}
use paho_mqtt_c.Packet.Ack.{pubrel, pubrec, pubcomp}
use paho_mqtt_c.Properties.Types.{initializer}
use paho_mqtt_c.Protocol.MsgId.{in_use, assign_loop, assign_msg_id}
use paho_mqtt_c.Protocol.MsgId.Laws.{IsId, AllOthersUsed, assign_msg_id_lem, assign_loop_endless}
use paho_mqtt_c.Protocol.Exchange.{
  Session, Env, AckPacket, count_up, find, message_of, handle_pubrecs,
}
use paho_mqtt_c.Protocol.Exchange.{handle_pubacks, handle_pubcomps, start_publish, handle_publishes}
use paho_mqtt_c.Protocol.Exchange.Inbound.{exactly_once}
use paho_mqtt_c.Protocol.Exchange.Release.{deliveries, publishes, pubrels, SameOthers}
use paho_mqtt_c.Protocol.Exchange.Outbound.{
  IsValid, Reach, here, next, start, on_publish, Reach-IsValid,
}
use paho_mqtt_c.Protocol.Exchange.Handshake.{Waits, Answered, start_publish-Waits, early_packets}
use paho_mqtt_c.Protocol.Exchange.Handshake.{pubrec-Waits, handshake}

assign_msg_id_example :
    ((id : ℕ) × (assign_msg_id (1 ∷ 2 ∷ []) 65535 ≡ some (id, id))
      × IsId id
      × (in_use (1 ∷ 2 ∷ []) id ≡ false)
      × (id ≢ 65535))
    ⊎ ((assign_msg_id (1 ∷ 2 ∷ []) 65535 ≡ some (0, 65535)) × AllOthersUsed (1 ∷ 2 ∷ []) 65535)
assign_msg_id_example = assign_msg_id_lem (1 ∷ 2 ∷ []) 65535 (omega arith, omega arith)

-- The ids from `n` down to 1.
abbrev down_from : ℕ → List ℕ
down_from zero = []
down_from (suc n) = suc n ∷ down_from n

in_use-down_from : (n id : ℕ) → 1 ≤ id → id ≤ n → in_use (down_from n) id ≡ true
unfolding in_use
in_use-down_from zero id l h = absurd (omega arith)
in_use-down_from (suc n) id l h = ground (arith, in_use-down_from n id)

assign_loop_endless_example : assign_loop 3 (down_from 65535) 0 7 ≡ none
assign_loop_endless_example =
    assign_loop_endless 3 (down_from 65535) 7 (λ id h. in_use-down_from 65535 id h.0 h.1)
      (omega arith, omega arith)

-- A PUBLISH of MQTT 5 with QoS 2.
abbrev pack : Publish
pack = record {
  header = 52;
  topic = 97 ∷ [];
  msg_id = 7;
  payload = 1 ∷ [];
  mqtt_version = 5;
  properties = initializer;
}

abbrev idle : Session
idle = record { inbound = []; outbound = []; outbound_queue = []; msgs_sent = 0; msgs_received = 0 }

abbrev ready : Env
ready = record { pending_writes = false; send_rc = 0; remove_rc = 0 }

abbrev busy : Env
busy = record { pending_writes = true; send_rc = 0; remove_rc = 0 }

idle_unknown : find 7 idle.inbound ≡ none
unfolding find
idle_unknown = refl

exactly_once_example :
    let received = publishes (ready ∷ busy ∷ []) pack idle in
    let ended = pubrels (busy ∷ ready ∷ []) 7 received.0 in
    (deliveries (received.1 ++ ended.1) ≡ message_of pack pubrel ∷ [])
    × (find 7 ended.0.inbound ≡ none)
    × SameOthers 7 idle.inbound ended.0.inbound
unfolding message_of
exactly_once_example =
    exactly_once pack refl ready busy (busy ∷ []) (ready ∷ []) idle idle_unknown tt

idle-IsValid : IsValid idle
idle-IsValid = record { inbound_distinct = tt; outbound_distinct = tt }

idle_free : find pack.msg_id idle.outbound ≡ none
unfolding find
idle_free = refl

abbrev started : Session
started = (start_publish ready pack 2 0 idle).0

idle-started : Reach idle started
idle-started = next here (start ready pack 2 0 idle idle_free)

Reach-IsValid_example : IsValid (handle_publishes busy pack started).0
Reach-IsValid_example =
    Reach-IsValid idle-IsValid (next idle-started (on_publish busy pack started))

started-Waits : Waits 7 pubrec started
started-Waits = start_publish-Waits ready pack 0 idle idle_free

started-IsValid : IsValid started
started-IsValid = Reach-IsValid idle-IsValid idle-started

early_packets_example :
    (handle_pubacks busy 7 started ≡ (started, [], 0))
    × (handle_pubcomps busy 7 started ≡ (started, [], 0))
early_packets_example = early_packets busy 7 started started-Waits

abbrev received : AckPacket
received = record { ack_id = 7; ack_rc = 0; ack_version = 5 }

pubrec-Waits_example :
    Waits 7 pubcomp (handle_pubrecs busy received started).0
    × ((j : ℕ)
        → j ≢ 7
        → find j (handle_pubrecs busy received started).0.outbound ≡ find j started.outbound)
    × Answered busy pubrel 7 started (handle_pubrecs busy received started)
pubrec-Waits_example = pubrec-Waits busy received started started-Waits refl

handshake_example :
    let s1 = (handle_pubrecs busy received started).0 in
    let s2 = (handle_pubcomps ready 7 s1).0 in
    Waits 7 pubcomp s1
    × (find 7 s2.outbound ≡ none)
    × (s2.msgs_sent ≡ count_up started.msgs_sent)
    × ((j : ℕ) → j ≢ 7 → find j s2.outbound ≡ find j started.outbound)
handshake_example = handshake busy ready received started started-IsValid started-Waits refl

find_current-find_example :
    find_current (get_elem? started.outbound 0) 7 started.outbound ≡ find 7 started.outbound
find_current-find_example = find_current-find started.outbound 0 7 started-IsValid.outbound_distinct

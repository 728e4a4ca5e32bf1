-- ===== src/Protocol/Exchange/Inbound.antt =====
-- A message of QoS 2 is handed on exactly once, however often its packets are repeated.
use paho_mqtt_c.Common.{ℕ, ◌≡◌, refl, ◌∙◌, ap}
use paho_mqtt_c.Common.{List, [], ◌∷◌, ◌++◌, none, some}
use paho_mqtt_c.Common.{append-nil}
use paho_mqtt_c.Packet.Wire.{header_qos}
use paho_mqtt_c.Packet.Publish.{Publish}
use paho_mqtt_c.Packet.Ack.{pubrel}
use paho_mqtt_c.Protocol.Exchange.{Message, Session, Event, Env}
use paho_mqtt_c.Protocol.Exchange.{find, message_of}
use paho_mqtt_c.Protocol.Exchange.{handle_publishes, pubrel_found}
use paho_mqtt_c.Protocol.Exchange.{handle_pubrels}
use paho_mqtt_c.Protocol.Exchange.Messages.{Distinct}
use paho_mqtt_c.Protocol.Exchange.Release.{
  deliveries, deliveries-append, publishes, pubrels, first_deliveries,
}
use paho_mqtt_c.Protocol.Exchange.Release.{Waiting, receive_qos2_lem, pubrel_lem, SameOthers}
use paho_mqtt_c.Protocol.Exchange.Release.{
  handle_publishes_qos2, store_first, store_again, release_first, message_of_qos2,
}

module _ (pack : Publish) (qos_2 : header_qos pack.header ≡ 2) where
  -- The message of the packet.
  abbrev msg : Message
  msg = message_of pack pubrel

  abbrev q : msg.qos ≡ 2
  q = (message_of_qos2 pack qos_2).0

  abbrev n : msg.next_message_type ≡ pubrel
  n = (message_of_qos2 pack qos_2).1

  publish_first :
      (env : Env) (s : Session)
      → find msg.msgid s.inbound ≡ none
      → Distinct s.inbound
      → Waiting msg (handle_publishes env pack s).0.inbound
        × (deliveries (handle_publishes env pack s).1 ≡ first_deliveries msg)
        × SameOthers msg.msgid s.inbound (handle_publishes env pack s).0.inbound
  publish_first env s h d =
      let (waiting, given, others) = store_first msg q n s.inbound h d in
      let (same, events) = receive_qos2_lem env msg s none h in
      rw (handle_publishes_qos2 env pack s qos_2) (rw same waiting, events ∙ given, rw same others)

  publish_again :
      (env : Env) (s : Session)
      → Waiting msg s.inbound
      → Waiting msg (handle_publishes env pack s).0.inbound
        × (deliveries (handle_publishes env pack s).1 ≡ [])
        × SameOthers msg.msgid s.inbound (handle_publishes env pack s).0.inbound
  publish_again env s w =
      let (waiting, given, others) = store_again msg q n s.inbound w in
      let (same, events) = receive_qos2_lem env msg s (some w.stored) w.found in
      rw (handle_publishes_qos2 env pack s qos_2) (rw same waiting, events ∙ given, rw same others)

  publish_repeated :
      (envs : List Env) (s : Session)
      → Waiting msg s.inbound
      → Waiting msg (publishes envs pack s).0.inbound
        × (deliveries (publishes envs pack s).1 ≡ [])
        × SameOthers msg.msgid s.inbound (publishes envs pack s).0.inbound
  unfolding publishes
  publish_repeated [] s w = (w, refl, λ j ne. refl)
  publish_repeated (env ∷ envs) s w =
      let (s', events, rc) = handle_publishes env pack s in
      let (w', given, others) = publish_again env s w in
      let (w'', given', others') = publish_repeated envs s' w' in
      (
        w'',
        deliveries-append events (publishes envs pack s').1 ∙ rw (given, given') refl,
        λ j ne. others' j ne ∙ others j ne,
      )

  -- A PUBREL of no message.
  pubrel_unknown :
      (envs : List Env) (msgid : ℕ) (s : Session)
      → find msgid s.inbound ≡ none
      → ((pubrels envs msgid s).0.inbound ≡ s.inbound) × (deliveries (pubrels envs msgid s).1 ≡ [])
  unfolding pubrels pubrel_found
  pubrel_unknown [] msgid s h = (refl, refl)
  pubrel_unknown (env ∷ envs) msgid s h =
      let (s', events, rc) = handle_pubrels env msgid s in
      let (same, given) = pubrel_lem env msgid s none h in
      let kept_all : s'.inbound ≡ s.inbound = same in
      let (same', given') = pubrel_unknown envs msgid s' (rw kept_all h) in
      (
        same' ∙ kept_all,
        deliveries-append events (pubrels envs msgid s').1 ∙ rw (given, given') refl,
      )

  one_delivery :
      (events1 events2 events3 events4 : List Event)
      → deliveries events1 ≡ first_deliveries msg
      → deliveries events2 ≡ []
      → deliveries events4 ≡ []
      → first_deliveries msg ++ deliveries events3 ≡ msg ∷ []
      → deliveries ((events1 ++ events2) ++ (events3 ++ events4)) ≡ msg ∷ []
  one_delivery events1 events2 events3 events4 a b d c =
      simp (deliveries-append, a, b, d, append-nil) c

  -- In a session whose inbound messages all have different ids, a message of QoS 2 whose id none of them
  -- has, whose PUBLISH comes once or more often, and then its PUBREL once or more often, whatever the socket
  -- and the store do, is handed on exactly once; no inbound message has its id afterwards, and the inbound
  -- messages with other ids are what they were.
  pub exactly_once :
      (env env' : Env) (envs envs' : List Env) (s : Session)
      → find msg.msgid s.inbound ≡ none
      → Distinct s.inbound
      → let received = publishes (env ∷ envs) pack s in
        let ended = pubrels (env' ∷ envs') msg.msgid received.0 in
        (deliveries (received.1 ++ ended.1) ≡ msg ∷ [])
        × (find msg.msgid ended.0.inbound ≡ none)
        × SameOthers msg.msgid s.inbound ended.0.inbound
  exactly_once env env' envs envs' s h d =
      let (s1, events1, rc1) = handle_publishes env pack s in
      let (w1, given1, others1) = publish_first env s h d in
      let (s2, events2) = publishes envs pack s1 in
      let (w2, given2, others2) = publish_repeated envs s1 w1 in
      let (s3, events3, rc3) = handle_pubrels env' msg.msgid s2 in
      let (gone, all, others3) = release_first msg q n s2 w2 in
      let (same3, given3) = pubrel_lem env' msg.msgid s2 (some w2.stored) w2.found in
      let (s4, events4) = pubrels envs' msg.msgid s3 in
      let (same4, given4) = pubrel_unknown envs' msg.msgid s3 (rw same3 gone) in
      unfold publishes pubrels in
      (
        one_delivery events1 events2 events3 events4 given1 given2 given4
            (ap (λ l. first_deliveries msg ++ l) given3 ∙ all),
        rw (same4, same3) gone,
        λ j ne. rw (same4, same3) (others3 j ne ∙ others2 j ne ∙ others1 j ne),
      )

-- ===== src/Protocol/Exchange/Release.antt =====
-- What a message of QoS 2 that waits for its PUBREL goes through.
use paho_mqtt_c.Common.{ℕ, ◌≡◌, ◌≢◌, refl, ◌∙◌, ap, arith, false}
use paho_mqtt_c.Common.{List, [], ◌∷◌, ◌++◌, Option, none, some, leb, if◌then◌else◌, Bool-cases}
use paho_mqtt_c.Common.{inl, inr, append-nil}
use paho_mqtt_c.Packet.Wire.{header_qos}
use paho_mqtt_c.Packet.Publish.{Publish}
use paho_mqtt_c.Packet.Ack.{pubrel, pubrec, pubcomp}
use paho_mqtt_c.Protocol.Exchange.{Message, Session, Event, Env, deliver, send_ack, send_publish}
use paho_mqtt_c.Protocol.Exchange.{unpersist, find, remove, ack_or_queue, message_of, count_up}
use paho_mqtt_c.Protocol.Exchange.{store_inbound, receive_qos2, handle_publishes, pubrel_found}
use paho_mqtt_c.Protocol.Exchange.{handle_pubrels}
use paho_mqtt_c.Protocol.Exchange.Messages.{Distinct, find-replace_self, find-replace_ne}
use paho_mqtt_c.Protocol.Exchange.Messages.{find-append_self, find-append_ne, find-remove_self}
use paho_mqtt_c.Protocol.Exchange.Messages.{find-remove_ne, replace-Distinct}
use paho_mqtt_c.Protocol.Exchange.Messages.{append-Distinct}

-- The messages that were handed on.
abbrev pub deliveries : List Event → List Message
deliveries [] = []
deliveries (deliver m ∷ es) = m ∷ deliveries es
deliveries (e ∷ es) = deliveries es

pub deliveries-append :
    (xs ys : List Event) → deliveries (xs ++ ys) ≡ deliveries xs ++ deliveries ys
deliveries-append [] ys = refl
deliveries-append (deliver m ∷ xs) ys = ap (λ l. m ∷ l) (deliveries-append xs ys)
deliveries-append (send_ack t i ∷ xs) ys = deliveries-append xs ys
deliveries-append (send_publish m ∷ xs) ys = deliveries-append xs ys
deliveries-append (unpersist i ∷ xs) ys = deliveries-append xs ys

-- The handlers, one call after another.
unfoldable pub publishes : List Env → Publish → Session → Session × List Event
publishes [] pack s = (s, [])
publishes (env ∷ envs) pack s =
    let (s', events, rc) = handle_publishes env pack s in
    let (s'', more) = publishes envs pack s' in (s'', events ++ more)

unfoldable pub pubrels : List Env → ℕ → Session → Session × List Event
pubrels [] msgid s = (s, [])
pubrels (env ∷ envs) msgid s =
    let (s', events, rc) = handle_pubrels env msgid s in
    let (s'', more) = pubrels envs msgid s' in (s'', events ++ more)

-- An acknowledgement leaves the inbound messages alone, and hands nothing on.
ack_or_queue_lem :
    (env : Env) (type msgid : ℕ) (s : Session)
    → ((ack_or_queue env type msgid s).0.inbound ≡ s.inbound)
      × (deliveries (ack_or_queue env type msgid s).1 ≡ [])
unfolding ack_or_queue
ack_or_queue_lem env type msgid s = ground arith

-- What MQTT 5 keeps of a message that it has handed on.
abbrev kept : Message → Message
kept m = if leb 5 m.mqtt_version then record m { publish = none } else m

-- What is handed on when a message comes first.
abbrev pub first_deliveries : Message → List Message
first_deliveries m = if leb 5 m.mqtt_version then m ∷ [] else []

-- The message waits for its PUBREL. Before MQTT 5 it is stored whole.
pub record Waiting (m : Message) (ms : List Message) : Type 0 where
  pub stored : Message
  pub found : find m.msgid ms ≡ some stored
  qos_2 : stored.qos ≡ 2
  next : stored.next_message_type ≡ pubrel
  version : stored.mqtt_version ≡ m.mqtt_version
  whole : leb 5 m.mqtt_version ≡ false → stored ≡ m
  distinct : Distinct ms

pub receive_qos2_lem :
    (env : Env) (m : Message) (s : Session) (found : Option Message)
    → find m.msgid s.inbound ≡ found
    → ((receive_qos2 env m s).0.inbound ≡ (store_inbound m found s.inbound).1)
      × (deliveries (receive_qos2 env m s).1 ≡ deliveries (store_inbound m found s.inbound).0)
unfolding receive_qos2
receive_qos2_lem env m s found e =
    let stored = store_inbound m found s.inbound in
    let (same, none_more) = ack_or_queue_lem env pubrec m.msgid (record s { inbound = stored.1 }) in
    rw e (
      same,
      deliveries-append stored.0
            (ack_or_queue env pubrec m.msgid (record s { inbound = stored.1 })).1
          ∙ ap (λ l. deliveries stored.0 ++ l) none_more
          ∙ append-nil (deliveries stored.0),
    )

pub pubrel_lem :
    (env : Env) (msgid : ℕ) (s : Session) (found : Option Message)
    → find msgid s.inbound ≡ found
    → ((handle_pubrels env msgid s).0.inbound ≡ (pubrel_found msgid found s).0.inbound)
      × (deliveries (handle_pubrels env msgid s).1 ≡ deliveries (pubrel_found msgid found s).1)
unfolding handle_pubrels
pubrel_lem env msgid s found e =
    let (s', events) = pubrel_found msgid found s in
    let (same, none_more) = ack_or_queue_lem env pubcomp msgid s' in
    rw e (
      same,
      deliveries-append events (ack_or_queue env pubcomp msgid s').1
          ∙ ap (λ l. deliveries events ++ l) none_more
          ∙ append-nil (deliveries events),
    )

-- The other messages of a list are those of another one.
abbrev pub SameOthers : ℕ → List Message → List Message → Type 0
SameOthers id ms ms' = (j : ℕ) → j ≢ id → find j ms' ≡ find j ms

pubrel_waits :
    (msgid : ℕ) (m : Message) (s : Session)
    → m.qos ≡ 2
    → m.next_message_type ≡ pubrel
    → pubrel_found msgid (some m) s ≡ (
      record s { inbound = remove msgid s.inbound; msgs_received = count_up s.msgs_received },
      (if leb 5 m.mqtt_version then [] else deliver m ∷ []) ++ unpersist msgid ∷ [],
    )
unfolding pubrel_found
pubrel_waits msgid m s q n = ground arith

released :
    (m stored : Message) (msgid : ℕ)
    → stored.mqtt_version ≡ m.mqtt_version
    → (leb 5 m.mqtt_version ≡ false → stored ≡ m)
    → first_deliveries m
        ++ deliveries (
            (if leb 5 stored.mqtt_version then [] else deliver stored ∷ []) ++ unpersist msgid ∷ [])
      ≡ m ∷ []
released m stored msgid v whole = elim (Bool-cases (leb 5 m.mqtt_version)) [
  | inl new ↦ simp (v, new) refl
  | inr old ↦ simp (v, old) (ap (λ x. x ∷ []) (whole old))
]

-- A PUBLISH of QoS 2.
pub handle_publishes_qos2 :
    (env : Env) (pack : Publish) (s : Session)
    → header_qos pack.header ≡ 2
    → handle_publishes env pack s ≡ receive_qos2 env (message_of pack pubrel) s
unfolding handle_publishes message_of
handle_publishes_qos2 env pack s h = ground arith

module _ (m : Message) (q : m.qos ≡ 2) (n : m.next_message_type ≡ pubrel) where
  pub store_first :
      (ms : List Message)
      → find m.msgid ms ≡ none
      → Distinct ms
      → Waiting m (store_inbound m none ms).1
        × (deliveries (store_inbound m none ms).0 ≡ first_deliveries m)
        × SameOthers m.msgid ms (store_inbound m none ms).1
  unfolding store_inbound
  store_first ms h d = elim (Bool-cases (leb 5 m.mqtt_version)) [
    | inl v ↦ rw v (
      record {
        stored = record m { publish = none };
        found = find-append_self m.msgid ms (record m { publish = none }) refl h;
        qos_2 = q;
        next = n;
        version = refl;
        whole = λ e. cc (v, e);
        distinct = append-Distinct m.msgid ms (record m { publish = none }) refl h d;
      },
      refl,
      λ j ne. find-append_ne m.msgid ms (record m { publish = none }) j refl ne,
    )
    | inr v ↦ rw v (
      record {
        stored = m;
        found = find-append_self m.msgid ms m refl h;
        qos_2 = q;
        next = n;
        version = refl;
        whole = λ e. refl;
        distinct = append-Distinct m.msgid ms m refl h d;
      },
      refl,
      λ j ne. find-append_ne m.msgid ms m j refl ne,
    )
  ]

  pub store_again :
      (ms : List Message)
      → (w : Waiting m ms)
      → Waiting m (store_inbound m (some w.stored) ms).1
        × (deliveries (store_inbound m (some w.stored) ms).0 ≡ [])
        × SameOthers m.msgid ms (store_inbound m (some w.stored) ms).1
  unfolding store_inbound
  store_again ms w = (
    record {
      stored = m;
      found = find-replace_self m.msgid ms w.stored m refl w.found;
      qos_2 = q;
      next = n;
      version = refl;
      whole = λ e. refl;
      distinct = replace-Distinct m.msgid ms m refl w.distinct;
    },
    refl,
    λ j ne. find-replace_ne m.msgid ms m j refl ne,
  )

  -- The PUBREL of a message that waits.
  pub release_first :
      (s : Session) (w : Waiting m s.inbound)
      → (find m.msgid (pubrel_found m.msgid (some w.stored) s).0.inbound ≡ none)
        × (first_deliveries m ++ deliveries (pubrel_found m.msgid (some w.stored) s).1 ≡ m ∷ [])
        × SameOthers m.msgid s.inbound (pubrel_found m.msgid (some w.stored) s).0.inbound
  release_first s w =
      let ran = pubrel_waits m.msgid w.stored s w.qos_2 w.next in
      (
        ap (λ r. find m.msgid r.0.inbound) ran ∙ find-remove_self m.msgid s.inbound w.distinct,
        ap (λ r. first_deliveries m ++ deliveries r.1) ran
            ∙ released m w.stored m.msgid w.version w.whole,
        λ j ne. ap (λ r. find j r.0.inbound) ran ∙ find-remove_ne m.msgid s.inbound j ne,
      )

pub message_of_qos2 :
    (pack : Publish)
    → header_qos pack.header ≡ 2
    → ((message_of pack pubrel).qos ≡ 2) × ((message_of pack pubrel).next_message_type ≡ pubrel)
unfolding message_of
message_of_qos2 pack h = (h, refl)

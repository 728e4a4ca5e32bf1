-- ===== src/Protocol/Exchange/Outbound.antt =====
-- Outbound messages: when one is given up, and the sessions that the handlers reach.
use paho_mqtt_c.Common.{ℕ, ◌≡◌, refl, arith, Bool, true, false, ◌&&◌}
use paho_mqtt_c.Common.{
  List, [], ◌∷◌, Option, none, some, leb, ltb, ◌==◌, if◌then◌else◌, Bool-cases,
}
use paho_mqtt_c.Common.{inl, inr, Option-cases}
use paho_mqtt_c.Packet.Publish.{Publish}
use paho_mqtt_c.Packet.Ack.{puback, pubrel, pubrec, pubcomp}
use paho_mqtt_c.Protocol.Exchange.{Message, Session, Event, Env, AckPacket}
use paho_mqtt_c.Protocol.Exchange.{find, replace, ack_or_queue, message_of, store_inbound}
use paho_mqtt_c.Protocol.Exchange.{receive_qos2, handle_publishes, remove_outbound, puback_found}
use paho_mqtt_c.Protocol.Exchange.{handle_pubacks, pubrec_expected, pubrec_found, handle_pubrecs}
use paho_mqtt_c.Protocol.Exchange.{pubrel_found, handle_pubrels, pubcomp_found, handle_pubcomps}
use paho_mqtt_c.Protocol.Exchange.{start_publish}
use paho_mqtt_c.Protocol.Exchange.Messages.{Distinct}
use paho_mqtt_c.Protocol.Exchange.Messages.{remove-Distinct, replace-Distinct}
use paho_mqtt_c.Protocol.Exchange.Messages.{append-Distinct}

-- No list has two messages with one id.
pub record IsValid (s : Session) : Type 0 where
  pub inbound_distinct : Distinct s.inbound
  pub outbound_distinct : Distinct s.outbound

-- A call of the library: a packet that comes in, or a publication that is started under an id that no
-- outbound message has.
pub data Step : Session → Session → Type 0 where
  on_publish : (env : Env) (pack : Publish) (s : Session) → Step s (handle_publishes env pack s).0
  on_puback : (env : Env) (msgid : ℕ) (s : Session) → Step s (handle_pubacks env msgid s).0
  on_pubrec : (env : Env) (ack : AckPacket) (s : Session) → Step s (handle_pubrecs env ack s).0
  on_pubrel : (env : Env) (msgid : ℕ) (s : Session) → Step s (handle_pubrels env msgid s).0
  on_pubcomp : (env : Env) (msgid : ℕ) (s : Session) → Step s (handle_pubcomps env msgid s).0
  start :
      (env : Env) (pack : Publish) (qos retained : ℕ) (s : Session)
      → find pack.msg_id s.outbound ≡ none
      → Step s (start_publish env pack qos retained s).0

pub data Reach (s : Session) : Session → Type 0 where
  here : Reach s s
  next : {t u : Session} → Reach s t → Step t u → Reach s u

pub ack_or_queue_lists :
    (env : Env) (type msgid : ℕ) (s : Session)
    → ((ack_or_queue env type msgid s).0.inbound ≡ s.inbound)
      × ((ack_or_queue env type msgid s).0.outbound ≡ s.outbound)
unfolding ack_or_queue
ack_or_queue_lists env type msgid s = ground arith

ack_or_queue-IsValid :
    (env : Env) (type msgid : ℕ) (s : Session)
    → IsValid s
    → IsValid (ack_or_queue env type msgid s).0
ack_or_queue-IsValid env type msgid s v =
    let (i, o) = ack_or_queue_lists env type msgid s in
    record {
      inbound_distinct = rw i v.inbound_distinct;
      outbound_distinct = rw o v.outbound_distinct;
    }

store_inbound-Distinct :
    (m : Message) (ms : List Message)
    → Distinct ms
    → Distinct (store_inbound m (find m.msgid ms) ms).1
store_inbound-Distinct m ms d = elim (Option-cases (find m.msgid ms)) [
  | inl e ↦ rw e (elim (Bool-cases (leb 5 m.mqtt_version)) [
    | inl v ↦
        unfold store_inbound in
        rw v (append-Distinct m.msgid ms (record m { publish = none }) refl e d)
    | inr v ↦ unfold store_inbound in rw v (append-Distinct m.msgid ms m refl e d)
  ])
  | inr (old, e) ↦ rw e (unfold store_inbound in replace-Distinct m.msgid ms m refl d)
]

-- Both branches of a test reach a valid session.
if-IsValid :
    (b : Bool) (x y : Session × List Event × ℕ)
    → IsValid x.0
    → IsValid y.0
    → IsValid (if b then x else y).0
if-IsValid true x y h k = h
if-IsValid false x y h k = k

receive_qos2-IsValid :
    (env : Env) (m : Message) (s : Session) → IsValid s → IsValid (receive_qos2 env m s).0
unfolding receive_qos2
receive_qos2-IsValid env m s v =
    ack_or_queue-IsValid env pubrec m.msgid
      (record s { inbound = (store_inbound m (find m.msgid s.inbound) s.inbound).1 })
      (record {
        inbound_distinct = store_inbound-Distinct m s.inbound v.inbound_distinct;
        outbound_distinct = v.outbound_distinct;
      })

handle_publishes-IsValid :
    (env : Env) (pack : Publish) (s : Session) → IsValid s → IsValid (handle_publishes env pack s).0
unfolding handle_publishes
handle_publishes-IsValid env pack s v =
    let m = message_of pack pubrel in
    if-IsValid (m.qos == 0) _ _ v (
      if-IsValid (m.qos == 1) _ _ (ack_or_queue-IsValid env puback m.msgid s v)
        (if-IsValid (m.qos == 2) _ (s, [], 0) (receive_qos2-IsValid env m s v) v))

remove_outbound-IsValid :
    (env : Env) (msgid : ℕ) (s : Session) → IsValid s → IsValid (remove_outbound env msgid s).0
unfolding remove_outbound
remove_outbound-IsValid env msgid s v = record {
  inbound_distinct = v.inbound_distinct;
  outbound_distinct = remove-Distinct msgid s.outbound v.outbound_distinct;
}

handle_pubacks-IsValid :
    (env : Env) (msgid : ℕ) (s : Session) → IsValid s → IsValid (handle_pubacks env msgid s).0
unfolding handle_pubacks puback_found
handle_pubacks-IsValid env msgid s v = elim (Option-cases (find msgid s.outbound)) [
  | inl e ↦ rw e v
  | inr (m, e) ↦
      rw e (if-IsValid (m.qos == 1) _ (s, [], 0) (remove_outbound-IsValid env msgid s v) v)
]

pub found_id :
    (msgid : ℕ) (ms : List Message) (m : Message) → find msgid ms ≡ some m → m.msgid ≡ msgid
unfolding find
found_id msgid [] m e = cc
found_id msgid (x ∷ ms) m e = ground (arith, found_id msgid ms m)

pubrec_expected-IsValid :
    (env : Env) (ack : AckPacket) (m : Message) (s : Session)
    → m.msgid ≡ ack.ack_id
    → IsValid s
    → IsValid (pubrec_expected env ack m s).0
unfolding pubrec_expected
pubrec_expected-IsValid env ack m s e v =
    let removed = remove_outbound-IsValid env ack.ack_id s v in
    let m' = record m { next_message_type = pubcomp } in
    if-IsValid (leb 5 ack.ack_version && leb 128 ack.ack_rc) _ _
      (record {
        inbound_distinct = removed.inbound_distinct;
        outbound_distinct = removed.outbound_distinct;
      })
      (ack_or_queue-IsValid env pubrel ack.ack_id
        (record s { outbound = replace ack.ack_id m' s.outbound })
        (record {
          inbound_distinct = v.inbound_distinct;
          outbound_distinct = replace-Distinct ack.ack_id s.outbound m' e v.outbound_distinct;
        }))

handle_pubrecs-IsValid :
    (env : Env) (ack : AckPacket) (s : Session) → IsValid s → IsValid (handle_pubrecs env ack s).0
unfolding handle_pubrecs pubrec_found
handle_pubrecs-IsValid env ack s v = elim (Option-cases (find ack.ack_id s.outbound)) [
  | inl e ↦ rw e (ack_or_queue-IsValid env pubrel ack.ack_id s v)
  | inr (m, e) ↦ rw e (
      if-IsValid (m.qos == 2 && m.next_message_type == pubrec) _ _
        (pubrec_expected-IsValid env ack m s (found_id ack.ack_id s.outbound m e) v)
        (ack_or_queue-IsValid env pubrel ack.ack_id s v))
]

pubrel_found-IsValid :
    (msgid : ℕ) (found : Option Message) (s : Session)
    → IsValid s
    → IsValid (pubrel_found msgid found s).0
unfolding pubrel_found
pubrel_found-IsValid msgid none s v = v
pubrel_found-IsValid msgid (some m) s v =
    elim (Bool-cases (m.qos == 2 && m.next_message_type == pubrel)) [
      | inl b ↦ rw b (record {
        inbound_distinct = remove-Distinct msgid s.inbound v.inbound_distinct;
        outbound_distinct = v.outbound_distinct;
      })
      | inr b ↦ rw b v
    ]

handle_pubrels-IsValid :
    (env : Env) (msgid : ℕ) (s : Session) → IsValid s → IsValid (handle_pubrels env msgid s).0
unfolding handle_pubrels
handle_pubrels-IsValid env msgid s v =
    ack_or_queue-IsValid env pubcomp msgid (pubrel_found msgid (find msgid s.inbound) s).0
      (pubrel_found-IsValid msgid (find msgid s.inbound) s v)

handle_pubcomps-IsValid :
    (env : Env) (msgid : ℕ) (s : Session) → IsValid s → IsValid (handle_pubcomps env msgid s).0
unfolding handle_pubcomps pubcomp_found
handle_pubcomps-IsValid env msgid s v = elim (Option-cases (find msgid s.outbound)) [
  | inl e ↦ rw e v
  | inr (m, e) ↦
      let removed = remove_outbound-IsValid env msgid s v in
      rw e (
        if-IsValid (m.qos == 2 && m.next_message_type == pubcomp) _ (s, [], 0)
          (record {
            inbound_distinct = removed.inbound_distinct;
            outbound_distinct = removed.outbound_distinct;
          })
          v)
]

start_publish-IsValid :
    (env : Env) (pack : Publish) (qos retained : ℕ) (s : Session)
    → find pack.msg_id s.outbound ≡ none
    → IsValid s
    → IsValid (start_publish env pack qos retained s).0
unfolding start_publish message_of
start_publish-IsValid env pack qos retained s e v = elim (Bool-cases (ltb 0 qos)) [
  | inl b ↦ rw b (record {
    inbound_distinct = v.inbound_distinct;
    outbound_distinct = append-Distinct pack.msg_id s.outbound _ refl e v.outbound_distinct;
  })
  | inr b ↦ rw b v
]

Step-IsValid : {s t : Session} → Step s t → IsValid s → IsValid t
Step-IsValid (on_publish env pack s) v = handle_publishes-IsValid env pack s v
Step-IsValid (on_puback env msgid s) v = handle_pubacks-IsValid env msgid s v
Step-IsValid (on_pubrec env ack s) v = handle_pubrecs-IsValid env ack s v
Step-IsValid (on_pubrel env msgid s) v = handle_pubrels-IsValid env msgid s v
Step-IsValid (on_pubcomp env msgid s) v = handle_pubcomps-IsValid env msgid s v
Step-IsValid (start env pack qos retained s e) v = start_publish-IsValid env pack qos retained s e v

-- In every session that is reached from a valid one, by any packets in any order, no two inbound messages
-- and no two outbound messages have one id.
pub Reach-IsValid : {s t : Session} → IsValid s → Reach s t → IsValid t
Reach-IsValid v here = v
Reach-IsValid v (next r st) = Step-IsValid st (Reach-IsValid v r)

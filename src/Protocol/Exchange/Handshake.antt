-- ===== src/Protocol/Exchange/Handshake.antt =====
-- The exchange of an outbound message of QoS 2, from its start to its end.
use paho_mqtt_c.Common.{ℕ, ◌≡◌, ◌≢◌, refl, ◌∙◌, ap, arith, false, ◌&&◌}
use paho_mqtt_c.Common.{List, [], ◌∷◌, ◌++◌, none, some, leb, if◌then◌else◌}
use paho_mqtt_c.Packet.Publish.{Publish}
use paho_mqtt_c.Packet.Ack.{pubrel, pubrec, pubcomp}
use paho_mqtt_c.Protocol.Exchange.{Message, Session, Event, Env, AckPacket, send_ack}
use paho_mqtt_c.Protocol.Exchange.{find, replace, remove, ack_or_queue, message_of}
use paho_mqtt_c.Protocol.Exchange.{remove_outbound, puback_found, handle_pubacks, pubrec_expected}
use paho_mqtt_c.Protocol.Exchange.{pubrec_found, handle_pubrecs, pubcomp_found, handle_pubcomps}
use paho_mqtt_c.Protocol.Exchange.{start_publish, count_up}
use paho_mqtt_c.Protocol.Exchange.Messages.{Distinct, find-replace_self, find-replace_ne}
use paho_mqtt_c.Protocol.Exchange.Messages.{find-append_self, find-remove_self}
use paho_mqtt_c.Protocol.Exchange.Messages.{find-remove_ne}
use paho_mqtt_c.Protocol.Exchange.Outbound.{
  IsValid, here, next, on_pubrec, Reach-IsValid, ack_or_queue_lists, found_id,
}

-- The session has an outbound message of QoS 2 with this id that waits for a packet of this type.
pub record Waits (msgid type : ℕ) (s : Session) : Type 0 where
  pub message : Message
  pub found : find msgid s.outbound ≡ some message
  pub qos_2 : message.qos ≡ 2
  pub next : message.next_message_type ≡ type

-- The reason code of MQTT 5 is no error.
abbrev pub IsNoError : AckPacket → Type 0
IsNoError ack = (leb 5 ack.ack_version && leb 128 ack.ack_rc) ≡ false

-- A publication of QoS 2 waits for its PUBREC once it is started under an id that is not in use.
pub start_publish-Waits :
    (env : Env) (pack : Publish) (retained : ℕ) (s : Session)
    → find pack.msg_id s.outbound ≡ none
    → Waits pack.msg_id pubrec (start_publish env pack 2 retained s).0
unfolding start_publish message_of
start_publish-Waits env pack retained s e = record {
  message = _;
  found = find-append_self pack.msg_id s.outbound _ refl e;
  qos_2 = refl;
  next = refl;
}

-- While a message waits for its PUBREC, a PUBACK and a PUBCOMP with its id change nothing in the session,
-- send nothing, remove nothing from the persistent store, and give the return code 0.
pub early_packets :
    (env : Env) (msgid : ℕ) (s : Session)
    → Waits msgid pubrec s
    → (handle_pubacks env msgid s ≡ (s, [], 0)) × (handle_pubcomps env msgid s ≡ (s, [], 0))
unfolding handle_pubacks handle_pubcomps puback_found pubcomp_found
early_packets env msgid s w = rw w.found (ground arith, ground arith)

pubrec_expected-eq :
    (env : Env) (ack : AckPacket) (m : Message) (s : Session)
    → IsNoError ack
    → pubrec_expected env ack m s
      ≡ ack_or_queue env pubrel ack.ack_id (record s {
        outbound = replace ack.ack_id (record m { next_message_type = pubcomp }) s.outbound;
      })
unfolding pubrec_expected
pubrec_expected-eq env ack m s e = rw e refl

handle_pubrecs-eq :
    (env : Env) (ack : AckPacket) (s : Session)
    → (w : Waits ack.ack_id pubrec s)
    → handle_pubrecs env ack s ≡ pubrec_expected env ack w.message s
unfolding handle_pubrecs pubrec_found
handle_pubrecs-eq env ack s w = rw w.found (ground (arith, w.qos_2, w.next))

-- A PUBREL goes out at once, or into the queue if the socket has pending writes.
abbrev pub Answered : Env → ℕ → ℕ → Session → Session × List Event × ℕ → Type 0
Answered env type msgid s (s', events, rc) =
    (events ≡ (if env.pending_writes then [] else send_ack type msgid ∷ []))
    × (s'.outbound_queue ≡ (
        if env.pending_writes
        then s.outbound_queue ++ record { ack_type = type; message_id = msgid } ∷ []
        else s.outbound_queue))

ack_or_queue-Answered :
    (env : Env) (type msgid : ℕ) (s : Session)
    → Answered env type msgid s (ack_or_queue env type msgid s)
unfolding ack_or_queue
ack_or_queue-Answered env type msgid s = ground arith

-- The PUBREC that a message waits for is answered by a PUBREL, sent at once or put into the queue if the
-- socket has pending writes, and the message waits for its PUBCOMP then; the other outbound messages are
-- what they were.
pub pubrec-Waits :
    (env : Env) (ack : AckPacket) (s : Session)
    → Waits ack.ack_id pubrec s
    → IsNoError ack
    → Waits ack.ack_id pubcomp (handle_pubrecs env ack s).0
      × ((j : ℕ)
          → j ≢ ack.ack_id
          → find j (handle_pubrecs env ack s).0.outbound ≡ find j s.outbound)
      × Answered env pubrel ack.ack_id s (handle_pubrecs env ack s)
pubrec-Waits env ack s w e =
    let id = ack.ack_id in
    let m' = record w.message { next_message_type = pubcomp } in
    let is_id = found_id id s.outbound w.message w.found in
    let s' = record s { outbound = replace id m' s.outbound } in
    let ran = handle_pubrecs-eq env ack s w ∙ pubrec_expected-eq env ack w.message s e in
    let lists = ack_or_queue_lists env pubrel id s' in
    rw ran (
      record {
        message = m';
        found = rw lists.1 (find-replace_self id s.outbound w.message m' is_id w.found);
        qos_2 = w.qos_2;
        next = refl;
      },
      λ j ne. rw lists.1 (find-replace_ne id s.outbound m' j is_id ne),
      ack_or_queue-Answered env pubrel id s',
    )

pubcomp_found-eq :
    (env : Env) (msgid : ℕ) (m : Message) (s : Session)
    → m.qos ≡ 2
    → m.next_message_type ≡ pubcomp
    → (pubcomp_found env msgid (some m) s).0
      ≡ record s { outbound = remove msgid s.outbound; msgs_sent = count_up s.msgs_sent }
unfolding pubcomp_found remove_outbound
pubcomp_found-eq env msgid m s q n = ground arith

handle_pubcomps-eq :
    (env : Env) (msgid : ℕ) (s : Session)
    → Waits msgid pubcomp s
    → (handle_pubcomps env msgid s).0
      ≡ record s { outbound = remove msgid s.outbound; msgs_sent = count_up s.msgs_sent }
unfolding handle_pubcomps
handle_pubcomps-eq env msgid s w =
    rw w.found (pubcomp_found-eq env msgid w.message s w.qos_2 w.next)

-- The PUBCOMP that a message waits for ends the exchange.
pubcomp_ends :
    (env : Env) (msgid : ℕ) (s : Session)
    → Waits msgid pubcomp s
    → Distinct s.outbound
    → (find msgid (handle_pubcomps env msgid s).0.outbound ≡ none)
      × ((j : ℕ) → j ≢ msgid → find j (handle_pubcomps env msgid s).0.outbound ≡ find j s.outbound)
      × ((handle_pubcomps env msgid s).0.msgs_sent ≡ count_up s.msgs_sent)
pubcomp_ends env msgid s w d =
    rw (handle_pubcomps-eq env msgid s w)
      (find-remove_self msgid s.outbound d, find-remove_ne msgid s.outbound, refl)

pubrec-Distinct :
    (env : Env) (ack : AckPacket) (s : Session) → IsValid s → IsValid (handle_pubrecs env ack s).0
pubrec-Distinct env ack s v = Reach-IsValid v (next here (on_pubrec env ack s))

pubrec_count :
    (env : Env) (ack : AckPacket) (s : Session)
    → Waits ack.ack_id pubrec s
    → IsNoError ack
    → (handle_pubrecs env ack s).0.msgs_sent ≡ s.msgs_sent
unfolding ack_or_queue
pubrec_count env ack s w e =
    ap (λ r. r.0.msgs_sent)
      (handle_pubrecs-eq env ack s w ∙ pubrec_expected-eq env ack w.message s e)
    ∙ ground arith

-- A publication of QoS 2 is kept until it is acknowledged twice: after its PUBREC without error it waits
-- for its PUBCOMP, and after that no outbound message has its id, one more message counts as sent (modulo
-- 2^32), and the other outbound messages are what they were.
pub handshake :
    (env1 env2 : Env) (ack : AckPacket) (s : Session)
    → IsValid s
    → Waits ack.ack_id pubrec s
    → IsNoError ack
    → let s1 = (handle_pubrecs env1 ack s).0 in
      let s2 = (handle_pubcomps env2 ack.ack_id s1).0 in
      Waits ack.ack_id pubcomp s1
      × (find ack.ack_id s2.outbound ≡ none)
      × (s2.msgs_sent ≡ count_up s.msgs_sent)
      × ((j : ℕ) → j ≢ ack.ack_id → find j s2.outbound ≡ find j s.outbound)
handshake env1 env2 ack s v w e =
    let (w1, others1, answered) = pubrec-Waits env1 ack s w e in
    let v1 = pubrec-Distinct env1 ack s v in
    let (gone, others2, count) =
      pubcomp_ends env2 ack.ack_id (handle_pubrecs env1 ack s).0 w1 v1.outbound_distinct in
    (
      w1,
      gone,
      count ∙ ap count_up (pubrec_count env1 ack s w e),
      λ j ne. others2 j ne ∙ others1 j ne,
    )

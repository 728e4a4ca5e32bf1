-- ===== src/Address/Parts.antt =====
-- The parts of an address that MQTTProtocol_addressPort finds.
use paho_mqtt_c.Common.{
  ℕ, suc, ◌+◌, ◌<◌, ◌≡◌, ◌≢◌, refl, ap, ◌∙◌, arith, false, List, [], ◌∷◌, ◌++◌,
}
use paho_mqtt_c.Common.{
  Option, none, some, All, length, drop, get_elem?, drop-append_self, append-nil,
}
use paho_mqtt_c.Common.{ne→==_false}
use paho_mqtt_c.Packet.Wire.{ok}
use paho_mqtt_c.Address.{
  found_later, last_index, next_index, index_of, is_bracketed, colon_pos, topic_pos, from_colon,
}
use paho_mqtt_c.Address.{placed, address_len, without_bracket, last_byte, port_of, address_port}

-- The character does not occur.
abbrev pub Without : ℕ → List ℕ → Type 0
Without c s = All (λ d. d ≢ c) s

last_index_absent : (c : ℕ) (s : List ℕ) → Without c s → last_index c s ≡ none
unfolding last_index found_later
last_index_absent c [] h = refl
last_index_absent c (d ∷ s) h = rw (last_index_absent c s h.1, ne→==_false d c h.0) refl

last_index-append :
    (c : ℕ) (s t : List ℕ) → Without c t → last_index c (s ++ c ∷ t) ≡ some (length s)
unfolding last_index found_later
last_index-append c [] t h = rw (last_index_absent c t h) (ground arith)
last_index-append c (d ∷ s) t h = rw (last_index-append c s t h) refl

index_of_absent : (c : ℕ) (s : List ℕ) → Without c s → index_of c s ≡ none
unfolding index_of next_index
index_of_absent c [] h = refl
index_of_absent c (d ∷ s) h = rw (index_of_absent c s h.1, ne→==_false d c h.0) refl

index_of-append : (c : ℕ) (s t : List ℕ) → Without c s → index_of c (s ++ c ∷ t) ≡ some (length s)
unfolding index_of next_index
index_of-append c [] t h = ground arith
index_of-append c (d ∷ s) t h = rw (index_of-append c s t h.1, ne→==_false d c h.0) refl

Without-append : (c : ℕ) (s t : List ℕ) → Without c s → Without c t → Without c (s ++ t)
Without-append c [] t h k = k
Without-append c (d ∷ s) t h k = (h.0, Without-append c s t h.1 k)

-- A topic stands behind a '/', if there is one.
abbrev pub topic_text : Option (List ℕ) → List ℕ
topic_text none = []
topic_text (some t) = 47 ∷ t

abbrev pub topic_at : ℕ → Option (List ℕ) → Option ℕ
topic_at n none = none
topic_at n (some t) = some n

index_of-topic_text :
    (s : List ℕ) (t : Option (List ℕ))
    → Without 47 s
    → index_of 47 (s ++ topic_text t) ≡ topic_at (length s) t
index_of-topic_text s none h = rw (append-nil s) (index_of_absent 47 s h)
index_of-topic_text s (some t) h = index_of-append 47 s t h

-- A name of a host: not empty, without brackets, ':' and '/'.
pub record IsHost (host : List ℕ) : Type 0 where
  pub some_byte : 0 < length host
  pub no_open : Without 91 host
  pub no_close : Without 93 host
  pub no_colon : Without 58 host
  pub no_slash : Without 47 host

is_bracketed-append : (host rest : List ℕ) → IsHost host → is_bracketed (host ++ rest) ≡ false
unfolding is_bracketed
is_bracketed-append [] rest h = absurd (omega (arith, h.some_byte))
is_bracketed-append (c ∷ host) rest h = ne→==_false c 91 h.no_open.0

colon_pos-append :
    (host rest : List ℕ) (pos : Option ℕ)
    → IsHost host
    → last_index 58 (host ++ rest) ≡ pos
    → colon_pos (host ++ rest) ≡ pos
unfolding colon_pos
colon_pos-append host rest pos h e = rw (is_bracketed-append host rest h) e

last_of :
    (c : ℕ) (host rest : List ℕ)
    → Without 93 (c ∷ host)
    → (d : ℕ) × (get_elem? (c ∷ host ++ rest) (length host) ≡ some d) × (d ≢ 93)
last_of c [] rest h = (c, refl, h.0)
last_of c (d ∷ host) rest h = last_of d host rest h.1

-- The byte in front of what stands behind a host name is no bracket.
without_bracket-append :
    (host rest : List ℕ)
    → IsHost host
    → without_bracket (length host) (last_byte (host ++ rest) (length host)) ≡ ok (length host)
unfolding without_bracket last_byte
without_bracket-append [] rest h = absurd (omega (arith, h.some_byte))
without_bracket-append (c ∷ host) rest h =
    let (d, at, other) = last_of c host rest h.no_close in rw (at, ne→==_false d 93 other) refl

placed-topic_at : (i n : ℕ) (t : Option (List ℕ)) → placed i (topic_at n t) ≡ topic_at (i + n) t
unfolding placed
placed-topic_at i n none = refl
placed-topic_at i n (some t) = refl

address_len-topic_at :
    (host : List ℕ) (t : Option (List ℕ))
    → address_len (host ++ topic_text t) none (topic_at (length host) t) ≡ length host
unfolding address_len
address_len-topic_at host none = ap length (append-nil host)
address_len-topic_at host (some t) = refl

drop_next : (xs : List ℕ) (y : ℕ) (ys : List ℕ) → drop (suc (length xs)) (xs ++ y ∷ ys) ≡ ys
drop_next [] y ys = refl
drop_next (x ∷ xs) y ys = drop_next xs y ys

drop_past : (xs : List ℕ) (y : ℕ) (ys : List ℕ) → drop (length xs + 1) (xs ++ y ∷ ys) ≡ ys
drop_past xs y ys =
    let one : length xs + 1 ≡ suc (length xs) = omega arith in
    ap (λ n. drop n (xs ++ y ∷ ys)) one ∙ drop_next xs y ys

-- An address with a port or without one, and with a topic that starts with '/' or without one.
abbrev pub uri_of : List ℕ → Option (List ℕ) → Option (List ℕ) → List ℕ
uri_of host none t = host ++ topic_text t
uri_of host (some port) t = host ++ 58 ∷ (port ++ topic_text t)

abbrev pub IsPort : Option (List ℕ) → Type 0
IsPort none = Unit
IsPort (some port) = Without 47 port × Without 58 port

module _ (atoi : List ℕ → ℕ) where
  address_port_default :
      (host : List ℕ) (t : Option (List ℕ)) (default_port : ℕ)
      → IsHost host
      → Without 58 (topic_text t)
      → address_port atoi (host ++ topic_text t) default_port
        ≡ ok (length host, default_port, topic_at (length host) t)
  unfolding address_port port_of topic_pos from_colon
  address_port_default host t default_port h k =
      let uri = host ++ topic_text t in
      let colon : colon_pos uri ≡ none =
        colon_pos-append host (topic_text t) none h
          (last_index_absent 58 uri (Without-append 58 host (topic_text t) h.no_colon k)) in
      let at : 0 + length host ≡ length host = omega arith in
      rw
        (
          colon,
          index_of-topic_text host t h.no_slash,
          placed-topic_at 0 (length host) t,
          at,
          address_len-topic_at host t,
          without_bracket-append host (topic_text t) h,
        )
        refl

  address_port_given :
      (host port : List ℕ) (t : Option (List ℕ)) (default_port : ℕ)
      → IsHost host
      → Without 47 port
      → Without 58 (port ++ topic_text t)
      → address_port atoi (host ++ 58 ∷ (port ++ topic_text t)) default_port
        ≡ ok
            (length host, atoi (port ++ topic_text t), topic_at (length host + suc (length port)) t)
  unfolding address_port port_of topic_pos from_colon address_len
  address_port_given host port t default_port h p k =
      let rest = port ++ topic_text t in
      let uri = host ++ 58 ∷ rest in
      let colon : colon_pos uri ≡ some (length host) =
        colon_pos-append host (58 ∷ rest) (some (length host)) h
          (last_index-append 58 host rest k) in
      let slash : index_of 47 (58 ∷ rest) ≡ topic_at (suc (length port)) t =
        index_of-topic_text (58 ∷ port) t (ground arith, p) in
      rw
        (
          colon,
          drop-append_self host (58 ∷ rest),
          slash,
          placed-topic_at (length host) (suc (length port)) t,
          without_bracket-append host (58 ∷ rest) h,
          drop_past host 58 rest,
        )
        refl

  -- What there is to find in it.
  abbrev pub parts_of : List ℕ → Option (List ℕ) → Option (List ℕ) → ℕ → ℕ × ℕ × Option ℕ
  parts_of host none t default_port = (length host, default_port, topic_at (length host) t)
  parts_of host (some port) t default_port =
      (length host, atoi (port ++ topic_text t), topic_at (length host + suc (length port)) t)

  -- MQTTProtocol_addressPort takes an address of a host name, perhaps ':' and a port, and perhaps '/' and a topic
  -- apart again: the length of the name, the port that atoi reads behind the colon, or the default one, and the
  -- position of the topic. The topic has no ':', and the name no bracket.
  pub address_port_lem :
      (host : List ℕ) (port t : Option (List ℕ)) (default_port : ℕ)
      → IsHost host
      → IsPort port
      → Without 58 (topic_text t)
      → address_port atoi (uri_of host port t) default_port ≡ ok (parts_of host port t default_port)
  address_port_lem host none t default_port h p k = address_port_default host t default_port h k
  address_port_lem host (some port) t default_port h p k =
      address_port_given host port t default_port h p.0
        (Without-append 58 port (topic_text t) p.1 k)

-- ===== src/Packet/Connect/Laws.antt =====
-- A server reads back the CONNECT packet of MQTTPacket_send_connect.
use paho_mqtt_c.Common.{
  ℕ, ◌+◌, ◌*◌, ◌/◌, ◌%◌, ◌<◌, ◌≡◌, refl, sym, ap, ◌∙◌, arith, List, [], ◌++◌, Option, none, some,
}
use paho_mqtt_c.Common.{
  inl, inr, length, append_assoc, append-nil, leb, if◌then◌else◌, take-length, Bool-cases,
}
use paho_mqtt_c.Packet.Wire.{Buffer, ok, header_byte, write_int, write_utf, write_data}
use paho_mqtt_c.Packet.Wire.{read_utf_len}
use paho_mqtt_c.Packet.Wire.Laws.{
  read_utf_len-append, read_utf_len-write_utf, read_char-write_char, read_int-write_int,
}
use paho_mqtt_c.Packet.Publish.{property_bytes}
use paho_mqtt_c.Packet.Publish.Laws.{SameProperties, read_v5_properties-property_bytes}
use paho_mqtt_c.Packet.Connect.{
  WillMessage, Client, connect, named, will_flags, given, connect_flags,
}
use paho_mqtt_c.Packet.Connect.{
  will_bytes, username_bytes, password_bytes, connect_bytes, connect_len, send_connect,
}
use paho_mqtt_c.Packet.Connect.Carried.{carried, send_connect-carried}
use paho_mqtt_c.Packet.Connect.Valid.{
  IsText, IsData, IfGiven, IsWill, IsVersion, name_of, CanConnect, name-IsText, version_lt,
  protocol_known,
}
use paho_mqtt_c.Packet.Connect.Sizes.{length-connect}
use paho_mqtt_c.Packet.Connect.Spec.{Will, Connect, flag, read_optional, read_will, read_connect}
use paho_mqtt_c.Properties.Types.{MqttProperties}
use paho_mqtt_c.Properties.Write.Laws.{IsValid}

read_utf_len-write_data :
    (s : List ℕ) (rest : Buffer)
    → length s < 65536
    → read_utf_len (write_data s (length s) ++ rest) ≡ ok (s, rest)
unfolding write_data
read_utf_len-write_data s rest h =
    rw (take-length s)
      (rw (append_assoc (write_int (length s)) s rest) (read_utf_len-append s rest h))

read_optional-username :
    (u : Option (List ℕ)) (rest : Buffer)
    → IfGiven IsText u
    → read_optional (given u) (username_bytes u ++ rest) ≡ ok (u, rest)
unfolding read_optional given username_bytes
read_optional-username none rest h = refl
read_optional-username (some s) rest h = rw (read_utf_len-write_utf s rest h.0 h.1) refl

read_optional-password :
    (u : Option (List ℕ)) (rest : Buffer)
    → IfGiven IsData u
    → read_optional (given u) (password_bytes u ++ rest) ≡ ok (u, rest)
unfolding read_optional given password_bytes
read_optional-password none rest h = refl
read_optional-password (some s) rest h = rw (read_utf_len-write_data s rest h) refl

-- The flags that announce this will.
abbrev Announces : ℕ → Option WillMessage → Type 0
Announces flags none = flag 4 flags ≡ 0
Announces flags (some w) =
    (flag 4 flags ≡ 1) × (flags / 8 % 4 ≡ w.qos) × (flag 32 flags ≡ w.retained)

-- The will that a server gets.
abbrev pub SameWill : ℕ → MqttProperties → Option WillMessage → Option Will → Type 0
SameWill v sent none none = Unit
SameWill v sent (some w) (some got) =
    (got.will_qos ≡ w.qos)
    × (got.will_retain ≡ w.retained)
    × (got.will_topic ≡ w.topic)
    × (got.will_payload ≡ w.payload)
    × SameProperties v sent got.will_properties
SameWill v sent _ _ = ⊥

read_will-will_bytes :
    (v flags : ℕ) (w : Option WillMessage) (props : MqttProperties) (rest : Buffer)
    → IsWill w
    → IsValid props
    → Announces flags w
    → (got : Option Will) × (read_will v flags (will_bytes v w (some props) ++ rest)
        ≡ ok (got, rest))
      × SameWill v props w got
unfolding read_will will_bytes property_bytes
read_will-will_bytes v flags none props rest h k a = (none, rw a refl, tt)
read_will-will_bytes v flags (some w) props rest h k a =
    let body = write_utf w.topic ++ write_data w.payload (length w.payload) in
    let (p, run, same) = read_v5_properties-property_bytes v props (body ++ rest) k in
    (
      some (record {
        will_qos = flags / 8 % 4;
        will_retain = flag 32 flags;
        will_properties = p;
        will_topic = w.topic;
        will_payload = w.payload;
      }),
      rw
          (
            a.0,
            append_assoc (property_bytes v props) body rest,
            run,
            append_assoc (write_utf w.topic) (write_data w.payload (length w.payload)) rest,
            read_utf_len-write_utf w.topic (write_data w.payload (length w.payload) ++ rest) h.0.0
                h.0.1,
            read_utf_len-write_data w.payload rest h.1,
          )
          refl,
      (a.1, a.2, refl, refl, same),
    )

-- The bits of the flags that MQTTPacket_send_connect sets: clean start, will, password and user name.
abbrev Flags : ℕ → ℕ → Option WillMessage → ℕ → ℕ → Type 0
Flags f a w p u = (f < 256) × (flag 2 f ≡ a) × Announces f w × (flag 64 f ≡ p) × (flag 128 f ≡ u)

will_flags-Flags :
    (a p u : ℕ) (w : Option WillMessage)
    → a < 2
    → p < 2
    → u < 2
    → IsWill w
    → Flags (a % 2 * 2 + will_flags w + p * 64 + u * 128) a w p u
unfolding will_flags
will_flags-Flags a p u none ha hp hu h =
    (omega arith, omega arith, omega arith, omega arith, omega arith)
will_flags-Flags a p u (some w) ha hp hu (h, k, q, r) =
    (omega arith, omega arith, (omega arith, omega arith, omega arith), omega arith, omega arith)

given_lt : (s : Option (List ℕ)) → given s < 2
unfolding given
given_lt none = omega arith
given_lt (some s) = omega arith

-- The clean start of MQTT 5, the clean session of older versions.
abbrev pub clean_of : ℕ → Client → ℕ
clean_of v c = if leb 5 v then c.cleanstart else c.cleansession

connect_flags-Flags :
    (v : ℕ) (c : Client) (p q : MqttProperties)
    → CanConnect c p q
    → Flags (connect_flags v c) (clean_of v c) c.will (given c.password) (given c.username)
unfolding connect_flags
connect_flags-Flags v c p q h =
    will_flags-Flags (clean_of v c) (given c.password) (given c.username) c.will
      (elim (Bool-cases (leb 5 v)) [ inl e ↦ rw e h.bits.1 | inr e ↦ rw e h.bits.0 ])
      (given_lt c.password) (given_lt c.username) h.message

-- What a server gets of a client.
pub record Received (v : ℕ) (c : Client) (p q : MqttProperties) (got : Connect) : Type 0 where
  pub protocol : got.protocol ≡ name_of v
  pub level : got.level ≡ v
  pub clean : got.clean ≡ clean_of v c
  pub keep_alive : got.keep_alive ≡ c.keep_alive_interval
  pub properties : SameProperties v p got.properties
  pub client_id : got.client_id ≡ c.client_id
  pub will : SameWill v q c.will got.will
  pub username : got.username ≡ c.username
  pub password : got.password ≡ c.password

read_connect-connect_bytes :
    (v : ℕ) (c : Client) (p q : MqttProperties)
    → IsVersion v
    → CanConnect c p q
    → (got : Connect) × (read_connect (write_utf (name_of v) ++ connect_bytes v c (some p) (some q))
        ≡ ok (got, []))
      × Received v c p q got
unfolding read_connect connect_bytes property_bytes
read_connect-connect_bytes v c p q ver h =
    let tail = username_bytes c.username ++ password_bytes c.password in
    let bits = connect_flags-Flags v c p q h in
    let password_last =
      ap (λ b. read_optional (given c.password) b) (sym (append-nil (password_bytes c.password)))
      ∙ read_optional-password c.password [] h.secret in
    let f = connect_flags v c in
    let (will, run_will, same_will) =
      read_will-will_bytes v f c.will q tail h.message h.will_valid bits.2 in
    let body = write_utf c.client_id ++ (will_bytes v c.will (some q) ++ tail) in
    let (props, run_props, same_props) = read_v5_properties-property_bytes v p body h.valid in
    (
      record {
        protocol = name_of v;
        level = v;
        clean = flag 2 f;
        keep_alive = c.keep_alive_interval;
        properties = props;
        client_id = c.client_id;
        will = will;
        username = c.username;
        password = c.password;
      },
      rw
          (
            read_utf_len-write_utf (name_of v) _ (name-IsText v ver).0 (name-IsText v ver).1,
            read_char-write_char v _ (version_lt v ver),
            read_char-write_char f _ bits.0,
            read_int-write_int c.keep_alive_interval _ h.time,
            run_props,
            read_utf_len-write_utf c.client_id _ h.id.0 h.id.1,
            run_will,
            bits.4,
            bits.3,
            read_optional-username c.username (password_bytes c.password) h.name,
            password_last,
          )
          refl,
      record {
        protocol = refl;
        level = refl;
        clean = bits.1;
        keep_alive = refl;
        properties = same_props;
        client_id = refl;
        will = same_will;
        username = refl;
        password = refl;
      },
    )

read_connect_lists :
    (v : ℕ) (c : Client) (p q : MqttProperties)
    → IsVersion v
    → CanConnect c p q
    → (bytes : List ℕ) × (got : Connect) × (send_connect v c (some p) (some q)
        ≡ some (header_byte connect 0 0 0, (length bytes, bytes)))
      × (read_connect bytes ≡ ok (got, []))
      × Received v c p q got
unfolding send_connect named
read_connect_lists v c p q ver h =
    let (got, run, received) = read_connect-connect_bytes v c p q ver h in
    let rest = connect_bytes v c (some p) (some q) in
    let bytes = write_utf (name_of v) ++ rest in
    let filled = length-connect v c p q ver h.valid h.will_valid in
    (
      bytes,
      got,
      ap (λ n. named n (connect_len v c (some p) (some q)) rest) (protocol_known v ver)
          ∙ ap (λ n. some (header_byte connect 0 0 0, (n, bytes))) (sym filled),
      run,
      received,
    )

-- MQTTPacket_send_connect, for one of the three versions and a client whose texts are C strings and whose texts
-- and data are shorter than 2^16 bytes, with a keep alive of two bytes, a clean session and clean start of 0 or 1,
-- and a will, if there is one, with a QoS below 4 and a retained flag of 0 or 1, and with property lists that are
-- valid where MQTT 5 carries them, fills the buffer that it allocates exactly; a server that reads the bytes as MQTT
-- describes them takes all of them and gets the name and level of the protocol, the clean bit of the version, the
-- keep alive, the client id, the will, the user name and the password, and in MQTT 5 the properties of the
-- connection and of the will, where NULL is sent as the empty list.
pub read_connect-send_connect :
    (v : ℕ) (c : Client) (connect_props will_props : Option MqttProperties)
    → IsVersion v
    → CanConnect c (carried v connect_props) (carried v will_props)
    → (bytes : List ℕ) × (got : Connect) × (send_connect v c connect_props will_props
        ≡ some (header_byte connect 0 0 0, (length bytes, bytes)))
      × (read_connect bytes ≡ ok (got, []))
      × Received v c (carried v connect_props) (carried v will_props) got
read_connect-send_connect v c connect_props will_props ver h =
    let (bytes, got, sent, run, received) =
      read_connect_lists v c (carried v connect_props) (carried v will_props) ver h in
    (bytes, got, send_connect-carried v c connect_props will_props ∙ sent, run, received)

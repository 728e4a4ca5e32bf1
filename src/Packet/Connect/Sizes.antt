-- ===== src/Packet/Connect/Sizes.antt =====
-- The buffer of MQTTPacket_send_connect is filled exactly.
use paho_mqtt_c.Common.{ℕ, ◌+◌, ◌≡◌, refl, arith, List, ◌++◌, Option, none, some, inl, inr}
use paho_mqtt_c.Common.{length, length-append, leb, if◌then◌else◌, ◌==◌, take-length}
use paho_mqtt_c.Packet.Wire.{write_int, write_char, write_utf, write_data, strlen}
use paho_mqtt_c.Packet.Ack.Laws.{length-write_utf, v5_bytes, v5_len}
use paho_mqtt_c.Packet.Connect.{WillMessage, Client, connect_len, connect_bytes}
use paho_mqtt_c.Packet.Connect.{
  will_len, will_bytes, username_len, username_bytes, password_len, password_bytes,
}
use paho_mqtt_c.Packet.Connect.Valid.{IsVersion, name_of}
use paho_mqtt_c.Properties.Types.{MqttProperties}
use paho_mqtt_c.Properties.Write.Laws.{IsValid}
use paho_mqtt_c.Properties.Write.{properties_len}

length-write_data : (s : List ℕ) → length (write_data s (length s)) ≡ 2 + length s
unfolding write_data write_int
length-write_data s = rw (take-length s) (omega arith)

length-will_bytes :
    (v : ℕ) (w : Option WillMessage) (props : MqttProperties)
    → IsValid props
    → length (will_bytes v w (some props)) ≡ will_len v w (some props)
unfolding will_bytes will_len
length-will_bytes v none props h = refl
length-will_bytes v (some w) props h = omega (
  arith,
  length-append (v5_bytes v props) (write_utf w.topic ++ write_data w.payload (length w.payload)),
  length-append (write_utf w.topic) (write_data w.payload (length w.payload)),
  length-write_utf w.topic,
  length-write_data w.payload,
  v5_len v props h,
)

length-username_bytes : (s : Option (List ℕ)) → length (username_bytes s) ≡ username_len s
unfolding username_bytes username_len
length-username_bytes none = refl
length-username_bytes (some s) = omega (arith, length-write_utf s)

length-password_bytes : (s : Option (List ℕ)) → length (password_bytes s) ≡ password_len s
unfolding password_bytes password_len
length-password_bytes none = refl
length-password_bytes (some s) = omega (arith, length-write_data s)

-- Everything behind the protocol name.
length-connect_bytes :
    (v : ℕ) (c : Client) (p q : MqttProperties)
    → IsValid p
    → IsValid q
    → length (connect_bytes v c (some p) (some q))
      ≡ 4
        + (if leb 5 v then properties_len (some p) else 0)
        + (strlen c.client_id + 2)
        + will_len v c.will (some q)
        + username_len c.username
        + password_len c.password
unfolding connect_bytes write_char write_int
length-connect_bytes v c p q h k =
    let tail = username_bytes c.username ++ password_bytes c.password in
    omega (
      arith,
      length-append (v5_bytes v p)
          (write_utf c.client_id ++ (will_bytes v c.will (some q) ++ tail)),
      length-append (write_utf c.client_id) (will_bytes v c.will (some q) ++ tail),
      length-append (will_bytes v c.will (some q)) tail,
      length-append (username_bytes c.username) (password_bytes c.password),
      v5_len v p h,
      length-write_utf c.client_id,
      length-will_bytes v c.will q k,
      length-username_bytes c.username,
      length-password_bytes c.password,
    )

-- The room that the length has for the protocol name.
name_len : (v : ℕ) → IsVersion v → length (write_utf (name_of v)) + 4 ≡ (if v == 3 then 12 else 10)
unfolding write_utf write_int strlen
name_len v (inl e) = rw e refl
name_len v (inr (inl e)) = rw e refl
name_len v (inr (inr e)) = rw e refl

pub length-connect :
    (v : ℕ) (c : Client) (p q : MqttProperties)
    → IsVersion v
    → IsValid p
    → IsValid q
    → length (write_utf (name_of v) ++ connect_bytes v c (some p) (some q))
      ≡ connect_len v c (some p) (some q)
unfolding connect_len
length-connect v c p q ver h k = omega (
  arith,
  length-append (write_utf (name_of v)) (connect_bytes v c (some p) (some q)),
  length-connect_bytes v c p q h k,
  name_len v ver,
)

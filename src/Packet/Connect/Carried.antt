-- ===== src/Packet/Connect/Carried.antt =====
-- The property lists that a CONNECT packet carries: none before MQTT 5, an empty one for NULL.
use paho_mqtt_c.Common.{ℕ, ◌≡◌, refl, [], Option, none, some}
use paho_mqtt_c.Common.{leb, if◌then◌else◌, Bool-cases, inl, inr}
use paho_mqtt_c.Packet.Connect.{
  WillMessage, Client, will_len, will_bytes, connect_len, connect_bytes,
}
use paho_mqtt_c.Packet.Connect.{send_connect}
use paho_mqtt_c.Properties.Types.{MqttProperties, initializer}
use paho_mqtt_c.Properties.Write.{properties_len, write_properties, write_entries}
use paho_mqtt_c.Packet.Varint.{vbi_len, encode, encode_loop}

abbrev pub carried : ℕ → Option MqttProperties → MqttProperties
carried v none = initializer
carried v (some props) = if leb 5 v then props else initializer

module _ (v : ℕ) where
  len_carried :
      (P : Option MqttProperties)
      → (if leb 5 v then properties_len P else 0)
        ≡ (if leb 5 v then properties_len (some (carried v P)) else 0)
  unfolding properties_len vbi_len
  len_carried none = refl
  len_carried (some p) = elim (Bool-cases (leb 5 v)) [ inl e ↦ rw e refl | inr e ↦ rw e refl ]

  bytes_carried :
      (P : Option MqttProperties)
      → (if leb 5 v then (write_properties P).1 else [])
        ≡ (if leb 5 v then (write_properties (some (carried v P))).1 else [])
  unfolding write_properties encode encode_loop write_entries
  bytes_carried none = refl
  bytes_carried (some p) = elim (Bool-cases (leb 5 v)) [ inl e ↦ rw e refl | inr e ↦ rw e refl ]

  will_len-carried :
      (w : Option WillMessage) (Q : Option MqttProperties)
      → will_len v w Q ≡ will_len v w (some (carried v Q))
  unfolding will_len
  will_len-carried none Q = refl
  will_len-carried (some w) Q = rw (len_carried Q) refl

  will_bytes-carried :
      (w : Option WillMessage) (Q : Option MqttProperties)
      → will_bytes v w Q ≡ will_bytes v w (some (carried v Q))
  unfolding will_bytes
  will_bytes-carried none Q = refl
  will_bytes-carried (some w) Q = rw (bytes_carried Q) refl

  pub send_connect-carried :
      (c : Client) (P Q : Option MqttProperties)
      → send_connect v c P Q ≡ send_connect v c (some (carried v P)) (some (carried v Q))
  unfolding send_connect connect_len connect_bytes
  send_connect-carried c P Q =
      rw (len_carried P, bytes_carried P, will_len-carried c.will Q, will_bytes-carried c.will Q)
        refl

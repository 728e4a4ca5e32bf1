-- ===== src/Packet/Connect/Reply.antt =====
-- MQTTPacket_connack reads the CONNACK packet of a server.
use paho_mqtt_c.Common.{ℕ, ◌+◌, ◌≡◌, refl, arith, [], ◌∷◌, Option, none, some, inl, inr, ap, ◌∙◌}
use paho_mqtt_c.Common.{Bool-cases, leb, lt→ltb, le→ltb_false, length, append-nil, map, true, false}
use paho_mqtt_c.Packet.Wire.{ok, err, read_char}
use paho_mqtt_c.Packet.Publish.{property_bytes}
use paho_mqtt_c.Packet.Connect.{Connack, connack, connack_fields, connack_properties}
use paho_mqtt_c.Properties.Types.{MqttProperties, entries_of}
use paho_mqtt_c.Properties.Write.{write_properties}
use paho_mqtt_c.Properties.Write.Laws.{IsValid, length-write_properties}
use paho_mqtt_c.Packet.Ack.Laws.{properties_len_pos}
use paho_mqtt_c.Properties.Read.Laws.{read_properties-write_properties}
use paho_mqtt_c.Properties.Read.Values.{relevant}

-- The properties that a client gets: before MQTT 5 none.
abbrev pub GetsProperties : ℕ → MqttProperties → Option MqttProperties → Type 0
GetsProperties v sent none = leb 5 v ≡ false
GetsProperties v sent (some got) =
    (leb 5 v ≡ true) × (entries_of got.array ≡ map relevant (entries_of sent.array))

connack_properties-property_bytes :
    (v : ℕ) (props : MqttProperties)
    → IsValid props
    → (got : Option MqttProperties) × (connack_properties v
          (2 + length (property_bytes v props))
          (property_bytes v props)
        ≡ ok got)
      × GetsProperties v props got
unfolding connack_properties property_bytes
connack_properties-property_bytes v props h = elim (Bool-cases (leb 5 v)) [
  | inl m ↦
      let bytes = (write_properties (some props)).1 in
      let (got, run, same, _, _) = read_properties-write_properties props [] h in
      let more =
        lt→ltb 2 (2 + length bytes)
          (omega (arith, (length-write_properties props h).0, properties_len_pos props)) in
      (some got, rw (m, more, (rw (append-nil bytes) at run)) refl, (m, same))
  | inr m ↦ (none, rw m refl, m)
]

-- A CONNACK packet of fewer than two bytes is refused. From the flags, the reason code and, in MQTT 5, the valid
-- properties that a server writes, MQTTPacket_connack reads the flags, the reason code and those properties;
-- before MQTT 5 none.
pub connack-server :
    (v header flags rc : ℕ) (props : MqttProperties)
    → IsValid props
    → (connack v header [] ≡ err)
      × (connack v header (flags ∷ []) ≡ err)
      × (got : Connack) × (connack v header (flags ∷ rc ∷ property_bytes v props) ≡ ok got)
      × (got.flags ≡ flags)
      × (got.rc ≡ rc)
      × GetsProperties v props got.properties
unfolding connack connack_fields read_char
connack-server v header flags rc props h =
    let (properties, run, same) = connack_properties-property_bytes v props h in
    let two : length (flags ∷ rc ∷ property_bytes v props) ≡ 2 + length (property_bytes v props) =
      omega arith in
    (
      refl,
      refl,
      record { header = header; flags = flags; rc = rc; mqtt_version = v; properties = properties },
      rw
          (
            le→ltb_false (length (flags ∷ rc ∷ property_bytes v props)) 2 (omega arith),
            ap (λ n. connack_properties v n (property_bytes v props)) two ∙ run,
          )
          refl,
      refl,
      refl,
      same,
    )

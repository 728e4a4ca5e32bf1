-- ===== src/Packet/Connect/Valid.antt =====
-- The values that a CONNECT packet can carry.
use paho_mqtt_c.Common.{
  ℕ, ◌<◌, ◌≡◌, ◌⊎◌, inl, inr, refl, arith, List, Option, none, some, All, length, ◌==◌,
  if◌then◌else◌,
}
use paho_mqtt_c.Packet.Connect.{WillMessage, Client, mqisdp, mqtt, protocol_name}
use paho_mqtt_c.Properties.Types.{MqttProperties}
use paho_mqtt_c.Properties.Write.Laws.{IsValid}

-- A C string whose length fits in two bytes, and data that does.
abbrev pub IsText : List ℕ → Type 0
IsText s = All (λ c. 0 < c) s × (length s < 65536)

abbrev pub IsData : List ℕ → Type 0
IsData s = length s < 65536

abbrev pub IfGiven : (List ℕ → Type 0) → Option (List ℕ) → Type 0
IfGiven P none = Unit
IfGiven P (some s) = P s

abbrev pub IsWill : Option WillMessage → Type 0
IsWill none = Unit
IsWill (some w) = IsText w.topic × IsData w.payload × (w.qos < 4) × (w.retained < 2)

-- The versions that MQTTPacket_send_connect knows.
abbrev pub IsVersion : ℕ → Type 0
IsVersion v = (v ≡ 3) ⊎ (v ≡ 4) ⊎ (v ≡ 5)

-- The protocol name of such a version.
abbrev pub name_of : ℕ → List ℕ
name_of v = if v == 3 then mqisdp else mqtt

pub record CanConnect (c : Client) (connect_props will_props : MqttProperties) : Type 0 where
  pub id : IsText c.client_id
  pub name : IfGiven IsText c.username
  pub secret : IfGiven IsData c.password
  pub bits : (c.cleansession < 2) × (c.cleanstart < 2)
  pub time : c.keep_alive_interval < 65536
  pub message : IsWill c.will
  pub valid : IsValid connect_props
  pub will_valid : IsValid will_props

pub name-IsText : (v : ℕ) → IsVersion v → IsText (name_of v)
name-IsText v (inl e) = rw e (
  (omega arith, (omega arith, (omega arith, (omega arith, (omega arith, (omega arith, tt)))))),
  omega arith,
)
name-IsText v (inr (inl e)) =
    rw e ((omega arith, (omega arith, (omega arith, (omega arith, tt)))), omega arith)
name-IsText v (inr (inr e)) =
    rw e ((omega arith, (omega arith, (omega arith, (omega arith, tt)))), omega arith)

pub version_lt : (v : ℕ) → IsVersion v → v < 256
version_lt v ver = ground arith

pub protocol_known : (v : ℕ) → IsVersion v → protocol_name v ≡ some (name_of v)
protocol_known v (inl e) = rw e refl
protocol_known v (inr (inl e)) = rw e refl
protocol_known v (inr (inr e)) = rw e refl

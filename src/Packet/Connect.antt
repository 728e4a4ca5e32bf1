-- ===== src/Packet/Connect.antt =====
-- src/MQTTPacketOut.c: MQTTPacket_send_connect and MQTTPacket_connack. Of the sender, the buffer that it hands
-- to MQTTPacket_send; of `Clients` and `willMessages`, the fields that it reads. A payload or password with its
-- length is the list of its bytes, and `none` stands for NULL.
use paho_mqtt_c.Common.{ℕ, suc, ◌+◌, ◌*◌, ◌%◌, List, [], ◌∷◌, ◌++◌, Option, none, some}
use paho_mqtt_c.Common.{ltb, leb, ◌==◌, ◌||◌, ◌&&◌, if◌then◌else◌, length}
use paho_mqtt_c.Packet.Wire.{
  Result, ok, err, ◌>>=◌, Buffer, read_char, write_int, write_char, strlen,
}
use paho_mqtt_c.Packet.Wire.{header_byte, write_utf, write_data}
use paho_mqtt_c.Packet.Publish.{PacketBuffer}
use paho_mqtt_c.Properties.Types.{MqttProperties, initializer}
use paho_mqtt_c.Properties.Write.{properties_len, write_properties}
use paho_mqtt_c.Properties.Read.{read_properties}
pub mod Spec
pub mod Valid
pub mod Sizes
pub mod Carried
pub mod Reply
pub mod Laws

-- `willMessages`
pub record WillMessage : Type 0 where
  pub topic : List ℕ
  pub payload : List ℕ
  pub retained : ℕ
  pub qos : ℕ

-- `Clients`
pub record Client : Type 0 where
  pub client_id : List ℕ
  pub username : Option (List ℕ)
  pub password : Option (List ℕ)
  pub cleansession : ℕ
  pub cleanstart : ℕ
  pub keep_alive_interval : ℕ
  pub will : Option WillMessage

abbrev pub connect : ℕ
connect = 1

-- "MQIsdp" and "MQTT"
abbrev pub mqisdp : List ℕ
mqisdp = 77 ∷ 81 ∷ 73 ∷ 115 ∷ 100 ∷ 112 ∷ []

abbrev pub mqtt : List ℕ
mqtt = 77 ∷ 81 ∷ 84 ∷ 84 ∷ []

-- The protocol name of a version, if it is one of the three.
abbrev pub protocol_name : ℕ → Option (List ℕ)
protocol_name mqtt_version =
    if mqtt_version == 3
    then some mqisdp
    else if mqtt_version == 4 || mqtt_version == 5
    then some mqtt
    else none

-- The bits that the flags get for a will, and for a name or password that is given.
unfoldable pub will_flags : Option WillMessage → ℕ
will_flags none = 0
will_flags (some w) = 4 + w.qos % 4 * 8 + w.retained % 2 * 32

unfoldable pub given : Option (List ℕ) → ℕ
given none = 0
given (some s) = 1

-- `packet.flags.all`
unfoldable pub connect_flags : ℕ → Client → ℕ
connect_flags mqtt_version c =
    (if leb 5 mqtt_version then c.cleanstart else c.cleansession) % 2 * 2
    + will_flags c.will
    + given c.password * 64
    + given c.username * 128

unfoldable pub will_len : ℕ → Option WillMessage → Option MqttProperties → ℕ
will_len mqtt_version none props = 0
will_len mqtt_version (some w) props =
    strlen w.topic
    + 2
    + length w.payload
    + 2
    + (if leb 5 mqtt_version then properties_len props else 0)

unfoldable pub username_len : Option (List ℕ) → ℕ
username_len none = 0
username_len (some s) = strlen s + 2

unfoldable pub password_len : Option (List ℕ) → ℕ
password_len none = 0
password_len (some s) = length s + 2

unfoldable pub will_bytes : ℕ → Option WillMessage → Option MqttProperties → List ℕ
will_bytes mqtt_version none props = []
will_bytes mqtt_version (some w) props =
    (if leb 5 mqtt_version then (write_properties props).1 else [])
    ++ (write_utf w.topic ++ write_data w.payload (length w.payload))

unfoldable pub username_bytes : Option (List ℕ) → List ℕ
username_bytes none = []
username_bytes (some s) = write_utf s

unfoldable pub password_bytes : Option (List ℕ) → List ℕ
password_bytes none = []
password_bytes (some s) = write_data s (length s)

-- `len`
unfoldable pub connect_len : ℕ → Client → Option MqttProperties → Option MqttProperties → ℕ
connect_len mqtt_version c connect_props will_props =
    (if mqtt_version == 3 then 12 else 10)
    + (strlen c.client_id + 2)
    + will_len mqtt_version c.will will_props
    + username_len c.username
    + password_len c.password
    + (if leb 5 mqtt_version then properties_len connect_props else 0)

-- What is written in the buffer behind the protocol name.
unfoldable pub connect_bytes : ℕ → Client → Option MqttProperties → Option MqttProperties → List ℕ
connect_bytes mqtt_version c connect_props will_props =
    write_char mqtt_version
    ++ (write_char (connect_flags mqtt_version c)
        ++ (write_int c.keep_alive_interval
            ++ ((if leb 5 mqtt_version then (write_properties connect_props).1 else [])
                ++ (write_utf c.client_id
                    ++ (will_bytes mqtt_version c.will will_props
                        ++ (username_bytes c.username ++ password_bytes c.password))))))

-- The fixed header and the buffer, if the version has a name.
unfoldable pub named : Option (List ℕ) → ℕ → List ℕ → Option (ℕ × PacketBuffer)
named none len bytes = none
named (some name) len bytes = some (header_byte connect 0 0 0, (len, write_utf name ++ bytes))

-- MQTTPacket_send_connect; for another version than the three it is an error, `none`.
unfoldable pub send_connect :
    ℕ → Client → Option MqttProperties → Option MqttProperties → Option (ℕ × PacketBuffer)
send_connect mqtt_version c connect_props will_props =
    named (protocol_name mqtt_version) (connect_len mqtt_version c connect_props will_props)
      (connect_bytes mqtt_version c connect_props will_props)

-- `Connack`
pub record Connack : Type 0 where
  pub header : ℕ
  pub flags : ℕ
  pub rc : ℕ
  pub mqtt_version : ℕ
  pub properties : Option MqttProperties

-- Without properties in the packet, the field is not set.
unfoldable pub connack_properties : ℕ → ℕ → Buffer → Result (Option MqttProperties)
connack_properties mqtt_version datalen buf =
    if leb 5 mqtt_version && ltb 2 datalen
    then (do (properties, rest) ← read_properties initializer buf; ok (some properties))
    else ok none

-- The body of MQTTPacket_connack for a packet of two bytes or more.
unfoldable pub connack_fields : ℕ → ℕ → Buffer → Result Connack
connack_fields mqtt_version header buf = do
  (flags, rest) ← read_char buf
  (rc, rest') ← read_char rest
  properties ← connack_properties mqtt_version (length buf) rest'
  ok (record {
    header = header;
    flags = flags;
    rc = rc;
    mqtt_version = mqtt_version;
    properties = properties;
  })

-- MQTTPacket_connack
unfoldable pub connack : ℕ → ℕ → Buffer → Result Connack
connack mqtt_version header buf =
    if ltb (length buf) 2 then err else connack_fields mqtt_version header buf

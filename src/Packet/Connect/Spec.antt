-- ===== src/Packet/Connect/Spec.antt =====
-- The CONNECT packet as MQTT 3.1, 3.1.1 and 5 describe it, read by a server. The library has no such reader.
use paho_mqtt_c.Common.{ℕ, ◌/◌, ◌%◌, Option, none, some, List, ◌==◌, if◌then◌else◌}
use paho_mqtt_c.Packet.Wire.{Result, ok, ◌>>=◌, Buffer, read_char, read_int, read_utf_len}
use paho_mqtt_c.Packet.Publish.{read_v5_properties}
use paho_mqtt_c.Properties.Types.{MqttProperties}

pub record Will : Type 0 where
  pub will_qos : ℕ
  pub will_retain : ℕ
  pub will_properties : MqttProperties
  pub will_topic : List ℕ
  pub will_payload : List ℕ

pub record Connect : Type 0 where
  pub protocol : List ℕ
  pub level : ℕ
  pub clean : ℕ
  pub keep_alive : ℕ
  pub properties : MqttProperties
  pub client_id : List ℕ
  pub will : Option Will
  pub username : Option (List ℕ)
  pub password : Option (List ℕ)

-- The bit of the connect flags with this weight.
abbrev pub flag : ℕ → ℕ → ℕ
flag weight flags = flags / weight % 2

-- The string or the binary data that a flag announces.
unfoldable pub read_optional : ℕ → Buffer → Result (Option (List ℕ) × Buffer)
read_optional announced buf =
    if announced == 1 then (do (s, rest) ← read_utf_len buf; ok (some s, rest)) else ok (none, buf)

unfoldable pub read_will : ℕ → ℕ → Buffer → Result (Option Will × Buffer)
read_will level flags buf =
    if flag 4 flags == 1
    then (do
      (properties, rest) ← read_v5_properties level buf
      (topic, rest1) ← read_utf_len rest
      (payload, rest2) ← read_utf_len rest1
      ok (
        some (record {
          will_qos = flags / 8 % 4;
          will_retain = flag 32 flags;
          will_properties = properties;
          will_topic = topic;
          will_payload = payload;
        }),
        rest2,
      ))
    else ok (none, buf)

unfoldable pub read_connect : Buffer → Result (Connect × Buffer)
read_connect buf = do
  (protocol, rest1) ← read_utf_len buf
  (level, rest2) ← read_char rest1
  (flags, rest3) ← read_char rest2
  (keep_alive, rest4) ← read_int rest3
  (properties, rest5) ← read_v5_properties level rest4
  (client_id, rest6) ← read_utf_len rest5
  (will, rest7) ← read_will level flags rest6
  (username, rest8) ← read_optional (flag 128 flags) rest7
  (password, rest9) ← read_optional (flag 64 flags) rest8
  ok (
    record {
      protocol = protocol;
      level = level;
      clean = flag 2 flags;
      keep_alive = keep_alive;
      properties = properties;
      client_id = client_id;
      will = will;
      username = username;
      password = password;
    },
    rest9,
  )

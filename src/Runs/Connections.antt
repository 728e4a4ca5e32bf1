-- ===== src/Runs/Connections.antt =====
-- CONNECT and CONNACK packets at concrete inputs.
use paho_mqtt_c.Common.{ℕ, ◌≡◌, refl, arith, inr, List, [], ◌∷◌, some, length}
use paho_mqtt_c.Packet.Wire.{ok, err, header_byte}
use paho_mqtt_c.Packet.Publish.{property_bytes}
use paho_mqtt_c.Packet.Connect.{Client, WillMessage, connect, send_connect, Connack, connack}
use paho_mqtt_c.Packet.Connect.Spec.{Connect, read_connect}
use paho_mqtt_c.Packet.Connect.Valid.{CanConnect}
use paho_mqtt_c.Packet.Connect.Laws.{Received, read_connect-send_connect}
use paho_mqtt_c.Packet.Connect.Reply.{GetsProperties, connack-server}
use paho_mqtt_c.Runs.Packets.{one_property, one_property-IsValid}

abbrev some_will : WillMessage
some_will = record { topic = 119 ∷ []; payload = 0 ∷ 255 ∷ []; retained = 1; qos = 2 }

abbrev some_client : Client
some_client = record {
  client_id = 105 ∷ 100 ∷ [];
  username = some (117 ∷ []);
  password = some (0 ∷ 1 ∷ []);
  cleansession = 0;
  cleanstart = 1;
  keep_alive_interval = 60;
  will = some some_will;
}

some_client-CanConnect : CanConnect some_client one_property one_property
some_client-CanConnect = record {
  id = ((omega arith, (omega arith, tt)), omega arith);
  name = ((omega arith, tt), omega arith);
  secret = omega arith;
  bits = (omega arith, omega arith);
  time = omega arith;
  message = (((omega arith, tt), omega arith), omega arith, omega arith, omega arith);
  valid = one_property-IsValid;
  will_valid = one_property-IsValid;
}

read_connect-send_connect_example :
    (bytes : List ℕ) × (got : Connect) × (send_connect 5 some_client
        (some one_property)
        (some one_property)
      ≡ some (header_byte connect 0 0 0, (length bytes, bytes)))
    × (read_connect bytes ≡ ok (got, []))
    × Received 5 some_client one_property one_property got
read_connect-send_connect_example =
    read_connect-send_connect 5 some_client (some one_property) (some one_property) (inr (inr refl))
      some_client-CanConnect

connack-server_example :
    (connack 5 32 [] ≡ err)
    × (connack 5 32 (1 ∷ []) ≡ err)
    × (got : Connack) × (connack 5 32 (1 ∷ 0 ∷ property_bytes 5 one_property) ≡ ok got)
    × (got.flags ≡ 1)
    × (got.rc ≡ 0)
    × GetsProperties 5 one_property got.properties
connack-server_example = connack-server 5 32 1 0 one_property one_property-IsValid

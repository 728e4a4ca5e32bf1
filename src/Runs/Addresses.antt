-- ===== src/Runs/Addresses.antt =====
-- Addresses of servers at concrete inputs.
use paho_mqtt_c.Common.{ℕ, ◌≡◌, arith, List, [], ◌∷◌, some, length}
use paho_mqtt_c.Packet.Wire.{ok}
use paho_mqtt_c.Address.{address_port}
use paho_mqtt_c.Address.Parts.{IsHost, uri_of, parts_of, address_port_lem}

-- "a.b"
abbrev short_host : List ℕ
short_host = 97 ∷ 46 ∷ 98 ∷ []

short-IsHost : IsHost short_host
short-IsHost = record {
  some_byte = omega arith;
  no_open = (ground arith, (ground arith, (ground arith, tt)));
  no_close = (ground arith, (ground arith, (ground arith, tt)));
  no_colon = (ground arith, (ground arith, (ground arith, tt)));
  no_slash = (ground arith, (ground arith, (ground arith, tt)));
}

-- A stand-in for `atoi` that gives the length of its text.
abbrev text_length : List ℕ → ℕ
text_length s = length s

-- "a.b:8/t"
address_port_lem_example :
    address_port text_length (uri_of short_host (some (56 ∷ [])) (some (116 ∷ []))) 1883
    ≡ ok (parts_of text_length short_host (some (56 ∷ [])) (some (116 ∷ [])) 1883)
address_port_lem_example =
    address_port_lem text_length short_host (some (56 ∷ [])) (some (116 ∷ [])) 1883 short-IsHost
      ((ground arith, tt), (ground arith, tt)) (ground arith, (ground arith, tt))

-- ===== src/Address.antt =====
-- src/MQTTProtocolOut.c: MQTTProtocol_addressPort. A C string is the list of the bytes in front of its end, and a
-- pointer into it is a position; `atoi` is a parameter.
use paho_mqtt_c.Common.{
  ℕ, zero, suc, ◌+◌, ◌-◌, Bool, true, false, ◌&&◌, List, [], ◌∷◌, ◌++◌, Option, none, some,
}
use paho_mqtt_c.Common.{ltb, ◌==◌, if◌then◌else◌, length, drop, get_elem?}
use paho_mqtt_c.Packet.Wire.{Result, ok, fault, ◌>>=◌}
pub mod Parts

-- `strrchr` and `strchr`
unfoldable pub found_later : ℕ → ℕ → Option ℕ → Option ℕ
found_later c d (some i) = some (suc i)
found_later c d none = if d == c then some 0 else none

unfoldable pub last_index : ℕ → List ℕ → Option ℕ
last_index c [] = none
last_index c (d ∷ s) = found_later c d (last_index c s)

unfoldable pub next_index : Option ℕ → Option ℕ
next_index none = none
next_index (some i) = some (suc i)

unfoldable pub index_of : ℕ → List ℕ → Option ℕ
index_of c [] = none
index_of c (d ∷ s) = let rest = next_index (index_of c s) in if d == c then some 0 else rest

-- 58 is ':', 91 and 93 are '[' and ']', 47 is '/'.
unfoldable pub is_bracketed : List ℕ → Bool
is_bracketed [] = false
is_bracketed (c ∷ s) = c == 91

-- `colon_pos < strrchr(uri, ']')`, where NULL is in front of every position.
unfoldable pub is_before : Option ℕ → Option ℕ → Bool
is_before _ none = false
is_before none (some j) = true
is_before (some i) (some j) = ltb i j

unfoldable pub colon_pos : List ℕ → Option ℕ
colon_pos uri =
    let pos = last_index 58 uri in
    if is_bracketed uri && is_before pos (last_index 93 uri) then none else pos

unfoldable pub from_colon : Option ℕ → ℕ
from_colon none = 0
from_colon (some i) = i

-- The position of the topic, from the colon on.
unfoldable pub placed : ℕ → Option ℕ → Option ℕ
placed i none = none
placed i (some k) = some (i + k)

unfoldable pub topic_pos : List ℕ → Option ℕ → Option ℕ
topic_pos uri colon = placed (from_colon colon) (index_of 47 (drop (from_colon colon) uri))

-- `len` in front of the last test.
unfoldable pub address_len : List ℕ → Option ℕ → Option ℕ → ℕ
address_len uri (some i) topic = i
address_len uri none (some k) = k
address_len uri none none = length uri

-- `buf[len - 1] == ']'`; for a length of 0 a byte in front of the string is read.
unfoldable pub without_bracket : ℕ → Option ℕ → Result ℕ
without_bracket len none = fault
without_bracket len (some c) = ok (if c == 93 then len - 1 else len)

unfoldable pub last_byte : List ℕ → ℕ → Option ℕ
last_byte uri zero = none
last_byte uri (suc n) = get_elem? uri n

module _ (atoi : List ℕ → ℕ) where
  unfoldable pub port_of : List ℕ → Option ℕ → ℕ → ℕ
  port_of uri none default_port = default_port
  port_of uri (some i) default_port = atoi (drop (i + 1) uri)

  -- MQTTProtocol_addressPort: the length of the address, the port and the position of the topic.
  unfoldable pub address_port : List ℕ → ℕ → Result (ℕ × ℕ × Option ℕ)
  address_port uri default_port = do
    let colon = colon_pos uri
    let topic = topic_pos uri colon
    let len = address_len uri colon topic
    len' ← without_bracket len (last_byte uri len)
    ok (len', port_of uri colon default_port, topic)

-- ===== src/Properties/Read.antt =====
-- MQTTProperty_read, MQTTProperties_read, and the functions that look a property up.
use paho_mqtt_c.Common.{ℕ, zero, suc, ◌+◌, ◌-◌, ◌%◌, Bool, true, false, List, [], ◌∷◌, ◌++◌}
use paho_mqtt_c.Common.{Option, none, some, ltb, leb, ◌==◌, if◌then◌else◌}
use paho_mqtt_c.Common as Common
use paho_mqtt_c.Packet.Wire.{Result, ok, err, fault, stuck, ◌>>=◌, Buffer, read_char, read_int}
use paho_mqtt_c.Packet.Wire.{read_int4, read_len_string, advance}
use paho_mqtt_c.Packet.Varint.{decode_buf}
use paho_mqtt_c.Properties.Types.{PropertyType, get_type, MqttProperty, MqttProperties, entries_of}
use paho_mqtt_c.Properties.Types.{byte, two_byte_integer, four_byte_integer, variable_byte_integer}
use paho_mqtt_c.Properties.Types.{binary_data, utf8_encoded_string, utf8_string_pair}
pub mod Laws
pub mod Values

-- A property with an identifier and no value yet.
abbrev pub blank : ℕ → MqttProperty
blank identifier = record {
  identifier = identifier;
  byte_value = 0;
  integer2 = 0;
  integer4 = 0;
  string_data = [];
  string_value = [];
}

-- The case of a string or binary value in `MQTTProperty_read`.
pub read_string : ℕ → Buffer → Result (ℕ × MqttProperty × Buffer)
read_string identifier buf = do
  (len, string, rest) ← read_len_string buf
  ok (len, record (blank identifier) { string_data = string }, rest)

-- The value of a property of the given type: the `len` of the source, the property, the rest.
pub read_value : PropertyType → ℕ → Buffer → Result (ℕ × MqttProperty × Buffer)
read_value byte identifier buf = do
  (c, rest) ← read_char buf
  ok (1, record (blank identifier) { byte_value = c }, rest)
read_value two_byte_integer identifier buf = do
  (n, rest) ← read_int buf
  ok (2, record (blank identifier) { integer2 = n }, rest)
read_value four_byte_integer identifier buf = do
  (n, rest) ← read_int4 buf
  ok (4, record (blank identifier) { integer4 = n }, rest)
read_value variable_byte_integer identifier buf = do
  (len, n) ← decode_buf buf
  rest ← advance len buf
  ok (len, record (blank identifier) { integer4 = n }, rest)
read_value binary_data identifier buf = read_string identifier buf
read_value utf8_encoded_string identifier buf = read_string identifier buf
read_value utf8_string_pair identifier buf = do
  (len, string, rest) ← read_len_string buf
  (proplen, value, left) ← read_len_string rest
  ok (len + proplen, record (blank identifier) { string_data = string; string_value = value }, left)

-- A property of the type that `MQTTProperty_getType` gave. `err` is the value -1.
pub read_typed : Option PropertyType → ℕ → Buffer → Result (ℕ × MqttProperty × Buffer)
read_typed none identifier buf = err
read_typed (some type) identifier buf = do
  (len, prop, rest) ← read_value type identifier buf
  ok (len + 1, prop, rest)

pub read_property : Buffer → Result (ℕ × MqttProperty × Buffer)
read_property buf = do
  (identifier, rest) ← read_char buf
  read_typed (get_type identifier) identifier rest

-- `properties->max_count` before the next entry is read.
pub next_max_count : ℕ → List MqttProperty → ℕ
next_max_count max_count entries =
    if Common.length entries == max_count then max_count + 10 else max_count

-- The array after it is allocated or grown.
pub next_array : ℕ → Option (List MqttProperty) → Option (List MqttProperty)
next_array max_count array =
    if Common.length (entries_of array) == max_count then some (entries_of array) else array

-- A NULL array is the error PAHO_MEMORY_ERROR.
pub allocated : Option (List MqttProperty) → Result (List MqttProperty)
allocated none = err
allocated (some entries) = ok entries

-- `remlength -= proplen` on an `unsigned int`: it wraps around where a property is longer than what
-- was left.
pub sub_u32 : ℕ → ℕ → ℕ
sub_u32 a b = (a + 4294967296 - b % 4294967296) % 4294967296

-- The while loop of `MQTTProperties_read`, with `remlength`, the room and the array, and the buffer.
pub read_entries :
    ℕ
    → ℕ
    → ℕ
    → Option (List MqttProperty)
    → Buffer
    → Result (ℕ × Option (List MqttProperty) × Buffer)
read_entries fuel zero max_count array buf = ok (max_count, array, buf)
read_entries zero (suc r) max_count array buf = stuck
read_entries (suc fuel) (suc r) max_count array buf = do
  entries ← allocated (next_array max_count array)
  (proplen, prop, rest) ← read_property buf
  read_entries fuel (sub_u32 (suc r) proplen) (next_max_count max_count entries)
      (some (entries ++ prop ∷ [])) rest

-- `ok` is the return code 1. After any other code the list is emptied by `MQTTProperties_free`.
-- A property takes a byte at least, so a round more than the buffer has bytes is enough fuel.
pub read_properties : MqttProperties → Buffer → Result (MqttProperties × Buffer)
read_properties props buf =
    if ltb 0 (Common.length buf)
    then (do
      (len, remlength) ← decode_buf buf
      rest ← advance len buf
      (max_count, array, left) ←
          read_entries (suc (Common.length rest)) remlength props.max_count props.array rest
      ok (record { max_count = max_count; length = remlength; array = array }, left))
    else err

-- The loop of `MQTTProperties_hasProperty`.
pub has_property : List MqttProperty → ℕ → Bool
has_property [] propid = false
has_property (prop ∷ props) propid =
    if propid == prop.identifier then true else has_property props propid

-- The loop of `MQTTProperties_propertyCount`, from `count` on.
pub count_from : ℕ → List MqttProperty → ℕ → ℕ
count_from count [] propid = count
count_from count (prop ∷ props) propid =
    count_from (if propid == prop.identifier then count + 1 else count) props propid

pub property_count : List MqttProperty → ℕ → ℕ
property_count props propid = count_from 0 props propid

-- The loop of `MQTTProperties_getPropertyAt`, from `cur_index` on.
pub get_from : ℕ → List MqttProperty → ℕ → ℕ → Option MqttProperty
get_from cur_index [] propid index = none
get_from cur_index (prop ∷ props) propid index =
    if prop.identifier == propid
    then (if cur_index == index then some prop else get_from (cur_index + 1) props propid index)
    else get_from cur_index props propid index

pub get_property_at : List MqttProperty → ℕ → ℕ → Option MqttProperty
get_property_at props propid index = get_from 0 props propid index

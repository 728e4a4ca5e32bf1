-- ===== src/Properties/Write.antt =====
-- MQTTProperties_len, MQTTProperties_add, MQTTProperty_write, MQTTProperties_write,
-- MQTTProperties_copy.
use paho_mqtt_c.Common.{ℕ, ◌+◌, Bool, List, [], ◌∷◌, ◌++◌, Option, none, some}
use paho_mqtt_c.Common.{◌==◌, if◌then◌else◌}
use paho_mqtt_c.Common as Common
use paho_mqtt_c.Packet.Wire.{write_char, write_int, write_int4, write_len_string}
use paho_mqtt_c.Packet.Varint.{encode, vbi_len}
use paho_mqtt_c.Properties.Types.{PropertyType, get_type, MqttProperty, MqttProperties, entries_of}
use paho_mqtt_c.Properties.Types.{byte, two_byte_integer, four_byte_integer, variable_byte_integer}
use paho_mqtt_c.Properties.Types.{binary_data, utf8_encoded_string, utf8_string_pair, initializer}
pub mod Laws

-- `none` is NULL.
unfoldable pub properties_len : Option MqttProperties → ℕ
properties_len none = 1
properties_len (some props) = props.length + vbi_len props.length

-- The length of the value as `MQTTProperties_add` counts it.
unfoldable pub value_len : PropertyType → MqttProperty → ℕ
value_len byte prop = 1
value_len two_byte_integer prop = 2
value_len four_byte_integer prop = 4
value_len variable_byte_integer prop = vbi_len prop.integer4
value_len binary_data prop = 2 + Common.length prop.string_data
value_len utf8_encoded_string prop = 2 + Common.length prop.string_data
value_len utf8_string_pair prop =
    2 + Common.length prop.string_data + (2 + Common.length prop.string_value)

-- The room of the array before the new entry is put in.
unfoldable pub grown_max_count : MqttProperties → ℕ
grown_max_count props = elim props.array [
  | none ↦ 10
  | some entries ↦
      if Common.length entries == props.max_count then props.max_count + 10 else props.max_count
]

-- The result `none` is MQTT_INVALID_PROPERTY_ID, with `props` as it was.
unfoldable pub add : MqttProperties → MqttProperty → Option MqttProperties
add props prop = elim (get_type prop.identifier) [
  | none ↦ none
  | some type ↦ some (record {
    max_count = grown_max_count props;
    length = props.length + (value_len type prop + 1);
    array = some (entries_of props.array ++ prop ∷ []);
  })
]

-- The bytes of the value, after the identifier, and their number as the code counts it.
unfoldable pub write_value : PropertyType → MqttProperty → ℕ × List ℕ
write_value byte prop = (1, write_char prop.byte_value)
write_value two_byte_integer prop = (2, write_int prop.integer2)
write_value four_byte_integer prop = (4, write_int4 prop.integer4)
write_value variable_byte_integer prop =
    (Common.length (encode prop.integer4), encode prop.integer4)
write_value binary_data prop =
    (Common.length prop.string_data + 2, write_len_string prop.string_data)
write_value utf8_encoded_string prop =
    (Common.length prop.string_data + 2, write_len_string prop.string_data)
write_value utf8_string_pair prop = (
  Common.length prop.string_data + Common.length prop.string_value + 4,
  write_len_string prop.string_data ++ write_len_string prop.string_value,
)

-- The value returned, and the bytes written. An identifier with no type gives -1 + 1 and no byte.
unfoldable pub write_typed : Option PropertyType → MqttProperty → ℕ × List ℕ
write_typed none prop = (0, [])
write_typed (some type) prop =
    let (rc, bytes) = write_value type prop in (rc + 1, write_char prop.identifier ++ bytes)

unfoldable pub write_property : MqttProperty → ℕ × List ℕ
write_property prop = write_typed (get_type prop.identifier) prop

-- The loop of `MQTTProperties_write`, from `len` on. `write_property` returns no negative number, so
-- the loop is never left early.
unfoldable pub write_entries : ℕ → List MqttProperty → ℕ × List ℕ
write_entries len [] = (len, [])
write_entries len (prop ∷ props) =
    let (rc, bytes) = write_property prop in
    let (len', more) = write_entries (len + rc) props in (len', bytes ++ more)

unfoldable pub write_properties : Option MqttProperties → ℕ × List ℕ
write_properties none = (1, encode 0)
write_properties (some props) =
    let (rc, bytes) = write_entries 1 (entries_of props.array) in (rc, encode props.length ++ bytes)

-- The loop of `MQTTProperties_copy`. A property that `add` refuses is only logged.
unfoldable pub add_all : MqttProperties → List MqttProperty → MqttProperties
add_all result [] = result
add_all result (prop ∷ props) = elim (add result prop) [
  | none ↦ add_all result props
  | some result' ↦ add_all result' props
]

unfoldable pub copy : MqttProperties → MqttProperties
copy props = add_all initializer (entries_of props.array)

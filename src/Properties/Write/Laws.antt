-- ===== src/Properties/Write/Laws.antt =====
-- Valid property lists, how MQTTProperties_add keeps them, and how many bytes they are written in.
use paho_mqtt_c.Common.{ℕ, suc, ◌+◌, ◌^◌, ◌≤◌, ◌<◌, ◌≡◌, ap, ◌∙◌, refl, arith, List, [], ◌∷◌, ◌++◌}
use paho_mqtt_c.Common.{Option, none, some, All, length-append, Bool-cases, inl, inr, ◌==◌}
use paho_mqtt_c.Common as Common
use paho_mqtt_c.Packet.Wire.{write_char, write_int, write_int4, write_len_string}
use paho_mqtt_c.Packet.Varint.{encode}
use paho_mqtt_c.Packet.Varint.Encode.{length-encode}
use paho_mqtt_c.Properties.Types.{PropertyType, get_type, MqttProperty, MqttProperties, entries_of}
use paho_mqtt_c.Properties.Types.{byte, two_byte_integer, four_byte_integer, variable_byte_integer}
use paho_mqtt_c.Properties.Types.{binary_data, utf8_encoded_string, utf8_string_pair, initializer}
use paho_mqtt_c.Properties.Write.{properties_len, value_len, grown_max_count, add, write_value}
use paho_mqtt_c.Properties.Write.{write_property, write_typed, write_entries, write_properties}

-- The field that goes with the type has a value that the wire format can carry.
abbrev pub FitsType : PropertyType → MqttProperty → Type 0
FitsType byte prop = prop.byte_value < 256
FitsType two_byte_integer prop = prop.integer2 < 65536
FitsType four_byte_integer prop = prop.integer4 < 2 ^ 32
FitsType variable_byte_integer prop = prop.integer4 < 268435456
FitsType binary_data prop = Common.length prop.string_data < 65536
FitsType utf8_encoded_string prop = Common.length prop.string_data < 65536
FitsType utf8_string_pair prop =
    (Common.length prop.string_data < 65536) × (Common.length prop.string_value < 65536)

-- The identifier is known, and the value fits.
pub record IsFit (prop : MqttProperty) : Type 0 where
  pub type : PropertyType
  pub known : get_type prop.identifier ≡ some type
  pub fits : FitsType type prop

abbrev pub len_of_type : Option PropertyType → MqttProperty → ℕ
len_of_type none prop = 0
len_of_type (some type) prop = value_len type prop + 1

-- The bytes of the entries: an identifier and a value each.
abbrev pub entries_len : List MqttProperty → ℕ
entries_len [] = 0
entries_len (prop ∷ props) = len_of_type (get_type prop.identifier) prop + entries_len props

pub record IsValid (props : MqttProperties) : Type 0 where
  pub counted : props.length ≡ entries_len (entries_of props.array)
  pub room : Common.length (entries_of props.array) ≤ props.max_count
  pub short : props.length < 268435456
  pub fit : All IsFit (entries_of props.array)

pub write_value_len :
    (type : PropertyType) (prop : MqttProperty)
    → FitsType type prop
    → ((write_value type prop).0 ≡ value_len type prop)
      × (Common.length (write_value type prop).1 ≡ value_len type prop)
unfolding write_value value_len write_char write_int write_int4 write_len_string
write_value_len byte prop h = (refl, refl)
write_value_len two_byte_integer prop h = (refl, refl)
write_value_len four_byte_integer prop h = (refl, refl)
write_value_len variable_byte_integer prop h = let e = (length-encode prop.integer4 h).0 in (e, e)
write_value_len binary_data prop h = (omega arith, omega arith)
write_value_len utf8_encoded_string prop h = (omega arith, omega arith)
write_value_len utf8_string_pair prop h =
    (omega arith, omega (arith, length-append {0} prop.string_data))

pub write_property_len :
    (prop : MqttProperty)
    → IsFit prop
    → ((write_property prop).0 ≡ len_of_type (get_type prop.identifier) prop)
      × (Common.length (write_property prop).1 ≡ len_of_type (get_type prop.identifier) prop)
unfolding write_property write_typed write_char
write_property_len prop f =
    let sizes = write_value_len f.type prop f.fits in
    rw f.known (omega (arith, sizes.0), omega (arith, sizes.1))

pub write_entries_len :
    (len : ℕ) (props : List MqttProperty)
    → All IsFit props
    → ((write_entries len props).0 ≡ len + entries_len props)
      × (Common.length (write_entries len props).1 ≡ entries_len props)
unfolding write_entries
write_entries_len len [] h = (omega arith, refl)
write_entries_len len (prop ∷ props) (f, fs) = (
  omega (
    arith,
    write_property_len prop f,
    write_entries_len (len + (write_property prop).0) props fs,
  ),
  omega (
    arith,
    length-append (write_property prop).1 (write_entries (len + (write_property prop).0) props).1,
    write_property_len prop f,
    write_entries_len (len + (write_property prop).0) props fs,
  ),
)

-- A valid property list is written in exactly the bytes that MQTTProperties_len counts, and so fits the
-- buffers that are allocated by that count. The value that MQTTProperties_write returns is one more than
-- the bytes of the properties, whatever the size of the length field in front of them.
pub length-write_properties :
    (props : MqttProperties)
    → IsValid props
    → (Common.length (write_properties (some props)).1 ≡ properties_len (some props))
      × ((write_properties (some props)).0 ≡ 1 + props.length)
unfolding write_properties properties_len
length-write_properties props v = (
  omega (
    arith,
    length-append (encode props.length) (write_entries 1 (entries_of props.array)).1,
    (length-encode props.length v.short).0,
    write_entries_len 1 (entries_of props.array) v.fit,
  ),
  omega (arith, write_entries_len 1 (entries_of props.array) v.fit),
)

initializer-IsValid : IsValid initializer
initializer-IsValid = record { counted = refl; room = omega arith; short = omega arith; fit = tt }

entries_len-append :
    (xs ys : List MqttProperty) → entries_len (xs ++ ys) ≡ entries_len xs + entries_len ys
entries_len-append [] ys = omega arith
entries_len-append (x ∷ xs) ys = omega (arith, entries_len-append xs ys)

pub All-append {ℓ κ} :
    {A : Type ℓ} (P : A → Type κ) (xs ys : List A) → All P xs → All P ys → All P (xs ++ ys)
All-append P [] ys hx hy = hy
All-append P (x ∷ xs) ys hx hy = (hx.0, All-append P xs ys hx.1 hy)

grown_max_count_room :
    (props : MqttProperties)
    → Common.length (entries_of props.array) ≤ props.max_count
    → Common.length (entries_of props.array) < grown_max_count props
unfolding grown_max_count
grown_max_count_room props h = ground arith

-- MQTTProperties_add puts a property that fits behind the others, and keeps the list valid, as long as
-- the whole list can be written.
pub add-IsValid :
    (props : MqttProperties) (prop : MqttProperty)
    → IsValid props
    → IsFit prop
    → props.length + len_of_type (get_type prop.identifier) prop < 268435456
    → (props' : MqttProperties) × (add props prop ≡ some props')
      × IsValid props'
      × (entries_of props'.array ≡ entries_of props.array ++ prop ∷ [])
unfolding add
add-IsValid props prop v f h = (
  record {
    max_count = grown_max_count props;
    length = props.length + (value_len f.type prop + 1);
    array = some (entries_of props.array ++ prop ∷ []);
  },
  rw (f.known, add),
  record {
    counted = omega (arith, v.counted, sum);
    room = omega (
      arith,
      length-append (entries_of props.array) (prop ∷ []),
      grown_max_count_room props v.room,
    );
    short = omega (arith, len);
    fit = All-append IsFit (entries_of props.array) (prop ∷ []) v.fit (f, tt);
  },
  refl,
)
  where
    len : len_of_type (get_type prop.identifier) prop ≡ value_len f.type prop + 1
    len = rw f.known

    sum :
        entries_len (entries_of props.array ++ prop ∷ [])
        ≡ entries_len (entries_of props.array) + (value_len f.type prop + 1)
    sum = omega (arith, entries_len-append (entries_of props.array) (prop ∷ []), len)

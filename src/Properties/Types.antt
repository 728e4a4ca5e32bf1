-- ===== src/Properties/Types.antt =====
-- The identifiers of properties, and the type of the value of each.
use paho_mqtt_c.Common.{ℕ, List, [], ◌∷◌, Option, none, some, ◌==◌, if◌then◌else◌}

pub data PropertyType : Type 0 where
  byte two_byte_integer four_byte_integer variable_byte_integer : PropertyType
  binary_data utf8_encoded_string utf8_string_pair : PropertyType

-- enum MQTTPropertyCodes
abbrev pub payload_format_indicator : ℕ
payload_format_indicator = 1

abbrev pub message_expiry_interval : ℕ
message_expiry_interval = 2

abbrev pub content_type : ℕ
content_type = 3

abbrev pub response_topic : ℕ
response_topic = 8

abbrev pub correlation_data : ℕ
correlation_data = 9

abbrev pub subscription_identifier : ℕ
subscription_identifier = 11

abbrev pub session_expiry_interval : ℕ
session_expiry_interval = 17

abbrev pub assigned_client_identifer : ℕ
assigned_client_identifer = 18

abbrev pub server_keep_alive : ℕ
server_keep_alive = 19

abbrev pub authentication_method : ℕ
authentication_method = 21

abbrev pub authentication_data : ℕ
authentication_data = 22

abbrev pub request_problem_information : ℕ
request_problem_information = 23

abbrev pub will_delay_interval : ℕ
will_delay_interval = 24

abbrev pub request_response_information : ℕ
request_response_information = 25

abbrev pub response_information : ℕ
response_information = 26

abbrev pub server_reference : ℕ
server_reference = 28

abbrev pub reason_string : ℕ
reason_string = 31

abbrev pub receive_maximum : ℕ
receive_maximum = 33

abbrev pub topic_alias_maximum : ℕ
topic_alias_maximum = 34

abbrev pub topic_alias : ℕ
topic_alias = 35

abbrev pub maximum_qos : ℕ
maximum_qos = 36

abbrev pub retain_available : ℕ
retain_available = 37

abbrev pub user_property : ℕ
user_property = 38

abbrev pub maximum_packet_size : ℕ
maximum_packet_size = 39

abbrev pub wildcard_subscription_available : ℕ
wildcard_subscription_available = 40

abbrev pub subscription_identifiers_available : ℕ
subscription_identifiers_available = 41

abbrev pub shared_subscription_available : ℕ
shared_subscription_available = 42

abbrev pub names_to_types : List (ℕ × PropertyType)
names_to_types =
    (payload_format_indicator, byte)
    ∷ (message_expiry_interval, four_byte_integer)
    ∷ (content_type, utf8_encoded_string)
    ∷ (response_topic, utf8_encoded_string)
    ∷ (correlation_data, binary_data)
    ∷ (subscription_identifier, variable_byte_integer)
    ∷ (session_expiry_interval, four_byte_integer)
    ∷ (assigned_client_identifer, utf8_encoded_string)
    ∷ (server_keep_alive, two_byte_integer)
    ∷ (authentication_method, utf8_encoded_string)
    ∷ (authentication_data, binary_data)
    ∷ (request_problem_information, byte)
    ∷ (will_delay_interval, four_byte_integer)
    ∷ (request_response_information, byte)
    ∷ (response_information, utf8_encoded_string)
    ∷ (server_reference, utf8_encoded_string)
    ∷ (reason_string, utf8_encoded_string)
    ∷ (receive_maximum, two_byte_integer)
    ∷ (topic_alias_maximum, two_byte_integer)
    ∷ (topic_alias, two_byte_integer)
    ∷ (maximum_qos, byte)
    ∷ (retain_available, byte)
    ∷ (user_property, utf8_string_pair)
    ∷ (maximum_packet_size, four_byte_integer)
    ∷ (wildcard_subscription_available, byte)
    ∷ (subscription_identifiers_available, byte)
    ∷ (shared_subscription_available, byte)
    ∷ []

-- The loop of `MQTTProperty_getType`: the first row with the name.
unfoldable pub find_type : ℕ → List (ℕ × PropertyType) → Option PropertyType
find_type value [] = none
find_type value ((name, type) ∷ rows) = if name == value then some type else find_type value rows

-- `none` is the value -1.
unfoldable pub get_type : ℕ → Option PropertyType
get_type value = find_type value names_to_types

-- `MQTTProperty`. An `MQTTLenString` is the list of its bytes. The value is a union in the source, of
-- which each operation uses the fields that go with the type of the identifier.
pub record MqttProperty : Type 0 where
  pub identifier : ℕ
  pub byte_value : ℕ
  pub integer2 : ℕ
  pub integer4 : ℕ
  pub string_data : List ℕ
  pub string_value : List ℕ

-- `MQTTProperties`. The array is `none` for NULL; `count` is the number of its entries in use.
pub record MqttProperties : Type 0 where
  pub max_count : ℕ
  pub length : ℕ
  pub array : Option (List MqttProperty)

-- The first `count` entries of the array.
abbrev pub entries_of : Option (List MqttProperty) → List MqttProperty
entries_of none = []
entries_of (some entries) = entries

-- MQTTProperties_initializer
abbrev pub initializer : MqttProperties
initializer = record { max_count = 0; length = 0; array = none }

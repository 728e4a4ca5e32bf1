-- ===== src/Site/Index/Functions2.antt =====
-- docs/MQTTAsync/html/search: functions_0.js.
use paho_mqtt_c.Common.{List, [], ◌∷◌}
use paho_mqtt_c.Site.Index.{Entry, link, entry}

abbrev pub functions_0_part2 : List Entry
functions_0_part2 =
    entry "mqttproperties_5fhasproperty_417" "MQTTProperties_hasProperty" (
      link "../_m_q_t_t_properties_8h.html#a4ccdf6a712c3d803a16a4d3f00f9be2f" 1 "MQTTProperties.h"
      ∷ [])
    ∷ entry "mqttproperties_5flen_418" "MQTTProperties_len" (
        link "../_m_q_t_t_properties_8h.html#ab7ad6f14e2dc7576d35827a28b0dc81d" 1 "MQTTProperties.h"
        ∷ [])
    ∷ entry "mqttproperties_5fpropertycount_419" "MQTTProperties_propertyCount" (
        link "../_m_q_t_t_properties_8h.html#a6f0d8b230c2e7008c7639cfce1c04429" 1 "MQTTProperties.h"
        ∷ [])
    ∷ entry "mqttproperties_5fread_420" "MQTTProperties_read" (
        link "../_m_q_t_t_properties_8h.html#afcb874dfcc9f0eaa0b063e2fad740871" 1 "MQTTProperties.h"
        ∷ [])
    ∷ entry "mqttproperties_5fwrite_421" "MQTTProperties_write" (
        link "../_m_q_t_t_properties_8h.html#ade0027a4e571bd288fe40271ff7aa497" 1 "MQTTProperties.h"
        ∷ [])
    ∷ entry "mqttproperty_5fgettype_422" "MQTTProperty_getType" (
        link "../_m_q_t_t_properties_8h.html#a7d30ad0520bc9b9366e700d4b493b173" 1 "MQTTProperties.h"
        ∷ [])
    ∷ entry "mqttpropertyname_423" "MQTTPropertyName" (
        link "../_m_q_t_t_properties_8h.html#afa0a7306d7b6174c5bc417ca49d99851" 1 "MQTTProperties.h"
        ∷ [])
    ∷ entry "mqttreasoncode_5ftostring_424" "MQTTReasonCode_toString" (
        link "../_m_q_t_t_reason_codes_8h.html#a91922a5e3c1e5ec7670b6e296854f1b7" 1
          "MQTTReasonCodes.h"
        ∷ [])
    ∷ []

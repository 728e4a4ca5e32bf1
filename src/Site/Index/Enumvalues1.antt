-- ===== src/Site/Index/Enumvalues1.antt =====
-- docs/MQTTAsync/html/search: enumvalues_0.js.
use paho_mqtt_c.Common.{List, [], ◌∷◌}
use paho_mqtt_c.Site.Index.{Entry, link, entry}

abbrev pub enumvalues_0_part1 : List Entry
enumvalues_0_part1 =
    entry "mqttasync_5ftrace_5ferror_559" "MQTTASYNC_TRACE_ERROR" (
      link
        "../_m_q_t_t_async_8h.html#a5de816f986b318947709a34e0787eda5ac428f74ca453dacb7b8271ca741266e8"
        1 "MQTTAsync.h"
      ∷ [])
    ∷ entry "mqttasync_5ftrace_5ffatal_560" "MQTTASYNC_TRACE_FATAL" (
        link
          "../_m_q_t_t_async_8h.html#a5de816f986b318947709a34e0787eda5a0b91d2213ebb6655e41a7f6ce1a42295"
          1 "MQTTAsync.h"
        ∷ [])
    ∷ entry "mqttasync_5ftrace_5fmaximum_561" "MQTTASYNC_TRACE_MAXIMUM" (
        link
          "../_m_q_t_t_async_8h.html#a5de816f986b318947709a34e0787eda5af684f42971cced68693ce993703548c1"
          1 "MQTTAsync.h"
        ∷ [])
    ∷ entry "mqttasync_5ftrace_5fmedium_562" "MQTTASYNC_TRACE_MEDIUM" (
        link
          "../_m_q_t_t_async_8h.html#a5de816f986b318947709a34e0787eda5a133c380b84d75477ff31a2ad732133ce"
          1 "MQTTAsync.h"
        ∷ [])
    ∷ entry "mqttasync_5ftrace_5fminimum_563" "MQTTASYNC_TRACE_MINIMUM" (
        link
          "../_m_q_t_t_async_8h.html#a5de816f986b318947709a34e0787eda5a7a45c26816b1cac1fde02d79a9f4337b"
          1 "MQTTAsync.h"
        ∷ [])
    ∷ entry "mqttasync_5ftrace_5fprotocol_564" "MQTTASYNC_TRACE_PROTOCOL" (
        link
          "../_m_q_t_t_async_8h.html#a5de816f986b318947709a34e0787eda5a6a719b2b7fc4dfc41494370ff96fec3e"
          1 "MQTTAsync.h"
        ∷ [])
    ∷ entry "mqttasync_5ftrace_5fsevere_565" "MQTTASYNC_TRACE_SEVERE" (
        link
          "../_m_q_t_t_async_8h.html#a5de816f986b318947709a34e0787eda5a3084770185f384398cefe4aaba533d40"
          1 "MQTTAsync.h"
        ∷ [])
    ∷ entry "mqttproperty_5fcode_5fassigned_5fclient_5fidentifer_566"
        "MQTTPROPERTY_CODE_ASSIGNED_CLIENT_IDENTIFER"
        (link
            "../_m_q_t_t_properties_8h.html#af623c1b670dfe3fda633c068e054d8b4a768d84858fd18d5d5a7dee394929c672"
            1 "MQTTProperties.h"
          ∷ [])
    ∷ entry "mqttproperty_5fcode_5fauthentication_5fdata_567"
        "MQTTPROPERTY_CODE_AUTHENTICATION_DATA"
        (link
            "../_m_q_t_t_properties_8h.html#af623c1b670dfe3fda633c068e054d8b4abdf9feec165aceefbe7aa46764f6ab6e"
            1 "MQTTProperties.h"
          ∷ [])
    ∷ entry "mqttproperty_5fcode_5fauthentication_5fmethod_568"
        "MQTTPROPERTY_CODE_AUTHENTICATION_METHOD"
        (link
            "../_m_q_t_t_properties_8h.html#af623c1b670dfe3fda633c068e054d8b4a7c53f1e414b577d787b5d51af3204100"
            1 "MQTTProperties.h"
          ∷ [])
    ∷ entry "mqttproperty_5fcode_5fcontent_5ftype_569" "MQTTPROPERTY_CODE_CONTENT_TYPE" (
        link
          "../_m_q_t_t_properties_8h.html#af623c1b670dfe3fda633c068e054d8b4a4027d9e0fb53a62ae35963e700b56198"
          1 "MQTTProperties.h"
        ∷ [])
    ∷ entry "mqttproperty_5fcode_5fcorrelation_5fdata_570" "MQTTPROPERTY_CODE_CORRELATION_DATA" (
        link
          "../_m_q_t_t_properties_8h.html#af623c1b670dfe3fda633c068e054d8b4a887d3dd3f0ce31255324f5a1ba8b72c5"
          1 "MQTTProperties.h"
        ∷ [])
    ∷ entry "mqttproperty_5fcode_5fmaximum_5fpacket_5fsize_571"
        "MQTTPROPERTY_CODE_MAXIMUM_PACKET_SIZE"
        (link
            "../_m_q_t_t_properties_8h.html#af623c1b670dfe3fda633c068e054d8b4a6834ea9878f028d5fbdeccaaeae492e5"
            1 "MQTTProperties.h"
          ∷ [])
    ∷ entry "mqttproperty_5fcode_5fmaximum_5fqos_572" "MQTTPROPERTY_CODE_MAXIMUM_QOS" (
        link
          "../_m_q_t_t_properties_8h.html#af623c1b670dfe3fda633c068e054d8b4a506faeb89c407cf78853c777d750fa59"
          1 "MQTTProperties.h"
        ∷ [])
    ∷ entry "mqttproperty_5fcode_5fmessage_5fexpiry_5finterval_573"
        "MQTTPROPERTY_CODE_MESSAGE_EXPIRY_INTERVAL"
        (link
            "../_m_q_t_t_properties_8h.html#af623c1b670dfe3fda633c068e054d8b4a284c0e62d47ee8d358b16a8075632b4a"
            1 "MQTTProperties.h"
          ∷ [])
    ∷ entry "mqttproperty_5fcode_5fpayload_5fformat_5findicator_574"
        "MQTTPROPERTY_CODE_PAYLOAD_FORMAT_INDICATOR"
        (link
            "../_m_q_t_t_properties_8h.html#af623c1b670dfe3fda633c068e054d8b4ae5d077520427d03b44096f631411575d"
            1 "MQTTProperties.h"
          ∷ [])
    ∷ entry "mqttproperty_5fcode_5freason_5fstring_575" "MQTTPROPERTY_CODE_REASON_STRING" (
        link
          "../_m_q_t_t_properties_8h.html#af623c1b670dfe3fda633c068e054d8b4a3dce8f679474e901ce4aec076e9e59e1"
          1 "MQTTProperties.h"
        ∷ [])
    ∷ entry "mqttproperty_5fcode_5freceive_5fmaximum_576" "MQTTPROPERTY_CODE_RECEIVE_MAXIMUM" (
        link
          "../_m_q_t_t_properties_8h.html#af623c1b670dfe3fda633c068e054d8b4ab2688fe8d7d263c27c00d41776cb8f9f"
          1 "MQTTProperties.h"
        ∷ [])
    ∷ entry "mqttproperty_5fcode_5frequest_5fproblem_5finformation_577"
        "MQTTPROPERTY_CODE_REQUEST_PROBLEM_INFORMATION"
        (link
            "../_m_q_t_t_properties_8h.html#af623c1b670dfe3fda633c068e054d8b4a3954daf1d5772b5d56eefa1ab6a28aa1"
            1 "MQTTProperties.h"
          ∷ [])
    ∷ entry "mqttproperty_5fcode_5frequest_5fresponse_5finformation_578"
        "MQTTPROPERTY_CODE_REQUEST_RESPONSE_INFORMATION"
        (link
            "../_m_q_t_t_properties_8h.html#af623c1b670dfe3fda633c068e054d8b4a420b882a337dc1fd5f336ac6cd0529bf"
            1 "MQTTProperties.h"
          ∷ [])
    ∷ entry "mqttproperty_5fcode_5fresponse_5finformation_579"
        "MQTTPROPERTY_CODE_RESPONSE_INFORMATION"
        (link
            "../_m_q_t_t_properties_8h.html#af623c1b670dfe3fda633c068e054d8b4a2584b050f016af496c7f0b46692dbc00"
            1 "MQTTProperties.h"
          ∷ [])
    ∷ entry "mqttproperty_5fcode_5fresponse_5ftopic_580" "MQTTPROPERTY_CODE_RESPONSE_TOPIC" (
        link
          "../_m_q_t_t_properties_8h.html#af623c1b670dfe3fda633c068e054d8b4a7fa9996eef721d318504fbb0a8d4bac5"
          1 "MQTTProperties.h"
        ∷ [])
    ∷ entry "mqttproperty_5fcode_5fretain_5favailable_581" "MQTTPROPERTY_CODE_RETAIN_AVAILABLE" (
        link
          "../_m_q_t_t_properties_8h.html#af623c1b670dfe3fda633c068e054d8b4a448b3a40afaa5f7195701e7dc8bed30c"
          1 "MQTTProperties.h"
        ∷ [])
    ∷ entry "mqttproperty_5fcode_5fserver_5fkeep_5falive_582" "MQTTPROPERTY_CODE_SERVER_KEEP_ALIVE"
        (link
            "../_m_q_t_t_properties_8h.html#af623c1b670dfe3fda633c068e054d8b4ab106f320e7537b79644f25d3efcd68c7"
            1 "MQTTProperties.h"
          ∷ [])
    ∷ entry "mqttproperty_5fcode_5fserver_5freference_583" "MQTTPROPERTY_CODE_SERVER_REFERENCE" (
        link
          "../_m_q_t_t_properties_8h.html#af623c1b670dfe3fda633c068e054d8b4a0168e8a59f7994c02b7a7fd2fc3735c4"
          1 "MQTTProperties.h"
        ∷ [])
    ∷ entry "mqttproperty_5fcode_5fsession_5fexpiry_5finterval_584"
        "MQTTPROPERTY_CODE_SESSION_EXPIRY_INTERVAL"
        (link
            "../_m_q_t_t_properties_8h.html#af623c1b670dfe3fda633c068e054d8b4a22e4caa63f63ca3f9b1c1330711ee766"
            1 "MQTTProperties.h"
          ∷ [])
    ∷ entry "mqttproperty_5fcode_5fshared_5fsubscription_5favailable_585"
        "MQTTPROPERTY_CODE_SHARED_SUBSCRIPTION_AVAILABLE"
        (link
            "../_m_q_t_t_properties_8h.html#af623c1b670dfe3fda633c068e054d8b4ae04a7356f9e11654f15a3b21f2aae636"
            1 "MQTTProperties.h"
          ∷ [])
    ∷ entry "mqttproperty_5fcode_5fsubscription_5fidentifier_586"
        "MQTTPROPERTY_CODE_SUBSCRIPTION_IDENTIFIER"
        (link
            "../_m_q_t_t_properties_8h.html#af623c1b670dfe3fda633c068e054d8b4a70ead9c93f06396a4d9469b65bff0c96"
            1 "MQTTProperties.h"
          ∷ [])
    ∷ entry "mqttproperty_5fcode_5fsubscription_5fidentifiers_5favailable_587"
        "MQTTPROPERTY_CODE_SUBSCRIPTION_IDENTIFIERS_AVAILABLE"
        (link
            "../_m_q_t_t_properties_8h.html#af623c1b670dfe3fda633c068e054d8b4a8b366cfd8bd3f388bafb67f3ebf83505"
            1 "MQTTProperties.h"
          ∷ [])
    ∷ entry "mqttproperty_5fcode_5ftopic_5falias_588" "MQTTPROPERTY_CODE_TOPIC_ALIAS" (
        link
          "../_m_q_t_t_properties_8h.html#af623c1b670dfe3fda633c068e054d8b4ad4dfb37d341ea190afc144668e5e3bee"
          1 "MQTTProperties.h"
        ∷ [])
    ∷ entry "mqttproperty_5fcode_5ftopic_5falias_5fmaximum_589"
        "MQTTPROPERTY_CODE_TOPIC_ALIAS_MAXIMUM"
        (link
            "../_m_q_t_t_properties_8h.html#af623c1b670dfe3fda633c068e054d8b4a0a0b0b0715ecc9ccf471c75aa4c21c23"
            1 "MQTTProperties.h"
          ∷ [])
    ∷ entry "mqttproperty_5fcode_5fuser_5fproperty_590" "MQTTPROPERTY_CODE_USER_PROPERTY" (
        link
          "../_m_q_t_t_properties_8h.html#af623c1b670dfe3fda633c068e054d8b4a596ff540370235d3eca693ce30dd4af8"
          1 "MQTTProperties.h"
        ∷ [])
    ∷ entry "mqttproperty_5fcode_5fwildcard_5fsubscription_5favailable_591"
        "MQTTPROPERTY_CODE_WILDCARD_SUBSCRIPTION_AVAILABLE"
        (link
            "../_m_q_t_t_properties_8h.html#af623c1b670dfe3fda633c068e054d8b4ad05993f90baaee0ba7094ccef4d378b9"
            1 "MQTTProperties.h"
          ∷ [])
    ∷ entry "mqttproperty_5fcode_5fwill_5fdelay_5finterval_592"
        "MQTTPROPERTY_CODE_WILL_DELAY_INTERVAL"
        (link
            "../_m_q_t_t_properties_8h.html#af623c1b670dfe3fda633c068e054d8b4a53fd81bc554f152a2772d282be7ce5ef"
            1 "MQTTProperties.h"
          ∷ [])
    ∷ entry "mqttproperty_5ftype_5fbinary_5fdata_593" "MQTTPROPERTY_TYPE_BINARY_DATA" (
        link
          "../_m_q_t_t_properties_8h.html#a942f52ef7c232829f6df5c86e07cc958a6643aed682b9b07f98159856776fe7b4"
          1 "MQTTProperties.h"
        ∷ [])
    ∷ entry "mqttproperty_5ftype_5fbyte_594" "MQTTPROPERTY_TYPE_BYTE" (
        link
          "../_m_q_t_t_properties_8h.html#a942f52ef7c232829f6df5c86e07cc958ac36f96ce58c98a8ebbe0783df030726a"
          1 "MQTTProperties.h"
        ∷ [])
    ∷ entry "mqttproperty_5ftype_5ffour_5fbyte_5finteger_595" "MQTTPROPERTY_TYPE_FOUR_BYTE_INTEGER"
        (link
            "../_m_q_t_t_properties_8h.html#a942f52ef7c232829f6df5c86e07cc958aa49c558733bd735ae872fd87ad0d7e15"
            1 "MQTTProperties.h"
          ∷ [])
    ∷ entry "mqttproperty_5ftype_5ftwo_5fbyte_5finteger_596" "MQTTPROPERTY_TYPE_TWO_BYTE_INTEGER" (
        link
          "../_m_q_t_t_properties_8h.html#a942f52ef7c232829f6df5c86e07cc958ae301a9e68326cc2d8bfefeca401e78e6"
          1 "MQTTProperties.h"
        ∷ [])
    ∷ entry "mqttproperty_5ftype_5futf_5f8_5fencoded_5fstring_597"
        "MQTTPROPERTY_TYPE_UTF_8_ENCODED_STRING"
        (link
            "../_m_q_t_t_properties_8h.html#a942f52ef7c232829f6df5c86e07cc958ad45c866a5bef6c5048a7af21405734d1"
            1 "MQTTProperties.h"
          ∷ [])
    ∷ entry "mqttproperty_5ftype_5futf_5f8_5fstring_5fpair_598"
        "MQTTPROPERTY_TYPE_UTF_8_STRING_PAIR"
        (link
            "../_m_q_t_t_properties_8h.html#a942f52ef7c232829f6df5c86e07cc958a28ab5fe5b159f3b3a8884b0f61527214"
            1 "MQTTProperties.h"
          ∷ [])
    ∷ []

-- ===== src/Site/Index/All6.antt =====
-- docs/MQTTAsync/html/search: all_9.js.
use paho_mqtt_c.Common.{List, [], ◌∷◌}
use paho_mqtt_c.Site.Index.{Entry, link, entry}

abbrev pub all_9_part5 : List Entry
all_9_part5 =
    entry "mqttproperty_5fcode_5fretain_5favailable_196" "MQTTPROPERTY_CODE_RETAIN_AVAILABLE" (
      link
        "../_m_q_t_t_properties_8h.html#af623c1b670dfe3fda633c068e054d8b4a448b3a40afaa5f7195701e7dc8bed30c"
        1 "MQTTProperties.h"
      ∷ [])
    ∷ entry "mqttproperty_5fcode_5fserver_5fkeep_5falive_197" "MQTTPROPERTY_CODE_SERVER_KEEP_ALIVE"
        (link
            "../_m_q_t_t_properties_8h.html#af623c1b670dfe3fda633c068e054d8b4ab106f320e7537b79644f25d3efcd68c7"
            1 "MQTTProperties.h"
          ∷ [])
    ∷ entry "mqttproperty_5fcode_5fserver_5freference_198" "MQTTPROPERTY_CODE_SERVER_REFERENCE" (
        link
          "../_m_q_t_t_properties_8h.html#af623c1b670dfe3fda633c068e054d8b4a0168e8a59f7994c02b7a7fd2fc3735c4"
          1 "MQTTProperties.h"
        ∷ [])
    ∷ entry "mqttproperty_5fcode_5fsession_5fexpiry_5finterval_199"
        "MQTTPROPERTY_CODE_SESSION_EXPIRY_INTERVAL"
        (link
            "../_m_q_t_t_properties_8h.html#af623c1b670dfe3fda633c068e054d8b4a22e4caa63f63ca3f9b1c1330711ee766"
            1 "MQTTProperties.h"
          ∷ [])
    ∷ entry "mqttproperty_5fcode_5fshared_5fsubscription_5favailable_200"
        "MQTTPROPERTY_CODE_SHARED_SUBSCRIPTION_AVAILABLE"
        (link
            "../_m_q_t_t_properties_8h.html#af623c1b670dfe3fda633c068e054d8b4ae04a7356f9e11654f15a3b21f2aae636"
            1 "MQTTProperties.h"
          ∷ [])
    ∷ entry "mqttproperty_5fcode_5fsubscription_5fidentifier_201"
        "MQTTPROPERTY_CODE_SUBSCRIPTION_IDENTIFIER"
        (link
            "../_m_q_t_t_properties_8h.html#af623c1b670dfe3fda633c068e054d8b4a70ead9c93f06396a4d9469b65bff0c96"
            1 "MQTTProperties.h"
          ∷ [])
    ∷ entry "mqttproperty_5fcode_5fsubscription_5fidentifiers_5favailable_202"
        "MQTTPROPERTY_CODE_SUBSCRIPTION_IDENTIFIERS_AVAILABLE"
        (link
            "../_m_q_t_t_properties_8h.html#af623c1b670dfe3fda633c068e054d8b4a8b366cfd8bd3f388bafb67f3ebf83505"
            1 "MQTTProperties.h"
          ∷ [])
    ∷ entry "mqttproperty_5fcode_5ftopic_5falias_203" "MQTTPROPERTY_CODE_TOPIC_ALIAS" (
        link
          "../_m_q_t_t_properties_8h.html#af623c1b670dfe3fda633c068e054d8b4ad4dfb37d341ea190afc144668e5e3bee"
          1 "MQTTProperties.h"
        ∷ [])
    ∷ entry "mqttproperty_5fcode_5ftopic_5falias_5fmaximum_204"
        "MQTTPROPERTY_CODE_TOPIC_ALIAS_MAXIMUM"
        (link
            "../_m_q_t_t_properties_8h.html#af623c1b670dfe3fda633c068e054d8b4a0a0b0b0715ecc9ccf471c75aa4c21c23"
            1 "MQTTProperties.h"
          ∷ [])
    ∷ entry "mqttproperty_5fcode_5fuser_5fproperty_205" "MQTTPROPERTY_CODE_USER_PROPERTY" (
        link
          "../_m_q_t_t_properties_8h.html#af623c1b670dfe3fda633c068e054d8b4a596ff540370235d3eca693ce30dd4af8"
          1 "MQTTProperties.h"
        ∷ [])
    ∷ entry "mqttproperty_5fcode_5fwildcard_5fsubscription_5favailable_206"
        "MQTTPROPERTY_CODE_WILDCARD_SUBSCRIPTION_AVAILABLE"
        (link
            "../_m_q_t_t_properties_8h.html#af623c1b670dfe3fda633c068e054d8b4ad05993f90baaee0ba7094ccef4d378b9"
            1 "MQTTProperties.h"
          ∷ [])
    ∷ entry "mqttproperty_5fcode_5fwill_5fdelay_5finterval_207"
        "MQTTPROPERTY_CODE_WILL_DELAY_INTERVAL"
        (link
            "../_m_q_t_t_properties_8h.html#af623c1b670dfe3fda633c068e054d8b4a53fd81bc554f152a2772d282be7ce5ef"
            1 "MQTTProperties.h"
          ∷ [])
    ∷ entry "mqttproperty_5fgettype_208" "MQTTProperty_getType" (
        link "../_m_q_t_t_properties_8h.html#a7d30ad0520bc9b9366e700d4b493b173" 1 "MQTTProperties.h"
        ∷ [])
    ∷ entry "mqttproperty_5ftype_5fbinary_5fdata_209" "MQTTPROPERTY_TYPE_BINARY_DATA" (
        link
          "../_m_q_t_t_properties_8h.html#a942f52ef7c232829f6df5c86e07cc958a6643aed682b9b07f98159856776fe7b4"
          1 "MQTTProperties.h"
        ∷ [])
    ∷ entry "mqttproperty_5ftype_5fbyte_210" "MQTTPROPERTY_TYPE_BYTE" (
        link
          "../_m_q_t_t_properties_8h.html#a942f52ef7c232829f6df5c86e07cc958ac36f96ce58c98a8ebbe0783df030726a"
          1 "MQTTProperties.h"
        ∷ [])
    ∷ entry "mqttproperty_5ftype_5ffour_5fbyte_5finteger_211" "MQTTPROPERTY_TYPE_FOUR_BYTE_INTEGER"
        (link
            "../_m_q_t_t_properties_8h.html#a942f52ef7c232829f6df5c86e07cc958aa49c558733bd735ae872fd87ad0d7e15"
            1 "MQTTProperties.h"
          ∷ [])
    ∷ entry "mqttproperty_5ftype_5ftwo_5fbyte_5finteger_212" "MQTTPROPERTY_TYPE_TWO_BYTE_INTEGER" (
        link
          "../_m_q_t_t_properties_8h.html#a942f52ef7c232829f6df5c86e07cc958ae301a9e68326cc2d8bfefeca401e78e6"
          1 "MQTTProperties.h"
        ∷ [])
    ∷ entry "mqttproperty_5ftype_5futf_5f8_5fencoded_5fstring_213"
        "MQTTPROPERTY_TYPE_UTF_8_ENCODED_STRING"
        (link
            "../_m_q_t_t_properties_8h.html#a942f52ef7c232829f6df5c86e07cc958ad45c866a5bef6c5048a7af21405734d1"
            1 "MQTTProperties.h"
          ∷ [])
    ∷ entry "mqttproperty_5ftype_5futf_5f8_5fstring_5fpair_214"
        "MQTTPROPERTY_TYPE_UTF_8_STRING_PAIR"
        (link
            "../_m_q_t_t_properties_8h.html#a942f52ef7c232829f6df5c86e07cc958a28ab5fe5b159f3b3a8884b0f61527214"
            1 "MQTTProperties.h"
          ∷ [])
    ∷ entry "mqttproperty_5ftype_5fvariable_5fbyte_5finteger_215"
        "MQTTPROPERTY_TYPE_VARIABLE_BYTE_INTEGER"
        (link
            "../_m_q_t_t_properties_8h.html#a942f52ef7c232829f6df5c86e07cc958a27bbcb5bc4f584f96612c0cec329c6a7"
            1 "MQTTProperties.h"
          ∷ [])
    ∷ entry "mqttpropertycodes_216" "MQTTPropertyCodes" (
        link "../_m_q_t_t_properties_8h.html#af623c1b670dfe3fda633c068e054d8b4" 1 "MQTTProperties.h"
        ∷ [])
    ∷ entry "mqttpropertyname_217" "MQTTPropertyName" (
        link "../_m_q_t_t_properties_8h.html#afa0a7306d7b6174c5bc417ca49d99851" 1 "MQTTProperties.h"
        ∷ [])
    ∷ entry "mqttpropertytypes_218" "MQTTPropertyTypes" (
        link "../_m_q_t_t_properties_8h.html#a942f52ef7c232829f6df5c86e07cc958" 1 "MQTTProperties.h"
        ∷ [])
    ∷ entry "mqttreasoncode_5fadministrative_5faction_219" "MQTTREASONCODE_ADMINISTRATIVE_ACTION" (
        link
          "../_m_q_t_t_reason_codes_8h.html#aba6db0fccfa3f8972ea48117b8b2a279ae1e3b428072be26d2cbf6f88361f76cc"
          1 "MQTTReasonCodes.h"
        ∷ [])
    ∷ entry "mqttreasoncode_5fbad_5fauthentication_5fmethod_220"
        "MQTTREASONCODE_BAD_AUTHENTICATION_METHOD"
        (link
            "../_m_q_t_t_reason_codes_8h.html#aba6db0fccfa3f8972ea48117b8b2a279af62e569703d7a7f0acffaa59522b9dc3"
            1 "MQTTReasonCodes.h"
          ∷ [])
    ∷ entry "mqttreasoncode_5fbad_5fuser_5fname_5for_5fpassword_221"
        "MQTTREASONCODE_BAD_USER_NAME_OR_PASSWORD"
        (link
            "../_m_q_t_t_reason_codes_8h.html#aba6db0fccfa3f8972ea48117b8b2a279abfc617112d5856722108912c5c6633ff"
            1 "MQTTReasonCodes.h"
          ∷ [])
    ∷ entry "mqttreasoncode_5fbanned_222" "MQTTREASONCODE_BANNED" (
        link
          "../_m_q_t_t_reason_codes_8h.html#aba6db0fccfa3f8972ea48117b8b2a279ab4cf7578f0078293fa66a4cd5e5d4aa4"
          1 "MQTTReasonCodes.h"
        ∷ [])
    ∷ entry "mqttreasoncode_5fclient_5fidentifier_5fnot_5fvalid_223"
        "MQTTREASONCODE_CLIENT_IDENTIFIER_NOT_VALID"
        (link
            "../_m_q_t_t_reason_codes_8h.html#aba6db0fccfa3f8972ea48117b8b2a279ab58bb236e7dbd000a56c590c01bc73fd"
            1 "MQTTReasonCodes.h"
          ∷ [])
    ∷ entry "mqttreasoncode_5fconnection_5frate_5fexceeded_224"
        "MQTTREASONCODE_CONNECTION_RATE_EXCEEDED"
        (link
            "../_m_q_t_t_reason_codes_8h.html#aba6db0fccfa3f8972ea48117b8b2a279a879c56ed34fa2dd6492e7a34a9747bc1"
            1 "MQTTReasonCodes.h"
          ∷ [])
    ∷ entry "mqttreasoncode_5fcontinue_5fauthentication_225"
        "MQTTREASONCODE_CONTINUE_AUTHENTICATION"
        (link
            "../_m_q_t_t_reason_codes_8h.html#aba6db0fccfa3f8972ea48117b8b2a279a0c0726c0e87eaddd636708497c69d055"
            1 "MQTTReasonCodes.h"
          ∷ [])
    ∷ entry "mqttreasoncode_5fdisconnect_5fwith_5fwill_5fmessage_226"
        "MQTTREASONCODE_DISCONNECT_WITH_WILL_MESSAGE"
        (link
            "../_m_q_t_t_reason_codes_8h.html#aba6db0fccfa3f8972ea48117b8b2a279a55f533a6cc98417d08dac8cc69da0ed3"
            1 "MQTTReasonCodes.h"
          ∷ [])
    ∷ entry "mqttreasoncode_5fgranted_5fqos_5f0_227" "MQTTREASONCODE_GRANTED_QOS_0" (
        link
          "../_m_q_t_t_reason_codes_8h.html#aba6db0fccfa3f8972ea48117b8b2a279a3fd0d12c0e44b4df9f716aef89b61aff"
          1 "MQTTReasonCodes.h"
        ∷ [])
    ∷ entry "mqttreasoncode_5fgranted_5fqos_5f1_228" "MQTTREASONCODE_GRANTED_QOS_1" (
        link
          "../_m_q_t_t_reason_codes_8h.html#aba6db0fccfa3f8972ea48117b8b2a279a07578b30b2d72af2eeea6be268475876"
          1 "MQTTReasonCodes.h"
        ∷ [])
    ∷ entry "mqttreasoncode_5fgranted_5fqos_5f2_229" "MQTTREASONCODE_GRANTED_QOS_2" (
        link
          "../_m_q_t_t_reason_codes_8h.html#aba6db0fccfa3f8972ea48117b8b2a279a74ac34a39a849c9c369b18545a4b1f93"
          1 "MQTTReasonCodes.h"
        ∷ [])
    ∷ entry "mqttreasoncode_5fimplementation_5fspecific_5ferror_230"
        "MQTTREASONCODE_IMPLEMENTATION_SPECIFIC_ERROR"
        (link
            "../_m_q_t_t_reason_codes_8h.html#aba6db0fccfa3f8972ea48117b8b2a279a41629fa453cdf14ef6a5370a16d5a19c"
            1 "MQTTReasonCodes.h"
          ∷ [])
    ∷ entry "mqttreasoncode_5fkeep_5falive_5ftimeout_231" "MQTTREASONCODE_KEEP_ALIVE_TIMEOUT" (
        link
          "../_m_q_t_t_reason_codes_8h.html#aba6db0fccfa3f8972ea48117b8b2a279af21a6c320e34993d7aa169330ab23409"
          1 "MQTTReasonCodes.h"
        ∷ [])
    ∷ entry "mqttreasoncode_5fmalformed_5fpacket_232" "MQTTREASONCODE_MALFORMED_PACKET" (
        link
          "../_m_q_t_t_reason_codes_8h.html#aba6db0fccfa3f8972ea48117b8b2a279a2cbee3502c00d304bf1091195457fcf5"
          1 "MQTTReasonCodes.h"
        ∷ [])
    ∷ entry "mqttreasoncode_5fmaximum_5fconnect_5ftime_233" "MQTTREASONCODE_MAXIMUM_CONNECT_TIME" (
        link
          "../_m_q_t_t_reason_codes_8h.html#aba6db0fccfa3f8972ea48117b8b2a279a6f07c3b42690afc7b117321dc4e2657f"
          1 "MQTTReasonCodes.h"
        ∷ [])
    ∷ entry "mqttreasoncode_5fmessage_5frate_5ftoo_5fhigh_234"
        "MQTTREASONCODE_MESSAGE_RATE_TOO_HIGH"
        (link
            "../_m_q_t_t_reason_codes_8h.html#aba6db0fccfa3f8972ea48117b8b2a279af76d0e32fb44fa94e407b1af5dc7aa4e"
            1 "MQTTReasonCodes.h"
          ∷ [])
    ∷ entry "mqttreasoncode_5fno_5fmatching_5fsubscribers_235"
        "MQTTREASONCODE_NO_MATCHING_SUBSCRIBERS"
        (link
            "../_m_q_t_t_reason_codes_8h.html#aba6db0fccfa3f8972ea48117b8b2a279a1720d8b04af4c0d92e27b378d735e899"
            1 "MQTTReasonCodes.h"
          ∷ [])
    ∷ []

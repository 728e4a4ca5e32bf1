-- ===== src/Site/Index/Enumvalues2.antt =====
-- docs/MQTTAsync/html/search: enumvalues_0.js.
use paho_mqtt_c.Common.{List, [], ◌∷◌}
use paho_mqtt_c.Site.Index.{Entry, link, entry}

abbrev pub enumvalues_0_part2 : List Entry
enumvalues_0_part2 =
    entry "mqttproperty_5ftype_5fvariable_5fbyte_5finteger_599"
      "MQTTPROPERTY_TYPE_VARIABLE_BYTE_INTEGER"
      (link
          "../_m_q_t_t_properties_8h.html#a942f52ef7c232829f6df5c86e07cc958a27bbcb5bc4f584f96612c0cec329c6a7"
          1 "MQTTProperties.h"
        ∷ [])
    ∷ entry "mqttreasoncode_5fadministrative_5faction_600" "MQTTREASONCODE_ADMINISTRATIVE_ACTION" (
        link
          "../_m_q_t_t_reason_codes_8h.html#aba6db0fccfa3f8972ea48117b8b2a279ae1e3b428072be26d2cbf6f88361f76cc"
          1 "MQTTReasonCodes.h"
        ∷ [])
    ∷ entry "mqttreasoncode_5fbad_5fauthentication_5fmethod_601"
        "MQTTREASONCODE_BAD_AUTHENTICATION_METHOD"
        (link
            "../_m_q_t_t_reason_codes_8h.html#aba6db0fccfa3f8972ea48117b8b2a279af62e569703d7a7f0acffaa59522b9dc3"
            1 "MQTTReasonCodes.h"
          ∷ [])
    ∷ entry "mqttreasoncode_5fbad_5fuser_5fname_5for_5fpassword_602"
        "MQTTREASONCODE_BAD_USER_NAME_OR_PASSWORD"
        (link
            "../_m_q_t_t_reason_codes_8h.html#aba6db0fccfa3f8972ea48117b8b2a279abfc617112d5856722108912c5c6633ff"
            1 "MQTTReasonCodes.h"
          ∷ [])
    ∷ entry "mqttreasoncode_5fbanned_603" "MQTTREASONCODE_BANNED" (
        link
          "../_m_q_t_t_reason_codes_8h.html#aba6db0fccfa3f8972ea48117b8b2a279ab4cf7578f0078293fa66a4cd5e5d4aa4"
          1 "MQTTReasonCodes.h"
        ∷ [])
    ∷ entry "mqttreasoncode_5fclient_5fidentifier_5fnot_5fvalid_604"
        "MQTTREASONCODE_CLIENT_IDENTIFIER_NOT_VALID"
        (link
            "../_m_q_t_t_reason_codes_8h.html#aba6db0fccfa3f8972ea48117b8b2a279ab58bb236e7dbd000a56c590c01bc73fd"
            1 "MQTTReasonCodes.h"
          ∷ [])
    ∷ entry "mqttreasoncode_5fconnection_5frate_5fexceeded_605"
        "MQTTREASONCODE_CONNECTION_RATE_EXCEEDED"
        (link
            "../_m_q_t_t_reason_codes_8h.html#aba6db0fccfa3f8972ea48117b8b2a279a879c56ed34fa2dd6492e7a34a9747bc1"
            1 "MQTTReasonCodes.h"
          ∷ [])
    ∷ entry "mqttreasoncode_5fcontinue_5fauthentication_606"
        "MQTTREASONCODE_CONTINUE_AUTHENTICATION"
        (link
            "../_m_q_t_t_reason_codes_8h.html#aba6db0fccfa3f8972ea48117b8b2a279a0c0726c0e87eaddd636708497c69d055"
            1 "MQTTReasonCodes.h"
          ∷ [])
    ∷ entry "mqttreasoncode_5fdisconnect_5fwith_5fwill_5fmessage_607"
        "MQTTREASONCODE_DISCONNECT_WITH_WILL_MESSAGE"
        (link
            "../_m_q_t_t_reason_codes_8h.html#aba6db0fccfa3f8972ea48117b8b2a279a55f533a6cc98417d08dac8cc69da0ed3"
            1 "MQTTReasonCodes.h"
          ∷ [])
    ∷ entry "mqttreasoncode_5fgranted_5fqos_5f0_608" "MQTTREASONCODE_GRANTED_QOS_0" (
        link
          "../_m_q_t_t_reason_codes_8h.html#aba6db0fccfa3f8972ea48117b8b2a279a3fd0d12c0e44b4df9f716aef89b61aff"
          1 "MQTTReasonCodes.h"
        ∷ [])
    ∷ entry "mqttreasoncode_5fgranted_5fqos_5f1_609" "MQTTREASONCODE_GRANTED_QOS_1" (
        link
          "../_m_q_t_t_reason_codes_8h.html#aba6db0fccfa3f8972ea48117b8b2a279a07578b30b2d72af2eeea6be268475876"
          1 "MQTTReasonCodes.h"
        ∷ [])
    ∷ entry "mqttreasoncode_5fgranted_5fqos_5f2_610" "MQTTREASONCODE_GRANTED_QOS_2" (
        link
          "../_m_q_t_t_reason_codes_8h.html#aba6db0fccfa3f8972ea48117b8b2a279a74ac34a39a849c9c369b18545a4b1f93"
          1 "MQTTReasonCodes.h"
        ∷ [])
    ∷ entry "mqttreasoncode_5fimplementation_5fspecific_5ferror_611"
        "MQTTREASONCODE_IMPLEMENTATION_SPECIFIC_ERROR"
        (link
            "../_m_q_t_t_reason_codes_8h.html#aba6db0fccfa3f8972ea48117b8b2a279a41629fa453cdf14ef6a5370a16d5a19c"
            1 "MQTTReasonCodes.h"
          ∷ [])
    ∷ entry "mqttreasoncode_5fkeep_5falive_5ftimeout_612" "MQTTREASONCODE_KEEP_ALIVE_TIMEOUT" (
        link
          "../_m_q_t_t_reason_codes_8h.html#aba6db0fccfa3f8972ea48117b8b2a279af21a6c320e34993d7aa169330ab23409"
          1 "MQTTReasonCodes.h"
        ∷ [])
    ∷ entry "mqttreasoncode_5fmalformed_5fpacket_613" "MQTTREASONCODE_MALFORMED_PACKET" (
        link
          "../_m_q_t_t_reason_codes_8h.html#aba6db0fccfa3f8972ea48117b8b2a279a2cbee3502c00d304bf1091195457fcf5"
          1 "MQTTReasonCodes.h"
        ∷ [])
    ∷ entry "mqttreasoncode_5fmaximum_5fconnect_5ftime_614" "MQTTREASONCODE_MAXIMUM_CONNECT_TIME" (
        link
          "../_m_q_t_t_reason_codes_8h.html#aba6db0fccfa3f8972ea48117b8b2a279a6f07c3b42690afc7b117321dc4e2657f"
          1 "MQTTReasonCodes.h"
        ∷ [])
    ∷ entry "mqttreasoncode_5fmessage_5frate_5ftoo_5fhigh_615"
        "MQTTREASONCODE_MESSAGE_RATE_TOO_HIGH"
        (link
            "../_m_q_t_t_reason_codes_8h.html#aba6db0fccfa3f8972ea48117b8b2a279af76d0e32fb44fa94e407b1af5dc7aa4e"
            1 "MQTTReasonCodes.h"
          ∷ [])
    ∷ entry "mqttreasoncode_5fno_5fmatching_5fsubscribers_616"
        "MQTTREASONCODE_NO_MATCHING_SUBSCRIBERS"
        (link
            "../_m_q_t_t_reason_codes_8h.html#aba6db0fccfa3f8972ea48117b8b2a279a1720d8b04af4c0d92e27b378d735e899"
            1 "MQTTReasonCodes.h"
          ∷ [])
    ∷ entry "mqttreasoncode_5fno_5fsubscription_5ffound_617" "MQTTREASONCODE_NO_SUBSCRIPTION_FOUND"
        (link
            "../_m_q_t_t_reason_codes_8h.html#aba6db0fccfa3f8972ea48117b8b2a279a55208c34a26f67e112d53c54be37acb9"
            1 "MQTTReasonCodes.h"
          ∷ [])
    ∷ entry "mqttreasoncode_5fnormal_5fdisconnection_618" "MQTTREASONCODE_NORMAL_DISCONNECTION" (
        link
          "../_m_q_t_t_reason_codes_8h.html#aba6db0fccfa3f8972ea48117b8b2a279a3590f41d984646bc58c82734c1516c92"
          1 "MQTTReasonCodes.h"
        ∷ [])
    ∷ entry "mqttreasoncode_5fnot_5fauthorized_619" "MQTTREASONCODE_NOT_AUTHORIZED" (
        link
          "../_m_q_t_t_reason_codes_8h.html#aba6db0fccfa3f8972ea48117b8b2a279a91a14fc763349cf4a7047d24f13d0803"
          1 "MQTTReasonCodes.h"
        ∷ [])
    ∷ entry "mqttreasoncode_5fpacket_5fidentifier_5fin_5fuse_620"
        "MQTTREASONCODE_PACKET_IDENTIFIER_IN_USE"
        (link
            "../_m_q_t_t_reason_codes_8h.html#aba6db0fccfa3f8972ea48117b8b2a279adaee01dbc97a0773b5032a29c797613a"
            1 "MQTTReasonCodes.h"
          ∷ [])
    ∷ entry "mqttreasoncode_5fpacket_5fidentifier_5fnot_5ffound_621"
        "MQTTREASONCODE_PACKET_IDENTIFIER_NOT_FOUND"
        (link
            "../_m_q_t_t_reason_codes_8h.html#aba6db0fccfa3f8972ea48117b8b2a279a4908a8293054f8ff8d6c47fe0cf31932"
            1 "MQTTReasonCodes.h"
          ∷ [])
    ∷ entry "mqttreasoncode_5fpacket_5ftoo_5flarge_622" "MQTTREASONCODE_PACKET_TOO_LARGE" (
        link
          "../_m_q_t_t_reason_codes_8h.html#aba6db0fccfa3f8972ea48117b8b2a279a11a587e15c468bf1c6ba9df7e8fd78aa"
          1 "MQTTReasonCodes.h"
        ∷ [])
    ∷ entry "mqttreasoncode_5fpayload_5fformat_5finvalid_623"
        "MQTTREASONCODE_PAYLOAD_FORMAT_INVALID"
        (link
            "../_m_q_t_t_reason_codes_8h.html#aba6db0fccfa3f8972ea48117b8b2a279a2d629400116e1723c5e2e597bbfe29ca"
            1 "MQTTReasonCodes.h"
          ∷ [])
    ∷ entry "mqttreasoncode_5fprotocol_5ferror_624" "MQTTREASONCODE_PROTOCOL_ERROR" (
        link
          "../_m_q_t_t_reason_codes_8h.html#aba6db0fccfa3f8972ea48117b8b2a279ae0dad403f352e31449764e2ac94c7756"
          1 "MQTTReasonCodes.h"
        ∷ [])
    ∷ entry "mqttreasoncode_5fqos_5fnot_5fsupported_625" "MQTTREASONCODE_QOS_NOT_SUPPORTED" (
        link
          "../_m_q_t_t_reason_codes_8h.html#aba6db0fccfa3f8972ea48117b8b2a279a83865a2440b512e5602152521e3810bb"
          1 "MQTTReasonCodes.h"
        ∷ [])
    ∷ entry "mqttreasoncode_5fquota_5fexceeded_626" "MQTTREASONCODE_QUOTA_EXCEEDED" (
        link
          "../_m_q_t_t_reason_codes_8h.html#aba6db0fccfa3f8972ea48117b8b2a279a954fcabf6e88925b2a57bcd84032d9f9"
          1 "MQTTReasonCodes.h"
        ∷ [])
    ∷ entry "mqttreasoncode_5fre_5fauthenticate_627" "MQTTREASONCODE_RE_AUTHENTICATE" (
        link
          "../_m_q_t_t_reason_codes_8h.html#aba6db0fccfa3f8972ea48117b8b2a279a6cc1b342856c1d96d54c368148b536f7"
          1 "MQTTReasonCodes.h"
        ∷ [])
    ∷ entry "mqttreasoncode_5freceive_5fmaximum_5fexceeded_628"
        "MQTTREASONCODE_RECEIVE_MAXIMUM_EXCEEDED"
        (link
            "../_m_q_t_t_reason_codes_8h.html#aba6db0fccfa3f8972ea48117b8b2a279a45afaacbefd2d816fddf9fe9804b61d1"
            1 "MQTTReasonCodes.h"
          ∷ [])
    ∷ entry "mqttreasoncode_5fretain_5fnot_5fsupported_629" "MQTTREASONCODE_RETAIN_NOT_SUPPORTED" (
        link
          "../_m_q_t_t_reason_codes_8h.html#aba6db0fccfa3f8972ea48117b8b2a279aa4378012148d98599398bc4a3480c38f"
          1 "MQTTReasonCodes.h"
        ∷ [])
    ∷ entry "mqttreasoncode_5fserver_5fbusy_630" "MQTTREASONCODE_SERVER_BUSY" (
        link
          "../_m_q_t_t_reason_codes_8h.html#aba6db0fccfa3f8972ea48117b8b2a279af507e75147b0b34f36955c9f62389a74"
          1 "MQTTReasonCodes.h"
        ∷ [])
    ∷ entry "mqttreasoncode_5fserver_5fmoved_631" "MQTTREASONCODE_SERVER_MOVED" (
        link
          "../_m_q_t_t_reason_codes_8h.html#aba6db0fccfa3f8972ea48117b8b2a279a783254c7acf8de52ee345bc176f9d6c0"
          1 "MQTTReasonCodes.h"
        ∷ [])
    ∷ entry "mqttreasoncode_5fserver_5fshutting_5fdown_632" "MQTTREASONCODE_SERVER_SHUTTING_DOWN" (
        link
          "../_m_q_t_t_reason_codes_8h.html#aba6db0fccfa3f8972ea48117b8b2a279a085e1572ffce61838807b7429b691113"
          1 "MQTTReasonCodes.h"
        ∷ [])
    ∷ entry "mqttreasoncode_5fserver_5funavailable_633" "MQTTREASONCODE_SERVER_UNAVAILABLE" (
        link
          "../_m_q_t_t_reason_codes_8h.html#aba6db0fccfa3f8972ea48117b8b2a279a0cfd4de78870b3fb0499b916d06d40bb"
          1 "MQTTReasonCodes.h"
        ∷ [])
    ∷ entry "mqttreasoncode_5fsession_5ftaken_5fover_634" "MQTTREASONCODE_SESSION_TAKEN_OVER" (
        link
          "../_m_q_t_t_reason_codes_8h.html#aba6db0fccfa3f8972ea48117b8b2a279ad15ffa6884f97976e237afafcbccea21"
          1 "MQTTReasonCodes.h"
        ∷ [])
    ∷ entry "mqttreasoncode_5fshared_5fsubscriptions_5fnot_5fsupported_635"
        "MQTTREASONCODE_SHARED_SUBSCRIPTIONS_NOT_SUPPORTED"
        (link
            "../_m_q_t_t_reason_codes_8h.html#aba6db0fccfa3f8972ea48117b8b2a279a1c694648e36a40162939a2785450b6bd"
            1 "MQTTReasonCodes.h"
          ∷ [])
    ∷ entry "mqttreasoncode_5fsubscription_5fidentifiers_5fnot_5fsupported_636"
        "MQTTREASONCODE_SUBSCRIPTION_IDENTIFIERS_NOT_SUPPORTED"
        (link
            "../_m_q_t_t_reason_codes_8h.html#aba6db0fccfa3f8972ea48117b8b2a279a7bcd0f9b21c398a217667aebb4107842"
            1 "MQTTReasonCodes.h"
          ∷ [])
    ∷ entry "mqttreasoncode_5fsuccess_637" "MQTTREASONCODE_SUCCESS" (
        link
          "../_m_q_t_t_reason_codes_8h.html#aba6db0fccfa3f8972ea48117b8b2a279a63b379af5fba8c0512b381a4dbe26969"
          1 "MQTTReasonCodes.h"
        ∷ [])
    ∷ entry "mqttreasoncode_5ftopic_5falias_5finvalid_638" "MQTTREASONCODE_TOPIC_ALIAS_INVALID" (
        link
          "../_m_q_t_t_reason_codes_8h.html#aba6db0fccfa3f8972ea48117b8b2a279a8e0fcdd051e154e319058600b58652ec"
          1 "MQTTReasonCodes.h"
        ∷ [])
    ∷ []

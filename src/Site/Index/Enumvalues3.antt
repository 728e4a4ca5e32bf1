-- ===== src/Site/Index/Enumvalues3.antt =====
-- docs/MQTTAsync/html/search: enumvalues_0.js.
use paho_mqtt_c.Common.{List, [], ◌∷◌}
use paho_mqtt_c.Site.Index.{Entry, link, entry}

abbrev pub enumvalues_0_part3 : List Entry
enumvalues_0_part3 =
    entry "mqttreasoncode_5ftopic_5ffilter_5finvalid_639" "MQTTREASONCODE_TOPIC_FILTER_INVALID" (
      link
        "../_m_q_t_t_reason_codes_8h.html#aba6db0fccfa3f8972ea48117b8b2a279a00319b171f469824dd6938cbd0212b5b"
        1 "MQTTReasonCodes.h"
      ∷ [])
    ∷ entry "mqttreasoncode_5ftopic_5fname_5finvalid_640" "MQTTREASONCODE_TOPIC_NAME_INVALID" (
        link
          "../_m_q_t_t_reason_codes_8h.html#aba6db0fccfa3f8972ea48117b8b2a279a6268968177868576f6b9239aa9afd8ac"
          1 "MQTTReasonCodes.h"
        ∷ [])
    ∷ entry "mqttreasoncode_5funspecified_5ferror_641" "MQTTREASONCODE_UNSPECIFIED_ERROR" (
        link
          "../_m_q_t_t_reason_codes_8h.html#aba6db0fccfa3f8972ea48117b8b2a279a1881ee597bfef9157f0034a1377328e3"
          1 "MQTTReasonCodes.h"
        ∷ [])
    ∷ entry "mqttreasoncode_5funsupported_5fprotocol_5fversion_642"
        "MQTTREASONCODE_UNSUPPORTED_PROTOCOL_VERSION"
        (link
            "../_m_q_t_t_reason_codes_8h.html#aba6db0fccfa3f8972ea48117b8b2a279a021ceca20e6d35279075a2b93ece973d"
            1 "MQTTReasonCodes.h"
          ∷ [])
    ∷ entry "mqttreasoncode_5fuse_5fanother_5fserver_643" "MQTTREASONCODE_USE_ANOTHER_SERVER" (
        link
          "../_m_q_t_t_reason_codes_8h.html#aba6db0fccfa3f8972ea48117b8b2a279aabaee4062c4e4941b9eed59f09e9440c"
          1 "MQTTReasonCodes.h"
        ∷ [])
    ∷ entry "mqttreasoncode_5fwildcard_5fsubscriptions_5fnot_5fsupported_644"
        "MQTTREASONCODE_WILDCARD_SUBSCRIPTIONS_NOT_SUPPORTED"
        (link
            "../_m_q_t_t_reason_codes_8h.html#aba6db0fccfa3f8972ea48117b8b2a279a81b5708f676f52594b680f085e444e1f"
            1 "MQTTReasonCodes.h"
          ∷ [])
    ∷ []

-- ===== src/Site/Index/All7.antt =====
-- docs/MQTTAsync/html/search: all_9.js to all_a.js.
use paho_mqtt_c.Common.{List, [], ◌∷◌}
use paho_mqtt_c.Site.Index.{Entry, link, entry}

abbrev pub all_9_part6 : List Entry
all_9_part6 =
    entry "mqttreasoncode_5fno_5fsubscription_5ffound_236" "MQTTREASONCODE_NO_SUBSCRIPTION_FOUND" (
      link
        "../_m_q_t_t_reason_codes_8h.html#aba6db0fccfa3f8972ea48117b8b2a279a55208c34a26f67e112d53c54be37acb9"
        1 "MQTTReasonCodes.h"
      ∷ [])
    ∷ entry "mqttreasoncode_5fnormal_5fdisconnection_237" "MQTTREASONCODE_NORMAL_DISCONNECTION" (
        link
          "../_m_q_t_t_reason_codes_8h.html#aba6db0fccfa3f8972ea48117b8b2a279a3590f41d984646bc58c82734c1516c92"
          1 "MQTTReasonCodes.h"
        ∷ [])
    ∷ entry "mqttreasoncode_5fnot_5fauthorized_238" "MQTTREASONCODE_NOT_AUTHORIZED" (
        link
          "../_m_q_t_t_reason_codes_8h.html#aba6db0fccfa3f8972ea48117b8b2a279a91a14fc763349cf4a7047d24f13d0803"
          1 "MQTTReasonCodes.h"
        ∷ [])
    ∷ entry "mqttreasoncode_5fpacket_5fidentifier_5fin_5fuse_239"
        "MQTTREASONCODE_PACKET_IDENTIFIER_IN_USE"
        (link
            "../_m_q_t_t_reason_codes_8h.html#aba6db0fccfa3f8972ea48117b8b2a279adaee01dbc97a0773b5032a29c797613a"
            1 "MQTTReasonCodes.h"
          ∷ [])
    ∷ entry "mqttreasoncode_5fpacket_5fidentifier_5fnot_5ffound_240"
        "MQTTREASONCODE_PACKET_IDENTIFIER_NOT_FOUND"
        (link
            "../_m_q_t_t_reason_codes_8h.html#aba6db0fccfa3f8972ea48117b8b2a279a4908a8293054f8ff8d6c47fe0cf31932"
            1 "MQTTReasonCodes.h"
          ∷ [])
    ∷ entry "mqttreasoncode_5fpacket_5ftoo_5flarge_241" "MQTTREASONCODE_PACKET_TOO_LARGE" (
        link
          "../_m_q_t_t_reason_codes_8h.html#aba6db0fccfa3f8972ea48117b8b2a279a11a587e15c468bf1c6ba9df7e8fd78aa"
          1 "MQTTReasonCodes.h"
        ∷ [])
    ∷ entry "mqttreasoncode_5fpayload_5fformat_5finvalid_242"
        "MQTTREASONCODE_PAYLOAD_FORMAT_INVALID"
        (link
            "../_m_q_t_t_reason_codes_8h.html#aba6db0fccfa3f8972ea48117b8b2a279a2d629400116e1723c5e2e597bbfe29ca"
            1 "MQTTReasonCodes.h"
          ∷ [])
    ∷ entry "mqttreasoncode_5fprotocol_5ferror_243" "MQTTREASONCODE_PROTOCOL_ERROR" (
        link
          "../_m_q_t_t_reason_codes_8h.html#aba6db0fccfa3f8972ea48117b8b2a279ae0dad403f352e31449764e2ac94c7756"
          1 "MQTTReasonCodes.h"
        ∷ [])
    ∷ entry "mqttreasoncode_5fqos_5fnot_5fsupported_244" "MQTTREASONCODE_QOS_NOT_SUPPORTED" (
        link
          "../_m_q_t_t_reason_codes_8h.html#aba6db0fccfa3f8972ea48117b8b2a279a83865a2440b512e5602152521e3810bb"
          1 "MQTTReasonCodes.h"
        ∷ [])
    ∷ entry "mqttreasoncode_5fquota_5fexceeded_245" "MQTTREASONCODE_QUOTA_EXCEEDED" (
        link
          "../_m_q_t_t_reason_codes_8h.html#aba6db0fccfa3f8972ea48117b8b2a279a954fcabf6e88925b2a57bcd84032d9f9"
          1 "MQTTReasonCodes.h"
        ∷ [])
    ∷ entry "mqttreasoncode_5fre_5fauthenticate_246" "MQTTREASONCODE_RE_AUTHENTICATE" (
        link
          "../_m_q_t_t_reason_codes_8h.html#aba6db0fccfa3f8972ea48117b8b2a279a6cc1b342856c1d96d54c368148b536f7"
          1 "MQTTReasonCodes.h"
        ∷ [])
    ∷ entry "mqttreasoncode_5freceive_5fmaximum_5fexceeded_247"
        "MQTTREASONCODE_RECEIVE_MAXIMUM_EXCEEDED"
        (link
            "../_m_q_t_t_reason_codes_8h.html#aba6db0fccfa3f8972ea48117b8b2a279a45afaacbefd2d816fddf9fe9804b61d1"
            1 "MQTTReasonCodes.h"
          ∷ [])
    ∷ entry "mqttreasoncode_5fretain_5fnot_5fsupported_248" "MQTTREASONCODE_RETAIN_NOT_SUPPORTED" (
        link
          "../_m_q_t_t_reason_codes_8h.html#aba6db0fccfa3f8972ea48117b8b2a279aa4378012148d98599398bc4a3480c38f"
          1 "MQTTReasonCodes.h"
        ∷ [])
    ∷ entry "mqttreasoncode_5fserver_5fbusy_249" "MQTTREASONCODE_SERVER_BUSY" (
        link
          "../_m_q_t_t_reason_codes_8h.html#aba6db0fccfa3f8972ea48117b8b2a279af507e75147b0b34f36955c9f62389a74"
          1 "MQTTReasonCodes.h"
        ∷ [])
    ∷ entry "mqttreasoncode_5fserver_5fmoved_250" "MQTTREASONCODE_SERVER_MOVED" (
        link
          "../_m_q_t_t_reason_codes_8h.html#aba6db0fccfa3f8972ea48117b8b2a279a783254c7acf8de52ee345bc176f9d6c0"
          1 "MQTTReasonCodes.h"
        ∷ [])
    ∷ entry "mqttreasoncode_5fserver_5fshutting_5fdown_251" "MQTTREASONCODE_SERVER_SHUTTING_DOWN" (
        link
          "../_m_q_t_t_reason_codes_8h.html#aba6db0fccfa3f8972ea48117b8b2a279a085e1572ffce61838807b7429b691113"
          1 "MQTTReasonCodes.h"
        ∷ [])
    ∷ entry "mqttreasoncode_5fserver_5funavailable_252" "MQTTREASONCODE_SERVER_UNAVAILABLE" (
        link
          "../_m_q_t_t_reason_codes_8h.html#aba6db0fccfa3f8972ea48117b8b2a279a0cfd4de78870b3fb0499b916d06d40bb"
          1 "MQTTReasonCodes.h"
        ∷ [])
    ∷ entry "mqttreasoncode_5fsession_5ftaken_5fover_253" "MQTTREASONCODE_SESSION_TAKEN_OVER" (
        link
          "../_m_q_t_t_reason_codes_8h.html#aba6db0fccfa3f8972ea48117b8b2a279ad15ffa6884f97976e237afafcbccea21"
          1 "MQTTReasonCodes.h"
        ∷ [])
    ∷ entry "mqttreasoncode_5fshared_5fsubscriptions_5fnot_5fsupported_254"
        "MQTTREASONCODE_SHARED_SUBSCRIPTIONS_NOT_SUPPORTED"
        (link
            "../_m_q_t_t_reason_codes_8h.html#aba6db0fccfa3f8972ea48117b8b2a279a1c694648e36a40162939a2785450b6bd"
            1 "MQTTReasonCodes.h"
          ∷ [])
    ∷ entry "mqttreasoncode_5fsubscription_5fidentifiers_5fnot_5fsupported_255"
        "MQTTREASONCODE_SUBSCRIPTION_IDENTIFIERS_NOT_SUPPORTED"
        (link
            "../_m_q_t_t_reason_codes_8h.html#aba6db0fccfa3f8972ea48117b8b2a279a7bcd0f9b21c398a217667aebb4107842"
            1 "MQTTReasonCodes.h"
          ∷ [])
    ∷ entry "mqttreasoncode_5fsuccess_256" "MQTTREASONCODE_SUCCESS" (
        link
          "../_m_q_t_t_reason_codes_8h.html#aba6db0fccfa3f8972ea48117b8b2a279a63b379af5fba8c0512b381a4dbe26969"
          1 "MQTTReasonCodes.h"
        ∷ [])
    ∷ entry "mqttreasoncode_5ftopic_5falias_5finvalid_257" "MQTTREASONCODE_TOPIC_ALIAS_INVALID" (
        link
          "../_m_q_t_t_reason_codes_8h.html#aba6db0fccfa3f8972ea48117b8b2a279a8e0fcdd051e154e319058600b58652ec"
          1 "MQTTReasonCodes.h"
        ∷ [])
    ∷ entry "mqttreasoncode_5ftopic_5ffilter_5finvalid_258" "MQTTREASONCODE_TOPIC_FILTER_INVALID" (
        link
          "../_m_q_t_t_reason_codes_8h.html#aba6db0fccfa3f8972ea48117b8b2a279a00319b171f469824dd6938cbd0212b5b"
          1 "MQTTReasonCodes.h"
        ∷ [])
    ∷ entry "mqttreasoncode_5ftopic_5fname_5finvalid_259" "MQTTREASONCODE_TOPIC_NAME_INVALID" (
        link
          "../_m_q_t_t_reason_codes_8h.html#aba6db0fccfa3f8972ea48117b8b2a279a6268968177868576f6b9239aa9afd8ac"
          1 "MQTTReasonCodes.h"
        ∷ [])
    ∷ entry "mqttreasoncode_5ftostring_260" "MQTTReasonCode_toString" (
        link "../_m_q_t_t_reason_codes_8h.html#a91922a5e3c1e5ec7670b6e296854f1b7" 1
          "MQTTReasonCodes.h"
        ∷ [])
    ∷ entry "mqttreasoncode_5funspecified_5ferror_261" "MQTTREASONCODE_UNSPECIFIED_ERROR" (
        link
          "../_m_q_t_t_reason_codes_8h.html#aba6db0fccfa3f8972ea48117b8b2a279a1881ee597bfef9157f0034a1377328e3"
          1 "MQTTReasonCodes.h"
        ∷ [])
    ∷ entry "mqttreasoncode_5funsupported_5fprotocol_5fversion_262"
        "MQTTREASONCODE_UNSUPPORTED_PROTOCOL_VERSION"
        (link
            "../_m_q_t_t_reason_codes_8h.html#aba6db0fccfa3f8972ea48117b8b2a279a021ceca20e6d35279075a2b93ece973d"
            1 "MQTTReasonCodes.h"
          ∷ [])
    ∷ entry "mqttreasoncode_5fuse_5fanother_5fserver_263" "MQTTREASONCODE_USE_ANOTHER_SERVER" (
        link
          "../_m_q_t_t_reason_codes_8h.html#aba6db0fccfa3f8972ea48117b8b2a279aabaee4062c4e4941b9eed59f09e9440c"
          1 "MQTTReasonCodes.h"
        ∷ [])
    ∷ entry "mqttreasoncode_5fwildcard_5fsubscriptions_5fnot_5fsupported_264"
        "MQTTREASONCODE_WILDCARD_SUBSCRIPTIONS_NOT_SUPPORTED"
        (link
            "../_m_q_t_t_reason_codes_8h.html#aba6db0fccfa3f8972ea48117b8b2a279a81b5708f676f52594b680f085e444e1f"
            1 "MQTTReasonCodes.h"
          ∷ [])
    ∷ entry "mqttreasoncodes_265" "MQTTReasonCodes" (
        link "../_m_q_t_t_reason_codes_8h.html#aba6db0fccfa3f8972ea48117b8b2a279" 1
          "MQTTReasonCodes.h"
        ∷ [])
    ∷ entry "mqttreasoncodes_2eh_266" "MQTTReasonCodes.h"
        (link "../_m_q_t_t_reason_codes_8h.html" 1 "" ∷ [])
    ∷ entry "mqttsubscribe_5foptions_267" "MQTTSubscribe_options" (
        link "../struct_m_q_t_t_subscribe__options.html" 1 "MQTTSubscribe_options"
        ∷ link "../_m_q_t_t_subscribe_opts_8h.html#aa68db3eaed272ae1aaea294401079d8a" 1
            "MQTTSubscribe_options():&#160;MQTTSubscribeOpts.h"
        ∷ [])
    ∷ entry "mqttsubscribe_5foptions_5finitializer_268" "MQTTSubscribe_options_initializer" (
        link "../_m_q_t_t_subscribe_opts_8h.html#aec3b45fd0367106eea344396f87cfda7" 1
          "MQTTSubscribeOpts.h"
        ∷ [])
    ∷ entry "mqttsubscribeopts_2eh_269" "MQTTSubscribeOpts.h"
        (link "../_m_q_t_t_subscribe_opts_8h.html" 1 "" ∷ [])
    ∷ entry "mqttversion_270" "MQTTVersion" (
        link "../struct_m_q_t_t_async__connect_options.html#a12d546fd0ccf4e1091b18e1b735c7240" 1
          "MQTTAsync_connectOptions::MQTTVersion()"
        ∷ link "../struct_m_q_t_t_async__success_data.html#a12d546fd0ccf4e1091b18e1b735c7240" 1
            "MQTTAsync_successData::MQTTVersion()"
        ∷ link "../struct_m_q_t_t_async__success_data5.html#a12d546fd0ccf4e1091b18e1b735c7240" 1
            "MQTTAsync_successData5::MQTTVersion()"
        ∷ link "../struct_m_q_t_t_async__create_options.html#a12d546fd0ccf4e1091b18e1b735c7240" 1
            "MQTTAsync_createOptions::MQTTVersion()"
        ∷ [])
    ∷ entry "mqttversion_5f3_5f1_271" "MQTTVERSION_3_1"
        (link "../_m_q_t_t_async_8h.html#a4603b988e76872e1f23f135d225ce2fb" 1 "MQTTAsync.h" ∷ [])
    ∷ entry "mqttversion_5f3_5f1_5f1_272" "MQTTVERSION_3_1_1"
        (link "../_m_q_t_t_async_8h.html#ac79cc6fdeaa9e3f4ee12c3418898b1ef" 1 "MQTTAsync.h" ∷ [])
    ∷ entry "mqttversion_5f5_273" "MQTTVERSION_5"
        (link "../_m_q_t_t_async_8h.html#af8b176fa4d5b89789767ce972338e1e3" 1 "MQTTAsync.h" ∷ [])
    ∷ entry "mqttversion_5fdefault_274" "MQTTVERSION_DEFAULT"
        (link "../_m_q_t_t_async_8h.html#a75b80b01f98d5a1ffa2a4d42995a8397" 1 "MQTTAsync.h" ∷ [])
    ∷ entry "msgid_275" "msgid" (
        link "../struct_m_q_t_t_async__message.html#a6174c42da8c55c86e7255be2848dc4ac" 1
          "MQTTAsync_message"
        ∷ [])
    ∷ []

abbrev pub all_a : List Entry
all_a =
    entry "name_276" "name" (
      link "../struct_m_q_t_t_async__name_value.html#a8f8f80d37794cde9472343e4487ba3eb" 1
        "MQTTAsync_nameValue"
      ∷ [])
    ∷ entry "nolocal_277" "noLocal" (
        link "../struct_m_q_t_t_subscribe__options.html#abbb6a188886c12f305cbe69358515d8b" 1
          "MQTTSubscribe_options"
        ∷ [])
    ∷ []

-- ===== src/Site/Index/Defines1.antt =====
-- docs/MQTTAsync/html/search: defines_0.js.
use paho_mqtt_c.Common.{List, [], ◌∷◌}
use paho_mqtt_c.Site.Index.{Entry, link, entry}

abbrev pub defines_0_part1 : List Entry
defines_0_part1 =
    entry "mqtt_5fbad_5fsubscribe_645" "MQTT_BAD_SUBSCRIBE"
      (link "../_m_q_t_t_async_8h.html#ade337b363b7f4bc7c1a7b2858e0380bd" 1 "MQTTAsync.h" ∷ [])
    ∷ entry "mqtt_5finvalid_5fproperty_5fid_646" "MQTT_INVALID_PROPERTY_ID" (
        link "../_m_q_t_t_properties_8h.html#afc56d2e8937a0c8f180d68ad93945945" 1 "MQTTProperties.h"
        ∷ [])
    ∷ entry "mqtt_5fssl_5fversion_5fdefault_647" "MQTT_SSL_VERSION_DEFAULT"
        (link "../_m_q_t_t_async_8h.html#a2549ea897af26c76198284731db9e721" 1 "MQTTAsync.h" ∷ [])
    ∷ entry "mqtt_5fssl_5fversion_5ftls_5f1_5f0_648" "MQTT_SSL_VERSION_TLS_1_0"
        (link "../_m_q_t_t_async_8h.html#a7e5da3d6f0d2b53409bbfcf6e56f3d2d" 1 "MQTTAsync.h" ∷ [])
    ∷ entry "mqtt_5fssl_5fversion_5ftls_5f1_5f1_649" "MQTT_SSL_VERSION_TLS_1_1"
        (link "../_m_q_t_t_async_8h.html#abdff87efa3f2ee473a1591e10638b537" 1 "MQTTAsync.h" ∷ [])
    ∷ entry "mqtt_5fssl_5fversion_5ftls_5f1_5f2_650" "MQTT_SSL_VERSION_TLS_1_2"
        (link "../_m_q_t_t_async_8h.html#a3a94dbdeafbb73c73a068e7c2085fbab" 1 "MQTTAsync.h" ∷ [])
    ∷ entry "mqttasync_5f0_5flen_5fwill_5ftopic_651" "MQTTASYNC_0_LEN_WILL_TOPIC"
        (link "../_m_q_t_t_async_8h.html#a47b3aed75983f48a503e1cad6c862004" 1 "MQTTAsync.h" ∷ [])
    ∷ entry "mqttasync_5fbad_5fmqtt_5foption_652" "MQTTASYNC_BAD_MQTT_OPTION"
        (link "../_m_q_t_t_async_8h.html#af6f97562573876867ba77460a51ca1d1" 1 "MQTTAsync.h" ∷ [])
    ∷ entry "mqttasync_5fbad_5fprotocol_653" "MQTTASYNC_BAD_PROTOCOL"
        (link "../_m_q_t_t_async_8h.html#a785250cd4a1938ffeeff67b3538abfba" 1 "MQTTAsync.h" ∷ [])
    ∷ entry "mqttasync_5fbad_5fqos_654" "MQTTASYNC_BAD_QOS"
        (link "../_m_q_t_t_async_8h.html#a64d111778ce4e0d3a62808f6db11f224" 1 "MQTTAsync.h" ∷ [])
    ∷ entry "mqttasync_5fbad_5fstructure_655" "MQTTASYNC_BAD_STRUCTURE"
        (link "../_m_q_t_t_async_8h.html#a241fc8db46dca132d591bc2be92247ba" 1 "MQTTAsync.h" ∷ [])
    ∷ entry "mqttasync_5fbad_5futf8_5fstring_656" "MQTTASYNC_BAD_UTF8_STRING"
        (link "../_m_q_t_t_async_8h.html#a80cbe091930c11b67ca719b3e385aa26" 1 "MQTTAsync.h" ∷ [])
    ∷ entry "mqttasync_5fcalloptions_5finitializer_657" "MQTTAsync_callOptions_initializer"
        (link "../_m_q_t_t_async_8h.html#a570185766fc8a9da410a6f84915b6df5" 1 "MQTTAsync.h" ∷ [])
    ∷ entry "mqttasync_5fcommand_5fignored_658" "MQTTASYNC_COMMAND_IGNORED"
        (link "../_m_q_t_t_async_8h.html#a8278cf4b50dd818c31fa12e45f074b5c" 1 "MQTTAsync.h" ∷ [])
    ∷ entry "mqttasync_5fconnectdata_5finitializer_659" "MQTTAsync_connectData_initializer"
        (link "../_m_q_t_t_async_8h.html#a2e415e68016ae56f6bbbbdc9840a9c6e" 1 "MQTTAsync.h" ∷ [])
    ∷ entry "mqttasync_5fconnectoptions_5finitializer_660" "MQTTAsync_connectOptions_initializer"
        (link "../_m_q_t_t_async_8h.html#ae18b51f22784a43803eb809d6a0c2492" 1 "MQTTAsync.h" ∷ [])
    ∷ entry "mqttasync_5fconnectoptions_5finitializer5_661" "MQTTAsync_connectOptions_initializer5"
        (link "../_m_q_t_t_async_8h.html#abd403ce21f7aa0348ae1d3eefd031a5d" 1 "MQTTAsync.h" ∷ [])
    ∷ entry "mqttasync_5fconnectoptions_5finitializer5_5fws_662"
        "MQTTAsync_connectOptions_initializer5_ws"
        (link "../_m_q_t_t_async_8h.html#a513bfbec7b7d39c827240db75aa4044b" 1 "MQTTAsync.h" ∷ [])
    ∷ entry "mqttasync_5fconnectoptions_5finitializer_5fws_663"
        "MQTTAsync_connectOptions_initializer_ws"
        (link "../_m_q_t_t_async_8h.html#a080951d916d7a58c4ceff8c6bacfe313" 1 "MQTTAsync.h" ∷ [])
    ∷ entry "mqttasync_5fcreateoptions_5finitializer_664" "MQTTAsync_createOptions_initializer"
        (link "../_m_q_t_t_async_8h.html#a5fedeafef4753f09b1bcb92773564786" 1 "MQTTAsync.h" ∷ [])
    ∷ entry "mqttasync_5fcreateoptions_5finitializer5_665" "MQTTAsync_createOptions_initializer5"
        (link "../_m_q_t_t_async_8h.html#a0008776a46e7268ccbef4774ce3d4579" 1 "MQTTAsync.h" ∷ [])
    ∷ entry "mqttasync_5fdisconnected_666" "MQTTASYNC_DISCONNECTED"
        (link "../_m_q_t_t_async_8h.html#a66c0f30b329bc770145c2f04b3929df6" 1 "MQTTAsync.h" ∷ [])
    ∷ entry "mqttasync_5fdisconnectoptions_5finitializer_667"
        "MQTTAsync_disconnectOptions_initializer"
        (link "../_m_q_t_t_async_8h.html#a2fd5d6df31928ae468f3f2e522b9c707" 1 "MQTTAsync.h" ∷ [])
    ∷ entry "mqttasync_5fdisconnectoptions_5finitializer5_668"
        "MQTTAsync_disconnectOptions_initializer5"
        (link "../_m_q_t_t_async_8h.html#aaa278001953dc129003eff83c8e7b3db" 1 "MQTTAsync.h" ∷ [])
    ∷ entry "mqttasync_5ffailure_669" "MQTTASYNC_FAILURE"
        (link "../_m_q_t_t_async_8h.html#a7c8230fef85fc04b8a1035501f3be406" 1 "MQTTAsync.h" ∷ [])
    ∷ entry "mqttasync_5ffailuredata5_5finitializer_670" "MQTTAsync_failureData5_initializer"
        (link "../_m_q_t_t_async_8h.html#a53ce2002ae2c2579575bb41c48c51c29" 1 "MQTTAsync.h" ∷ [])
    ∷ entry "mqttasync_5finit_5foptions_5finitializer_671" "MQTTAsync_init_options_initializer"
        (link "../_m_q_t_t_async_8h.html#a866e023f70141969d48597930c0ee313" 1 "MQTTAsync.h" ∷ [])
    ∷ entry "mqttasync_5fmax_5fbuffered_672" "MQTTASYNC_MAX_BUFFERED"
        (link "../_m_q_t_t_async_8h.html#a2efee8e190e2c3690c680bde060f78ab" 1 "MQTTAsync.h" ∷ [])
    ∷ entry "mqttasync_5fmax_5fbuffered_5fmessages_673" "MQTTASYNC_MAX_BUFFERED_MESSAGES"
        (link "../_m_q_t_t_async_8h.html#a4e338072cfd5291b579e4f0c99a6e773" 1 "MQTTAsync.h" ∷ [])
    ∷ entry "mqttasync_5fmax_5fmessages_5finflight_674" "MQTTASYNC_MAX_MESSAGES_INFLIGHT"
        (link "../_m_q_t_t_async_8h.html#ad577286d43c72fbc49818aac42f4e24a" 1 "MQTTAsync.h" ∷ [])
    ∷ entry "mqttasync_5fmessage_5finitializer_675" "MQTTAsync_message_initializer"
        (link "../_m_q_t_t_async_8h.html#a6a85061dadab532f28e96e5ab3c600e9" 1 "MQTTAsync.h" ∷ [])
    ∷ entry "mqttasync_5fno_5fmore_5fmsgids_676" "MQTTASYNC_NO_MORE_MSGIDS"
        (link "../_m_q_t_t_async_8h.html#ab0f54d0bae2c74849022a8009e5d6ff7" 1 "MQTTAsync.h" ∷ [])
    ∷ entry "mqttasync_5fnull_5fparameter_677" "MQTTASYNC_NULL_PARAMETER"
        (link "../_m_q_t_t_async_8h.html#ab88e1ebcee991099a72429e52a8253fd" 1 "MQTTAsync.h" ∷ [])
    ∷ entry "mqttasync_5foperation_5fincomplete_678" "MQTTASYNC_OPERATION_INCOMPLETE"
        (link "../_m_q_t_t_async_8h.html#aee1b79d0632bec0fe49eb7ea1abd3b2e" 1 "MQTTAsync.h" ∷ [])
    ∷ entry "mqttasync_5fpersistence_5ferror_679" "MQTTASYNC_PERSISTENCE_ERROR"
        (link "../_m_q_t_t_async_8h.html#a4edf1249c75abd4975fec8ddeae2cdc9" 1 "MQTTAsync.h" ∷ [])
    ∷ entry "mqttasync_5fresponseoptions_5finitializer_680" "MQTTAsync_responseOptions_initializer"
        (link "../_m_q_t_t_async_8h.html#a3f8b408243b5c2369bc9758f2edf0878" 1 "MQTTAsync.h" ∷ [])
    ∷ entry "mqttasync_5fssl_5fnot_5fsupported_681" "MQTTASYNC_SSL_NOT_SUPPORTED"
        (link "../_m_q_t_t_async_8h.html#a6992c00553db1608aef9e162c161d73c" 1 "MQTTAsync.h" ∷ [])
    ∷ entry "mqttasync_5fssloptions_5finitializer_682" "MQTTAsync_SSLOptions_initializer"
        (link "../_m_q_t_t_async_8h.html#aac935e2e9d770a53ee8189f128530511" 1 "MQTTAsync.h" ∷ [])
    ∷ entry "mqttasync_5fsuccess_683" "MQTTASYNC_SUCCESS"
        (link "../_m_q_t_t_async_8h.html#afe0cffcce8efe25186f79c51ac44e16f" 1 "MQTTAsync.h" ∷ [])
    ∷ entry "mqttasync_5fsuccessdata5_5finitializer_684" "MQTTAsync_successData5_initializer"
        (link "../_m_q_t_t_async_8h.html#a6182ec90ec4a134465f627b324ac5a41" 1 "MQTTAsync.h" ∷ [])
    ∷ []

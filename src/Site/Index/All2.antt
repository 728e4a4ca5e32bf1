-- ===== src/Site/Index/All2.antt =====
-- docs/MQTTAsync/html/search: all_9.js.
use paho_mqtt_c.Common.{List, [], ◌∷◌}
use paho_mqtt_c.Site.Index.{Entry, link, entry}

abbrev pub all_9_part1 : List Entry
all_9_part1 =
    entry "max_5fcount_36" "max_count" (
      link "../struct_m_q_t_t_properties.html#a8de324382d8fd2f5939bf3372e059383" 1 "MQTTProperties"
      ∷ [])
    ∷ entry "maxbufferedmessages_37" "maxBufferedMessages" (
        link "../struct_m_q_t_t_async__create_options.html#a3b74acf6f315bb5fe36266bc9647ee97" 1
          "MQTTAsync_createOptions"
        ∷ [])
    ∷ entry "maxinflight_38" "maxInflight" (
        link "../struct_m_q_t_t_async__connect_options.html#a5c9d6c557453232a1b25cbbec5a31e8c" 1
          "MQTTAsync_connectOptions"
        ∷ [])
    ∷ entry "maxretryinterval_39" "maxRetryInterval" (
        link "../struct_m_q_t_t_async__connect_options.html#a035ba380dd97a284db04f4eaae5e113b" 1
          "MQTTAsync_connectOptions"
        ∷ [])
    ∷ entry "message_40" "message" (
        link "../struct_m_q_t_t_async__will_options.html#a254bf0858da09c96a48daf64404eb4f8" 1
          "MQTTAsync_willOptions::message()"
        ∷ link "../struct_m_q_t_t_async__success_data5.html#a6ed8403758cecd2f762af6ba5e0ae525" 1
            "MQTTAsync_successData5::message()"
        ∷ link "../struct_m_q_t_t_async__success_data.html#a6ed8403758cecd2f762af6ba5e0ae525" 1
            "MQTTAsync_successData::message()"
        ∷ link "../struct_m_q_t_t_async__failure_data5.html#a254bf0858da09c96a48daf64404eb4f8" 1
            "MQTTAsync_failureData5::message()"
        ∷ link "../struct_m_q_t_t_async__failure_data.html#a254bf0858da09c96a48daf64404eb4f8" 1
            "MQTTAsync_failureData::message()"
        ∷ [])
    ∷ entry "minretryinterval_41" "minRetryInterval" (
        link "../struct_m_q_t_t_async__connect_options.html#a166ac1b967f09326b0187f66be3e69af" 1
          "MQTTAsync_connectOptions"
        ∷ [])
    ∷ entry "mqtt_5fbad_5fsubscribe_42" "MQTT_BAD_SUBSCRIBE"
        (link "../_m_q_t_t_async_8h.html#ade337b363b7f4bc7c1a7b2858e0380bd" 1 "MQTTAsync.h" ∷ [])
    ∷ entry "mqtt_5finvalid_5fproperty_5fid_43" "MQTT_INVALID_PROPERTY_ID" (
        link "../_m_q_t_t_properties_8h.html#afc56d2e8937a0c8f180d68ad93945945" 1 "MQTTProperties.h"
        ∷ [])
    ∷ entry "mqtt_5fssl_5fversion_5fdefault_44" "MQTT_SSL_VERSION_DEFAULT"
        (link "../_m_q_t_t_async_8h.html#a2549ea897af26c76198284731db9e721" 1 "MQTTAsync.h" ∷ [])
    ∷ entry "mqtt_5fssl_5fversion_5ftls_5f1_5f0_45" "MQTT_SSL_VERSION_TLS_1_0"
        (link "../_m_q_t_t_async_8h.html#a7e5da3d6f0d2b53409bbfcf6e56f3d2d" 1 "MQTTAsync.h" ∷ [])
    ∷ entry "mqtt_5fssl_5fversion_5ftls_5f1_5f1_46" "MQTT_SSL_VERSION_TLS_1_1"
        (link "../_m_q_t_t_async_8h.html#abdff87efa3f2ee473a1591e10638b537" 1 "MQTTAsync.h" ∷ [])
    ∷ entry "mqtt_5fssl_5fversion_5ftls_5f1_5f2_47" "MQTT_SSL_VERSION_TLS_1_2"
        (link "../_m_q_t_t_async_8h.html#a3a94dbdeafbb73c73a068e7c2085fbab" 1 "MQTTAsync.h" ∷ [])
    ∷ entry "mqttasync_48" "MQTTAsync"
        (link "../_m_q_t_t_async_8h.html#a0db1d736cdc0c864fe41abb3afd605bd" 1 "MQTTAsync.h" ∷ [])
    ∷ entry "mqttasync_2eh_49" "MQTTAsync.h" (link "../_m_q_t_t_async_8h.html" 1 "" ∷ [])
    ∷ entry "mqttasync_5f0_5flen_5fwill_5ftopic_50" "MQTTASYNC_0_LEN_WILL_TOPIC"
        (link "../_m_q_t_t_async_8h.html#a47b3aed75983f48a503e1cad6c862004" 1 "MQTTAsync.h" ∷ [])
    ∷ entry "mqttasync_5fbad_5fmqtt_5foption_51" "MQTTASYNC_BAD_MQTT_OPTION"
        (link "../_m_q_t_t_async_8h.html#af6f97562573876867ba77460a51ca1d1" 1 "MQTTAsync.h" ∷ [])
    ∷ entry "mqttasync_5fbad_5fprotocol_52" "MQTTASYNC_BAD_PROTOCOL"
        (link "../_m_q_t_t_async_8h.html#a785250cd4a1938ffeeff67b3538abfba" 1 "MQTTAsync.h" ∷ [])
    ∷ entry "mqttasync_5fbad_5fqos_53" "MQTTASYNC_BAD_QOS"
        (link "../_m_q_t_t_async_8h.html#a64d111778ce4e0d3a62808f6db11f224" 1 "MQTTAsync.h" ∷ [])
    ∷ entry "mqttasync_5fbad_5fstructure_54" "MQTTASYNC_BAD_STRUCTURE"
        (link "../_m_q_t_t_async_8h.html#a241fc8db46dca132d591bc2be92247ba" 1 "MQTTAsync.h" ∷ [])
    ∷ entry "mqttasync_5fbad_5futf8_5fstring_55" "MQTTASYNC_BAD_UTF8_STRING"
        (link "../_m_q_t_t_async_8h.html#a80cbe091930c11b67ca719b3e385aa26" 1 "MQTTAsync.h" ∷ [])
    ∷ entry "mqttasync_5fcalloptions_56" "MQTTAsync_callOptions"
        (link "../_m_q_t_t_async_8h.html#ab6bfa6beae93c259220e1a131ba1cf9c" 1 "MQTTAsync.h" ∷ [])
    ∷ entry "mqttasync_5fcalloptions_5finitializer_57" "MQTTAsync_callOptions_initializer"
        (link "../_m_q_t_t_async_8h.html#a570185766fc8a9da410a6f84915b6df5" 1 "MQTTAsync.h" ∷ [])
    ∷ entry "mqttasync_5fcommand_5fignored_58" "MQTTASYNC_COMMAND_IGNORED"
        (link "../_m_q_t_t_async_8h.html#a8278cf4b50dd818c31fa12e45f074b5c" 1 "MQTTAsync.h" ∷ [])
    ∷ entry "mqttasync_5fconnect_59" "MQTTAsync_connect"
        (link "../_m_q_t_t_async_8h.html#a0388b226a414b09fa733f6d65004ec32" 1 "MQTTAsync.h" ∷ [])
    ∷ entry "mqttasync_5fconnectdata_60" "MQTTAsync_connectData"
        (link "../struct_m_q_t_t_async__connect_data.html" 1 "" ∷ [])
    ∷ entry "mqttasync_5fconnectdata_5finitializer_61" "MQTTAsync_connectData_initializer"
        (link "../_m_q_t_t_async_8h.html#a2e415e68016ae56f6bbbbdc9840a9c6e" 1 "MQTTAsync.h" ∷ [])
    ∷ entry "mqttasync_5fconnected_62" "MQTTAsync_connected"
        (link "../_m_q_t_t_async_8h.html#a34bb8d321e9d368780b5c832c058f223" 1 "MQTTAsync.h" ∷ [])
    ∷ entry "mqttasync_5fconnectionlost_63" "MQTTAsync_connectionLost"
        (link "../_m_q_t_t_async_8h.html#a3900a98d7b1d58ad6e686bfce298bb6c" 1 "MQTTAsync.h" ∷ [])
    ∷ entry "mqttasync_5fconnectoptions_64" "MQTTAsync_connectOptions"
        (link "../struct_m_q_t_t_async__connect_options.html" 1 "" ∷ [])
    ∷ entry "mqttasync_5fconnectoptions_5finitializer_65" "MQTTAsync_connectOptions_initializer"
        (link "../_m_q_t_t_async_8h.html#ae18b51f22784a43803eb809d6a0c2492" 1 "MQTTAsync.h" ∷ [])
    ∷ entry "mqttasync_5fconnectoptions_5finitializer5_66" "MQTTAsync_connectOptions_initializer5"
        (link "../_m_q_t_t_async_8h.html#abd403ce21f7aa0348ae1d3eefd031a5d" 1 "MQTTAsync.h" ∷ [])
    ∷ entry "mqttasync_5fconnectoptions_5finitializer5_5fws_67"
        "MQTTAsync_connectOptions_initializer5_ws"
        (link "../_m_q_t_t_async_8h.html#a513bfbec7b7d39c827240db75aa4044b" 1 "MQTTAsync.h" ∷ [])
    ∷ entry "mqttasync_5fconnectoptions_5finitializer_5fws_68"
        "MQTTAsync_connectOptions_initializer_ws"
        (link "../_m_q_t_t_async_8h.html#a080951d916d7a58c4ceff8c6bacfe313" 1 "MQTTAsync.h" ∷ [])
    ∷ entry "mqttasync_5fcreate_69" "MQTTAsync_create"
        (link "../_m_q_t_t_async_8h.html#a5462c4618d0a229116db5fbadacf95d2" 1 "MQTTAsync.h" ∷ [])
    ∷ entry "mqttasync_5fcreateoptions_70" "MQTTAsync_createOptions"
        (link "../struct_m_q_t_t_async__create_options.html" 1 "" ∷ [])
    ∷ entry "mqttasync_5fcreateoptions_5finitializer_71" "MQTTAsync_createOptions_initializer"
        (link "../_m_q_t_t_async_8h.html#a5fedeafef4753f09b1bcb92773564786" 1 "MQTTAsync.h" ∷ [])
    ∷ entry "mqttasync_5fcreateoptions_5finitializer5_72" "MQTTAsync_createOptions_initializer5"
        (link "../_m_q_t_t_async_8h.html#a0008776a46e7268ccbef4774ce3d4579" 1 "MQTTAsync.h" ∷ [])
    ∷ entry "mqttasync_5fcreatewithoptions_73" "MQTTAsync_createWithOptions"
        (link "../_m_q_t_t_async_8h.html#a78cbe1b851fea48001112f7ba9e4ea62" 1 "MQTTAsync.h" ∷ [])
    ∷ entry "mqttasync_5fdeliverycomplete_74" "MQTTAsync_deliveryComplete"
        (link "../_m_q_t_t_async_8h.html#ab10296618e266b3c02fd117d6616b15d" 1 "MQTTAsync.h" ∷ [])
    ∷ entry "mqttasync_5fdestroy_75" "MQTTAsync_destroy"
        (link "../_m_q_t_t_async_8h.html#ad5562f9dc71fbd93d25ad20b328cb887" 1 "MQTTAsync.h" ∷ [])
    ∷ []

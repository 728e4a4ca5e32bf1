-- ===== src/Site/Index/All3.antt =====
-- docs/MQTTAsync/html/search: all_9.js.
use paho_mqtt_c.Common.{List, [], ◌∷◌}
use paho_mqtt_c.Site.Index.{Entry, link, entry}

abbrev pub all_9_part2 : List Entry
all_9_part2 =
    entry "mqttasync_5fdisconnect_76" "MQTTAsync_disconnect"
      (link "../_m_q_t_t_async_8h.html#adc69afa4725f8321bdaa5a05aec5cfd5" 1 "MQTTAsync.h" ∷ [])
    ∷ entry "mqttasync_5fdisconnected_77" "MQTTASYNC_DISCONNECTED"
        (link "../_m_q_t_t_async_8h.html#a66c0f30b329bc770145c2f04b3929df6" 1 "MQTTAsync.h" ∷ [])
    ∷ entry "mqttasync_5fdisconnected_78" "MQTTAsync_disconnected"
        (link "../_m_q_t_t_async_8h.html#a52a1d9ab6e5d5064a3de42d0eec88f57" 1 "MQTTAsync.h" ∷ [])
    ∷ entry "mqttasync_5fdisconnectoptions_79" "MQTTAsync_disconnectOptions"
        (link "../struct_m_q_t_t_async__disconnect_options.html" 1 "" ∷ [])
    ∷ entry "mqttasync_5fdisconnectoptions_5finitializer_80"
        "MQTTAsync_disconnectOptions_initializer"
        (link "../_m_q_t_t_async_8h.html#a2fd5d6df31928ae468f3f2e522b9c707" 1 "MQTTAsync.h" ∷ [])
    ∷ entry "mqttasync_5fdisconnectoptions_5finitializer5_81"
        "MQTTAsync_disconnectOptions_initializer5"
        (link "../_m_q_t_t_async_8h.html#aaa278001953dc129003eff83c8e7b3db" 1 "MQTTAsync.h" ∷ [])
    ∷ entry "mqttasync_5ffailure_82" "MQTTASYNC_FAILURE"
        (link "../_m_q_t_t_async_8h.html#a7c8230fef85fc04b8a1035501f3be406" 1 "MQTTAsync.h" ∷ [])
    ∷ entry "mqttasync_5ffailuredata_83" "MQTTAsync_failureData"
        (link "../struct_m_q_t_t_async__failure_data.html" 1 "" ∷ [])
    ∷ entry "mqttasync_5ffailuredata5_84" "MQTTAsync_failureData5"
        (link "../struct_m_q_t_t_async__failure_data5.html" 1 "" ∷ [])
    ∷ entry "mqttasync_5ffailuredata5_5finitializer_85" "MQTTAsync_failureData5_initializer"
        (link "../_m_q_t_t_async_8h.html#a53ce2002ae2c2579575bb41c48c51c29" 1 "MQTTAsync.h" ∷ [])
    ∷ entry "mqttasync_5ffree_86" "MQTTAsync_free"
        (link "../_m_q_t_t_async_8h.html#a2b836f58612a2c4627e40ae848da190d" 1 "MQTTAsync.h" ∷ [])
    ∷ entry "mqttasync_5ffreemessage_87" "MQTTAsync_freeMessage"
        (link "../_m_q_t_t_async_8h.html#a9b45db63052fe29ab1fad22d2a00c91c" 1 "MQTTAsync.h" ∷ [])
    ∷ entry "mqttasync_5fgetpendingtokens_88" "MQTTAsync_getPendingTokens"
        (link "../_m_q_t_t_async_8h.html#abc92f60743fc471643b473abbc987be0" 1 "MQTTAsync.h" ∷ [])
    ∷ entry "mqttasync_5fgetversioninfo_89" "MQTTAsync_getVersionInfo"
        (link "../_m_q_t_t_async_8h.html#a7cf29b785a1d4ff1de2e67e2f916b658" 1 "MQTTAsync.h" ∷ [])
    ∷ entry "mqttasync_5fglobal_5finit_90" "MQTTAsync_global_init"
        (link "../_m_q_t_t_async_8h.html#a1705e75a48999cb45bf85c15608478f5" 1 "MQTTAsync.h" ∷ [])
    ∷ entry "mqttasync_5finit_5foptions_91" "MQTTAsync_init_options"
        (link "../struct_m_q_t_t_async__init__options.html" 1 "" ∷ [])
    ∷ entry "mqttasync_5finit_5foptions_5finitializer_92" "MQTTAsync_init_options_initializer"
        (link "../_m_q_t_t_async_8h.html#a866e023f70141969d48597930c0ee313" 1 "MQTTAsync.h" ∷ [])
    ∷ entry "mqttasync_5fiscomplete_93" "MQTTAsync_isComplete"
        (link "../_m_q_t_t_async_8h.html#ab207095cab6f9a48b52cdb593b8456f4" 1 "MQTTAsync.h" ∷ [])
    ∷ entry "mqttasync_5fisconnected_94" "MQTTAsync_isConnected"
        (link "../_m_q_t_t_async_8h.html#a46c332245c379629ae11f457fc179457" 1 "MQTTAsync.h" ∷ [])
    ∷ entry "mqttasync_5fmalloc_95" "MQTTAsync_malloc"
        (link "../_m_q_t_t_async_8h.html#af5500ba58592afafaade2fcabdc61e61" 1 "MQTTAsync.h" ∷ [])
    ∷ entry "mqttasync_5fmax_5fbuffered_96" "MQTTASYNC_MAX_BUFFERED"
        (link "../_m_q_t_t_async_8h.html#a2efee8e190e2c3690c680bde060f78ab" 1 "MQTTAsync.h" ∷ [])
    ∷ entry "mqttasync_5fmax_5fbuffered_5fmessages_97" "MQTTASYNC_MAX_BUFFERED_MESSAGES"
        (link "../_m_q_t_t_async_8h.html#a4e338072cfd5291b579e4f0c99a6e773" 1 "MQTTAsync.h" ∷ [])
    ∷ entry "mqttasync_5fmax_5fmessages_5finflight_98" "MQTTASYNC_MAX_MESSAGES_INFLIGHT"
        (link "../_m_q_t_t_async_8h.html#ad577286d43c72fbc49818aac42f4e24a" 1 "MQTTAsync.h" ∷ [])
    ∷ entry "mqttasync_5fmessage_99" "MQTTAsync_message"
        (link "../struct_m_q_t_t_async__message.html" 1 "" ∷ [])
    ∷ entry "mqttasync_5fmessage_5finitializer_100" "MQTTAsync_message_initializer"
        (link "../_m_q_t_t_async_8h.html#a6a85061dadab532f28e96e5ab3c600e9" 1 "MQTTAsync.h" ∷ [])
    ∷ entry "mqttasync_5fmessagearrived_101" "MQTTAsync_messageArrived"
        (link "../_m_q_t_t_async_8h.html#a3918ead59b56816a8d7544def184e48e" 1 "MQTTAsync.h" ∷ [])
    ∷ entry "mqttasync_5fnamevalue_102" "MQTTAsync_nameValue"
        (link "../struct_m_q_t_t_async__name_value.html" 1 "" ∷ [])
    ∷ entry "mqttasync_5fno_5fmore_5fmsgids_103" "MQTTASYNC_NO_MORE_MSGIDS"
        (link "../_m_q_t_t_async_8h.html#ab0f54d0bae2c74849022a8009e5d6ff7" 1 "MQTTAsync.h" ∷ [])
    ∷ entry "mqttasync_5fnull_5fparameter_104" "MQTTASYNC_NULL_PARAMETER"
        (link "../_m_q_t_t_async_8h.html#ab88e1ebcee991099a72429e52a8253fd" 1 "MQTTAsync.h" ∷ [])
    ∷ entry "mqttasync_5fonfailure_105" "MQTTAsync_onFailure"
        (link "../_m_q_t_t_async_8h.html#a6060c25c2641e878803aef76fefb31ee" 1 "MQTTAsync.h" ∷ [])
    ∷ entry "mqttasync_5fonfailure5_106" "MQTTAsync_onFailure5"
        (link "../_m_q_t_t_async_8h.html#a8c5023e04d5c3e9805d5dae76df21f4c" 1 "MQTTAsync.h" ∷ [])
    ∷ entry "mqttasync_5fonsuccess_107" "MQTTAsync_onSuccess"
        (link "../_m_q_t_t_async_8h.html#a7b0c18a0e29e2ce73f3ea109bc32617b" 1 "MQTTAsync.h" ∷ [])
    ∷ entry "mqttasync_5fonsuccess5_108" "MQTTAsync_onSuccess5"
        (link "../_m_q_t_t_async_8h.html#a892cf122e6e8d8f6cd38c4c8efe8fb67" 1 "MQTTAsync.h" ∷ [])
    ∷ entry "mqttasync_5foperation_5fincomplete_109" "MQTTASYNC_OPERATION_INCOMPLETE"
        (link "../_m_q_t_t_async_8h.html#aee1b79d0632bec0fe49eb7ea1abd3b2e" 1 "MQTTAsync.h" ∷ [])
    ∷ entry "mqttasync_5fpersistence_5ferror_110" "MQTTASYNC_PERSISTENCE_ERROR"
        (link "../_m_q_t_t_async_8h.html#a4edf1249c75abd4975fec8ddeae2cdc9" 1 "MQTTAsync.h" ∷ [])
    ∷ entry "mqttasync_5freconnect_111" "MQTTAsync_reconnect"
        (link "../_m_q_t_t_async_8h.html#abd3ea01869b89ff23f9522640479c395" 1 "MQTTAsync.h" ∷ [])
    ∷ entry "mqttasync_5fresponseoptions_112" "MQTTAsync_responseOptions" (
        link "../struct_m_q_t_t_async__response_options.html" 1 "MQTTAsync_responseOptions"
        ∷ link "../_m_q_t_t_async_8h.html#ae1568d96d6418004cc79466c06f3d791" 1
            "MQTTAsync_responseOptions():&#160;MQTTAsync.h"
        ∷ [])
    ∷ entry "mqttasync_5fresponseoptions_5finitializer_113" "MQTTAsync_responseOptions_initializer"
        (link "../_m_q_t_t_async_8h.html#a3f8b408243b5c2369bc9758f2edf0878" 1 "MQTTAsync.h" ∷ [])
    ∷ entry "mqttasync_5fsend_114" "MQTTAsync_send"
        (link "../_m_q_t_t_async_8h.html#a63c66a311ab16239a4175ff671871bf2" 1 "MQTTAsync.h" ∷ [])
    ∷ entry "mqttasync_5fsendmessage_115" "MQTTAsync_sendMessage"
        (link "../_m_q_t_t_async_8h.html#a5687171e67e98f9ea590c9e3b64cde18" 1 "MQTTAsync.h" ∷ [])
    ∷ []

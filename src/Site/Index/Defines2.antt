-- ===== src/Site/Index/Defines2.antt =====
-- docs/MQTTAsync/html/search: defines_0.js to pages_5.js.
use paho_mqtt_c.Common.{List, [], ◌∷◌}
use paho_mqtt_c.Site.Index.{Entry, link, entry}

abbrev pub defines_0_part2 : List Entry
defines_0_part2 =
    entry "mqttasync_5ftopicname_5ftruncated_685" "MQTTASYNC_TOPICNAME_TRUNCATED"
      (link "../_m_q_t_t_async_8h.html#a77a7106d97ff60be3fe70f90b1867800" 1 "MQTTAsync.h" ∷ [])
    ∷ entry "mqttasync_5ftrue_686" "MQTTASYNC_TRUE"
        (link "../_m_q_t_t_async_8h.html#a61e6ee632e63312d382e2fcbe427f01a" 1 "MQTTAsync.h" ∷ [])
    ∷ entry "mqttasync_5fwilloptions_5finitializer_687" "MQTTAsync_willOptions_initializer"
        (link "../_m_q_t_t_async_8h.html#a6c45768e1b28844f2ac0f6ac68709730" 1 "MQTTAsync.h" ∷ [])
    ∷ entry "mqttasync_5fwrong_5fmqtt_5fversion_688" "MQTTASYNC_WRONG_MQTT_VERSION"
        (link "../_m_q_t_t_async_8h.html#af5df806e9767e1e3182fe089a8ee551b" 1 "MQTTAsync.h" ∷ [])
    ∷ entry "mqttclient_5fpersistence_5fdefault_689" "MQTTCLIENT_PERSISTENCE_DEFAULT" (
        link "../_m_q_t_t_client_persistence_8h.html#aaa948291718a9c06369b854b0f64bc32" 1
          "MQTTClientPersistence.h"
        ∷ [])
    ∷ entry "mqttclient_5fpersistence_5ferror_690" "MQTTCLIENT_PERSISTENCE_ERROR" (
        link "../_m_q_t_t_client_persistence_8h.html#ab716e21e53c84a5ad62aa962a2a8f7db" 1
          "MQTTClientPersistence.h"
        ∷ [])
    ∷ entry "mqttclient_5fpersistence_5fnone_691" "MQTTCLIENT_PERSISTENCE_NONE" (
        link "../_m_q_t_t_client_persistence_8h.html#ae01e089313a65ac4661ed216b6ac00fa" 1
          "MQTTClientPersistence.h"
        ∷ [])
    ∷ entry "mqttclient_5fpersistence_5fuser_692" "MQTTCLIENT_PERSISTENCE_USER" (
        link "../_m_q_t_t_client_persistence_8h.html#a5dc68b8616e4041e037bad94ce07681b" 1
          "MQTTClientPersistence.h"
        ∷ [])
    ∷ entry "mqttproperties_5finitializer_693" "MQTTProperties_initializer" (
        link "../_m_q_t_t_properties_8h.html#a5a80e158486a414ccdfcdd7f75f23988" 1 "MQTTProperties.h"
        ∷ [])
    ∷ entry "mqttsubscribe_5foptions_5finitializer_694" "MQTTSubscribe_options_initializer" (
        link "../_m_q_t_t_subscribe_opts_8h.html#aec3b45fd0367106eea344396f87cfda7" 1
          "MQTTSubscribeOpts.h"
        ∷ [])
    ∷ entry "mqttversion_5f3_5f1_695" "MQTTVERSION_3_1"
        (link "../_m_q_t_t_async_8h.html#a4603b988e76872e1f23f135d225ce2fb" 1 "MQTTAsync.h" ∷ [])
    ∷ entry "mqttversion_5f3_5f1_5f1_696" "MQTTVERSION_3_1_1"
        (link "../_m_q_t_t_async_8h.html#ac79cc6fdeaa9e3f4ee12c3418898b1ef" 1 "MQTTAsync.h" ∷ [])
    ∷ entry "mqttversion_5f5_697" "MQTTVERSION_5"
        (link "../_m_q_t_t_async_8h.html#af8b176fa4d5b89789767ce972338e1e3" 1 "MQTTAsync.h" ∷ [])
    ∷ entry "mqttversion_5fdefault_698" "MQTTVERSION_DEFAULT"
        (link "../_m_q_t_t_async_8h.html#a75b80b01f98d5a1ffa2a4d42995a8397" 1 "MQTTAsync.h" ∷ [])
    ∷ []

abbrev pub pages_0 : List Entry
pages_0 =
    entry "asynchronous_20mqtt_20client_20library_20for_20c_20_28mqttasync_29_699"
      "Asynchronous MQTT client library for C (MQTTAsync)" (link "../index.html" 1 "" ∷ [])
    ∷ entry "automatic_20reconnect_700" "Automatic Reconnect"
        (link "../auto_reconnect.html" 1 "" ∷ [])
    ∷ []

abbrev pub pages_1 : List Entry
pages_1 = entry "callbacks_701" "Callbacks" (link "../callbacks.html" 1 "" ∷ []) ∷ []

abbrev pub pages_2 : List Entry
pages_2 =
    entry "publication_20example_702" "Publication example" (link "../publish.html" 1 "" ∷ [])
    ∷ entry "publish_20while_20disconnected_703" "Publish While Disconnected"
        (link "../offline_publish.html" 1 "" ∷ [])
    ∷ []

abbrev pub pages_3 : List Entry
pages_3 =
    entry "quality_20of_20service_704" "Quality of service" (link "../qos.html" 1 "" ∷ []) ∷ []

abbrev pub pages_4 : List Entry
pages_4 =
    entry "subscription_20example_705" "Subscription example" (link "../subscribe.html" 1 "" ∷ [])
    ∷ entry "subscription_20wildcards_706" "Subscription wildcards"
        (link "../wildcard.html" 1 "" ∷ [])
    ∷ []

abbrev pub pages_5 : List Entry
pages_5 =
    entry "threading_707" "Threading" (link "../async.html" 1 "" ∷ [])
    ∷ entry "tracing_708" "Tracing" (link "../tracing.html" 1 "" ∷ [])
    ∷ []

-- ===== src/Site/Index/Typedefs1.antt =====
-- docs/MQTTAsync/html/search: typedefs_0.js to enums_0.js.
use paho_mqtt_c.Common.{List, [], ◌∷◌}
use paho_mqtt_c.Site.Index.{Entry, link, entry}

abbrev pub typedefs_0 : List Entry
typedefs_0 =
    entry "mqttasync_528" "MQTTAsync"
      (link "../_m_q_t_t_async_8h.html#a0db1d736cdc0c864fe41abb3afd605bd" 1 "MQTTAsync.h" ∷ [])
    ∷ entry "mqttasync_5fcalloptions_529" "MQTTAsync_callOptions"
        (link "../_m_q_t_t_async_8h.html#ab6bfa6beae93c259220e1a131ba1cf9c" 1 "MQTTAsync.h" ∷ [])
    ∷ entry "mqttasync_5fconnected_530" "MQTTAsync_connected"
        (link "../_m_q_t_t_async_8h.html#a34bb8d321e9d368780b5c832c058f223" 1 "MQTTAsync.h" ∷ [])
    ∷ entry "mqttasync_5fconnectionlost_531" "MQTTAsync_connectionLost"
        (link "../_m_q_t_t_async_8h.html#a3900a98d7b1d58ad6e686bfce298bb6c" 1 "MQTTAsync.h" ∷ [])
    ∷ entry "mqttasync_5fdeliverycomplete_532" "MQTTAsync_deliveryComplete"
        (link "../_m_q_t_t_async_8h.html#ab10296618e266b3c02fd117d6616b15d" 1 "MQTTAsync.h" ∷ [])
    ∷ entry "mqttasync_5fdisconnected_533" "MQTTAsync_disconnected"
        (link "../_m_q_t_t_async_8h.html#a52a1d9ab6e5d5064a3de42d0eec88f57" 1 "MQTTAsync.h" ∷ [])
    ∷ entry "mqttasync_5fmessagearrived_534" "MQTTAsync_messageArrived"
        (link "../_m_q_t_t_async_8h.html#a3918ead59b56816a8d7544def184e48e" 1 "MQTTAsync.h" ∷ [])
    ∷ entry "mqttasync_5fonfailure_535" "MQTTAsync_onFailure"
        (link "../_m_q_t_t_async_8h.html#a6060c25c2641e878803aef76fefb31ee" 1 "MQTTAsync.h" ∷ [])
    ∷ entry "mqttasync_5fonfailure5_536" "MQTTAsync_onFailure5"
        (link "../_m_q_t_t_async_8h.html#a8c5023e04d5c3e9805d5dae76df21f4c" 1 "MQTTAsync.h" ∷ [])
    ∷ entry "mqttasync_5fonsuccess_537" "MQTTAsync_onSuccess"
        (link "../_m_q_t_t_async_8h.html#a7b0c18a0e29e2ce73f3ea109bc32617b" 1 "MQTTAsync.h" ∷ [])
    ∷ entry "mqttasync_5fonsuccess5_538" "MQTTAsync_onSuccess5"
        (link "../_m_q_t_t_async_8h.html#a892cf122e6e8d8f6cd38c4c8efe8fb67" 1 "MQTTAsync.h" ∷ [])
    ∷ entry "mqttasync_5fresponseoptions_539" "MQTTAsync_responseOptions"
        (link "../_m_q_t_t_async_8h.html#ae1568d96d6418004cc79466c06f3d791" 1 "MQTTAsync.h" ∷ [])
    ∷ entry "mqttasync_5ftoken_540" "MQTTAsync_token"
        (link "../_m_q_t_t_async_8h.html#a7ca6d2a1813f2bbd0bc3af2771e46ba4" 1 "MQTTAsync.h" ∷ [])
    ∷ entry "mqttasync_5ftracecallback_541" "MQTTAsync_traceCallback"
        (link "../_m_q_t_t_async_8h.html#a65aba1caeae9b5af5d5b6c5598a75b02" 1 "MQTTAsync.h" ∷ [])
    ∷ entry "mqttasync_5fupdateconnectoptions_542" "MQTTAsync_updateConnectOptions"
        (link "../_m_q_t_t_async_8h.html#a5e44304a2c011a7d61b72c779ad83979" 1 "MQTTAsync.h" ∷ [])
    ∷ entry "mqttpersistence_5fafterread_543" "MQTTPersistence_afterRead" (
        link "../_m_q_t_t_client_persistence_8h.html#af5a966a574c6ad7a35f1ebb7edd5c1c4" 1
          "MQTTClientPersistence.h"
        ∷ [])
    ∷ entry "mqttpersistence_5fbeforewrite_544" "MQTTPersistence_beforeWrite" (
        link "../_m_q_t_t_client_persistence_8h.html#ab865640a1cc53b68622004c5a2d29fae" 1
          "MQTTClientPersistence.h"
        ∷ [])
    ∷ entry "mqttproperties_545" "MQTTProperties" (
        link "../_m_q_t_t_properties_8h.html#a7758f1a5eceb6f46c8540630e39e2fb4" 1 "MQTTProperties.h"
        ∷ [])
    ∷ entry "mqttsubscribe_5foptions_546" "MQTTSubscribe_options" (
        link "../_m_q_t_t_subscribe_opts_8h.html#aa68db3eaed272ae1aaea294401079d8a" 1
          "MQTTSubscribeOpts.h"
        ∷ [])
    ∷ []

abbrev pub typedefs_1 : List Entry
typedefs_1 =
    entry "persistence_5fclear_547" "Persistence_clear" (
      link "../_m_q_t_t_client_persistence_8h.html#acee7097c1a0ab44b98c870f533687887" 1
        "MQTTClientPersistence.h"
      ∷ [])
    ∷ entry "persistence_5fclose_548" "Persistence_close" (
        link "../_m_q_t_t_client_persistence_8h.html#a3582de2c87e89f617e8e553b2a0e279a" 1
          "MQTTClientPersistence.h"
        ∷ [])
    ∷ entry "persistence_5fcontainskey_549" "Persistence_containskey" (
        link "../_m_q_t_t_client_persistence_8h.html#a753a0f9a9c51284d63a907af19c7bbba" 1
          "MQTTClientPersistence.h"
        ∷ [])
    ∷ entry "persistence_5fget_550" "Persistence_get" (
        link "../_m_q_t_t_client_persistence_8h.html#adc3aff3c570fa5509e9d6814a85ab867" 1
          "MQTTClientPersistence.h"
        ∷ [])
    ∷ entry "persistence_5fkeys_551" "Persistence_keys" (
        link "../_m_q_t_t_client_persistence_8h.html#a2601cc91eeabdbf9578f8dd45e4997a8" 1
          "MQTTClientPersistence.h"
        ∷ [])
    ∷ entry "persistence_5fopen_552" "Persistence_open" (
        link "../_m_q_t_t_client_persistence_8h.html#a4c7d332bb16907058ae3b375488b6008" 1
          "MQTTClientPersistence.h"
        ∷ [])
    ∷ entry "persistence_5fput_553" "Persistence_put" (
        link "../_m_q_t_t_client_persistence_8h.html#a44679cab77cfbd6e2a4639cdd27ac80c" 1
          "MQTTClientPersistence.h"
        ∷ [])
    ∷ entry "persistence_5fremove_554" "Persistence_remove" (
        link "../_m_q_t_t_client_persistence_8h.html#a73350bf7208658bf5434a59f7bdbae90" 1
          "MQTTClientPersistence.h"
        ∷ [])
    ∷ []

abbrev pub enums_0 : List Entry
enums_0 =
    entry "mqttasync_5ftrace_5flevels_555" "MQTTASYNC_TRACE_LEVELS"
      (link "../_m_q_t_t_async_8h.html#a5de816f986b318947709a34e0787eda5" 1 "MQTTAsync.h" ∷ [])
    ∷ entry "mqttpropertycodes_556" "MQTTPropertyCodes" (
        link "../_m_q_t_t_properties_8h.html#af623c1b670dfe3fda633c068e054d8b4" 1 "MQTTProperties.h"
        ∷ [])
    ∷ entry "mqttpropertytypes_557" "MQTTPropertyTypes" (
        link "../_m_q_t_t_properties_8h.html#a942f52ef7c232829f6df5c86e07cc958" 1 "MQTTProperties.h"
        ∷ [])
    ∷ entry "mqttreasoncodes_558" "MQTTReasonCodes" (
        link "../_m_q_t_t_reason_codes_8h.html#aba6db0fccfa3f8972ea48117b8b2a279" 1
          "MQTTReasonCodes.h"
        ∷ [])
    ∷ []

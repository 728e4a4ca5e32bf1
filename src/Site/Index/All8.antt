-- ===== src/Site/Index/All8.antt =====
-- docs/MQTTAsync/html/search: all_b.js to all_d.js.
use paho_mqtt_c.Common.{List, [], ◌∷◌}
use paho_mqtt_c.Site.Index.{Entry, link, entry}

abbrev pub all_b : List Entry
all_b =
    entry "onfailure_278" "onFailure" (
      link "../struct_m_q_t_t_async__response_options.html#a09ce26d7cff24e14a6844eaae7b15290" 1
        "MQTTAsync_responseOptions::onFailure()"
      ∷ link "../struct_m_q_t_t_async__connect_options.html#a09ce26d7cff24e14a6844eaae7b15290" 1
          "MQTTAsync_connectOptions::onFailure()"
      ∷ link "../struct_m_q_t_t_async__disconnect_options.html#a09ce26d7cff24e14a6844eaae7b15290" 1
          "MQTTAsync_disconnectOptions::onFailure()"
      ∷ [])
    ∷ entry "onfailure5_279" "onFailure5" (
        link "../struct_m_q_t_t_async__response_options.html#a4dad726f2b6f79ca5847689c5f2f2ec2" 1
          "MQTTAsync_responseOptions::onFailure5()"
        ∷ link "../struct_m_q_t_t_async__connect_options.html#a4dad726f2b6f79ca5847689c5f2f2ec2" 1
            "MQTTAsync_connectOptions::onFailure5()"
        ∷ link "../struct_m_q_t_t_async__disconnect_options.html#a4dad726f2b6f79ca5847689c5f2f2ec2"
            1 "MQTTAsync_disconnectOptions::onFailure5()"
        ∷ [])
    ∷ entry "onsuccess_280" "onSuccess" (
        link "../struct_m_q_t_t_async__response_options.html#ac13fb68f736854fcab131b34756bfceb" 1
          "MQTTAsync_responseOptions::onSuccess()"
        ∷ link "../struct_m_q_t_t_async__connect_options.html#ac13fb68f736854fcab131b34756bfceb" 1
            "MQTTAsync_connectOptions::onSuccess()"
        ∷ link "../struct_m_q_t_t_async__disconnect_options.html#ac13fb68f736854fcab131b34756bfceb"
            1 "MQTTAsync_disconnectOptions::onSuccess()"
        ∷ [])
    ∷ entry "onsuccess5_281" "onSuccess5" (
        link "../struct_m_q_t_t_async__response_options.html#a1c23c490f06428725345de68a4ff0a3e" 1
          "MQTTAsync_responseOptions::onSuccess5()"
        ∷ link "../struct_m_q_t_t_async__connect_options.html#a1c23c490f06428725345de68a4ff0a3e" 1
            "MQTTAsync_connectOptions::onSuccess5()"
        ∷ link "../struct_m_q_t_t_async__disconnect_options.html#a1c23c490f06428725345de68a4ff0a3e"
            1 "MQTTAsync_disconnectOptions::onSuccess5()"
        ∷ [])
    ∷ []

abbrev pub all_c : List Entry
all_c =
    entry "packet_5ftype_282" "packet_type" (
      link "../struct_m_q_t_t_async__failure_data5.html#a38dfee9f038f473c95af46fcef5dd3e9" 1
        "MQTTAsync_failureData5"
      ∷ [])
    ∷ entry "password_283" "password" (
        link "../struct_m_q_t_t_async__connect_options.html#aa4a2ebcb494493f648ae1e6975672575" 1
          "MQTTAsync_connectOptions"
        ∷ [])
    ∷ entry "payload_284" "payload" (
        link "../struct_m_q_t_t_async__message.html#a9eff55064941fb604452abb0050ea99d" 1
          "MQTTAsync_message::payload()"
        ∷ link "../struct_m_q_t_t_async__will_options.html#a93e9de18277b05bc7a033bdee98c908a" 1
            "MQTTAsync_willOptions::payload()"
        ∷ [])
    ∷ entry "payloadlen_285" "payloadlen" (
        link "../struct_m_q_t_t_async__message.html#aa3cb44feb3ae6d11b3a4cad2d94cb33a" 1
          "MQTTAsync_message"
        ∷ [])
    ∷ entry "pclear_286" "pclear" (
        link "../struct_m_q_t_t_client__persistence.html#abc192dc88113c7d933b29d3561badbf5" 1
          "MQTTClient_persistence"
        ∷ [])
    ∷ entry "pclose_287" "pclose" (
        link "../struct_m_q_t_t_client__persistence.html#a7e50506912d2ec0e014cc25ec28fb402" 1
          "MQTTClient_persistence"
        ∷ [])
    ∷ entry "pcontainskey_288" "pcontainskey" (
        link "../struct_m_q_t_t_client__persistence.html#ac103711576267f791325f2b70b6dc49d" 1
          "MQTTClient_persistence"
        ∷ [])
    ∷ entry "persistence_5fclear_289" "Persistence_clear" (
        link "../_m_q_t_t_client_persistence_8h.html#acee7097c1a0ab44b98c870f533687887" 1
          "MQTTClientPersistence.h"
        ∷ [])
    ∷ entry "persistence_5fclose_290" "Persistence_close" (
        link "../_m_q_t_t_client_persistence_8h.html#a3582de2c87e89f617e8e553b2a0e279a" 1
          "MQTTClientPersistence.h"
        ∷ [])
    ∷ entry "persistence_5fcontainskey_291" "Persistence_containskey" (
        link "../_m_q_t_t_client_persistence_8h.html#a753a0f9a9c51284d63a907af19c7bbba" 1
          "MQTTClientPersistence.h"
        ∷ [])
    ∷ entry "persistence_5fget_292" "Persistence_get" (
        link "../_m_q_t_t_client_persistence_8h.html#adc3aff3c570fa5509e9d6814a85ab867" 1
          "MQTTClientPersistence.h"
        ∷ [])
    ∷ entry "persistence_5fkeys_293" "Persistence_keys" (
        link "../_m_q_t_t_client_persistence_8h.html#a2601cc91eeabdbf9578f8dd45e4997a8" 1
          "MQTTClientPersistence.h"
        ∷ [])
    ∷ entry "persistence_5fopen_294" "Persistence_open" (
        link "../_m_q_t_t_client_persistence_8h.html#a4c7d332bb16907058ae3b375488b6008" 1
          "MQTTClientPersistence.h"
        ∷ [])
    ∷ entry "persistence_5fput_295" "Persistence_put" (
        link "../_m_q_t_t_client_persistence_8h.html#a44679cab77cfbd6e2a4639cdd27ac80c" 1
          "MQTTClientPersistence.h"
        ∷ [])
    ∷ entry "persistence_5fremove_296" "Persistence_remove" (
        link "../_m_q_t_t_client_persistence_8h.html#a73350bf7208658bf5434a59f7bdbae90" 1
          "MQTTClientPersistence.h"
        ∷ [])
    ∷ entry "persistqos0_297" "persistQoS0" (
        link "../struct_m_q_t_t_async__create_options.html#a0c3ea2641e188542c787e71e2c521a0b" 1
          "MQTTAsync_createOptions"
        ∷ [])
    ∷ entry "pget_298" "pget" (
        link "../struct_m_q_t_t_client__persistence.html#a49155000b82a28ac3b3cb878f3a092d4" 1
          "MQTTClient_persistence"
        ∷ [])
    ∷ entry "pkeys_299" "pkeys" (
        link "../struct_m_q_t_t_client__persistence.html#a407e86a809e4b0b098a8c158f53b9606" 1
          "MQTTClient_persistence"
        ∷ [])
    ∷ entry "popen_300" "popen" (
        link "../struct_m_q_t_t_client__persistence.html#a1bae211b32415e6b349d5ae71599f9f4" 1
          "MQTTClient_persistence"
        ∷ [])
    ∷ entry "pput_301" "pput" (
        link "../struct_m_q_t_t_client__persistence.html#a4114d9b9971cee18d7e4b9dd5736a608" 1
          "MQTTClient_persistence"
        ∷ [])
    ∷ entry "premove_302" "premove" (
        link "../struct_m_q_t_t_client__persistence.html#a53150e443ca721b8623689371c2fbdb9" 1
          "MQTTClient_persistence"
        ∷ [])
    ∷ entry "privatekey_303" "privateKey" (
        link "../struct_m_q_t_t_async___s_s_l_options.html#a7dd436cbb916fba200595c3519f09ec4" 1
          "MQTTAsync_SSLOptions"
        ∷ [])
    ∷ entry "privatekeypassword_304" "privateKeyPassword" (
        link "../struct_m_q_t_t_async___s_s_l_options.html#abb427571ba37b51f6985f1a6906ca031" 1
          "MQTTAsync_SSLOptions"
        ∷ [])
    ∷ entry "properties_305" "properties" (
        link "../struct_m_q_t_t_async__failure_data5.html#a1594008402f7307e4de8fa6131656dde" 1
          "MQTTAsync_failureData5::properties()"
        ∷ link "../struct_m_q_t_t_async__disconnect_options.html#a1594008402f7307e4de8fa6131656dde"
            1 "MQTTAsync_disconnectOptions::properties()"
        ∷ link "../struct_m_q_t_t_async__response_options.html#a1594008402f7307e4de8fa6131656dde" 1
            "MQTTAsync_responseOptions::properties()"
        ∷ link "../struct_m_q_t_t_async__success_data5.html#a1594008402f7307e4de8fa6131656dde" 1
            "MQTTAsync_successData5::properties()"
        ∷ link "../struct_m_q_t_t_async__message.html#a1594008402f7307e4de8fa6131656dde" 1
            "MQTTAsync_message::properties()"
        ∷ [])
    ∷ entry "protos_306" "protos" (
        link "../struct_m_q_t_t_async___s_s_l_options.html#a4f8661600fb8bacf031150f8dcd293a5" 1
          "MQTTAsync_SSLOptions"
        ∷ [])
    ∷ entry "protos_5flen_307" "protos_len" (
        link "../struct_m_q_t_t_async___s_s_l_options.html#a26f5d839c92f9772c2a5d05486277a42" 1
          "MQTTAsync_SSLOptions"
        ∷ [])
    ∷ entry "pub_308" "pub" (
        link "../struct_m_q_t_t_async__success_data5.html#a5c41c63d6c37acbe3c493279c5d4c44a" 1
          "MQTTAsync_successData5::pub()"
        ∷ link "../struct_m_q_t_t_async__success_data.html#a7f044c3b839c17a8840cd6f00d7a0e90" 1
            "MQTTAsync_successData::pub()"
        ∷ [])
    ∷ entry "publication_20example_309" "Publication example" (link "../publish.html" 1 "" ∷ [])
    ∷ entry "publish_20while_20disconnected_310" "Publish While Disconnected"
        (link "../offline_publish.html" 1 "" ∷ [])
    ∷ []

abbrev pub all_d : List Entry
all_d =
    entry "qos_311" "qos" (
      link "../struct_m_q_t_t_async__message.html#a35738099155a0e4f54050da474bab2e7" 1
        "MQTTAsync_message::qos()"
      ∷ link "../struct_m_q_t_t_async__success_data.html#a35738099155a0e4f54050da474bab2e7" 1
          "MQTTAsync_successData::qos()"
      ∷ link "../struct_m_q_t_t_async__will_options.html#a35738099155a0e4f54050da474bab2e7" 1
          "MQTTAsync_willOptions::qos()"
      ∷ [])
    ∷ entry "qoslist_312" "qosList" (
        link "../struct_m_q_t_t_async__success_data.html#a82786d9ba5cae39873f378a48b36c23b" 1
          "MQTTAsync_successData"
        ∷ [])
    ∷ entry "quality_20of_20service_313" "Quality of service" (link "../qos.html" 1 "" ∷ [])
    ∷ []

-- ===== src/Site/Index/Variables2.antt =====
-- docs/MQTTAsync/html/search: variables_a.js to variables_e.js.
use paho_mqtt_c.Common.{List, [], ◌∷◌}
use paho_mqtt_c.Site.Index.{Entry, link, entry}

abbrev pub variables_a : List Entry
variables_a =
    entry "name_466" "name" (
      link "../struct_m_q_t_t_async__name_value.html#a8f8f80d37794cde9472343e4487ba3eb" 1
        "MQTTAsync_nameValue"
      ∷ [])
    ∷ entry "nolocal_467" "noLocal" (
        link "../struct_m_q_t_t_subscribe__options.html#abbb6a188886c12f305cbe69358515d8b" 1
          "MQTTSubscribe_options"
        ∷ [])
    ∷ []

abbrev pub variables_b : List Entry
variables_b =
    entry "onfailure_468" "onFailure" (
      link "../struct_m_q_t_t_async__response_options.html#a09ce26d7cff24e14a6844eaae7b15290" 1
        "MQTTAsync_responseOptions::onFailure()"
      ∷ link "../struct_m_q_t_t_async__connect_options.html#a09ce26d7cff24e14a6844eaae7b15290" 1
          "MQTTAsync_connectOptions::onFailure()"
      ∷ link "../struct_m_q_t_t_async__disconnect_options.html#a09ce26d7cff24e14a6844eaae7b15290" 1
          "MQTTAsync_disconnectOptions::onFailure()"
      ∷ [])
    ∷ entry "onfailure5_469" "onFailure5" (
        link "../struct_m_q_t_t_async__response_options.html#a4dad726f2b6f79ca5847689c5f2f2ec2" 1
          "MQTTAsync_responseOptions::onFailure5()"
        ∷ link "../struct_m_q_t_t_async__connect_options.html#a4dad726f2b6f79ca5847689c5f2f2ec2" 1
            "MQTTAsync_connectOptions::onFailure5()"
        ∷ link "../struct_m_q_t_t_async__disconnect_options.html#a4dad726f2b6f79ca5847689c5f2f2ec2"
            1 "MQTTAsync_disconnectOptions::onFailure5()"
        ∷ [])
    ∷ entry "onsuccess_470" "onSuccess" (
        link "../struct_m_q_t_t_async__response_options.html#ac13fb68f736854fcab131b34756bfceb" 1
          "MQTTAsync_responseOptions::onSuccess()"
        ∷ link "../struct_m_q_t_t_async__connect_options.html#ac13fb68f736854fcab131b34756bfceb" 1
            "MQTTAsync_connectOptions::onSuccess()"
        ∷ link "../struct_m_q_t_t_async__disconnect_options.html#ac13fb68f736854fcab131b34756bfceb"
            1 "MQTTAsync_disconnectOptions::onSuccess()"
        ∷ [])
    ∷ entry "onsuccess5_471" "onSuccess5" (
        link "../struct_m_q_t_t_async__response_options.html#a1c23c490f06428725345de68a4ff0a3e" 1
          "MQTTAsync_responseOptions::onSuccess5()"
        ∷ link "../struct_m_q_t_t_async__connect_options.html#a1c23c490f06428725345de68a4ff0a3e" 1
            "MQTTAsync_connectOptions::onSuccess5()"
        ∷ link "../struct_m_q_t_t_async__disconnect_options.html#a1c23c490f06428725345de68a4ff0a3e"
            1 "MQTTAsync_disconnectOptions::onSuccess5()"
        ∷ [])
    ∷ []

abbrev pub variables_c : List Entry
variables_c =
    entry "packet_5ftype_472" "packet_type" (
      link "../struct_m_q_t_t_async__failure_data5.html#a38dfee9f038f473c95af46fcef5dd3e9" 1
        "MQTTAsync_failureData5"
      ∷ [])
    ∷ entry "password_473" "password" (
        link "../struct_m_q_t_t_async__connect_options.html#aa4a2ebcb494493f648ae1e6975672575" 1
          "MQTTAsync_connectOptions"
        ∷ [])
    ∷ entry "payload_474" "payload" (
        link "../struct_m_q_t_t_async__message.html#a9eff55064941fb604452abb0050ea99d" 1
          "MQTTAsync_message::payload()"
        ∷ link "../struct_m_q_t_t_async__will_options.html#a93e9de18277b05bc7a033bdee98c908a" 1
            "MQTTAsync_willOptions::payload()"
        ∷ [])
    ∷ entry "payloadlen_475" "payloadlen" (
        link "../struct_m_q_t_t_async__message.html#aa3cb44feb3ae6d11b3a4cad2d94cb33a" 1
          "MQTTAsync_message"
        ∷ [])
    ∷ entry "pclear_476" "pclear" (
        link "../struct_m_q_t_t_client__persistence.html#abc192dc88113c7d933b29d3561badbf5" 1
          "MQTTClient_persistence"
        ∷ [])
    ∷ entry "pclose_477" "pclose" (
        link "../struct_m_q_t_t_client__persistence.html#a7e50506912d2ec0e014cc25ec28fb402" 1
          "MQTTClient_persistence"
        ∷ [])
    ∷ entry "pcontainskey_478" "pcontainskey" (
        link "../struct_m_q_t_t_client__persistence.html#ac103711576267f791325f2b70b6dc49d" 1
          "MQTTClient_persistence"
        ∷ [])
    ∷ entry "persistqos0_479" "persistQoS0" (
        link "../struct_m_q_t_t_async__create_options.html#a0c3ea2641e188542c787e71e2c521a0b" 1
          "MQTTAsync_createOptions"
        ∷ [])
    ∷ entry "pget_480" "pget" (
        link "../struct_m_q_t_t_client__persistence.html#a49155000b82a28ac3b3cb878f3a092d4" 1
          "MQTTClient_persistence"
        ∷ [])
    ∷ entry "pkeys_481" "pkeys" (
        link "../struct_m_q_t_t_client__persistence.html#a407e86a809e4b0b098a8c158f53b9606" 1
          "MQTTClient_persistence"
        ∷ [])
    ∷ entry "popen_482" "popen" (
        link "../struct_m_q_t_t_client__persistence.html#a1bae211b32415e6b349d5ae71599f9f4" 1
          "MQTTClient_persistence"
        ∷ [])
    ∷ entry "pput_483" "pput" (
        link "../struct_m_q_t_t_client__persistence.html#a4114d9b9971cee18d7e4b9dd5736a608" 1
          "MQTTClient_persistence"
        ∷ [])
    ∷ entry "premove_484" "premove" (
        link "../struct_m_q_t_t_client__persistence.html#a53150e443ca721b8623689371c2fbdb9" 1
          "MQTTClient_persistence"
        ∷ [])
    ∷ entry "privatekey_485" "privateKey" (
        link "../struct_m_q_t_t_async___s_s_l_options.html#a7dd436cbb916fba200595c3519f09ec4" 1
          "MQTTAsync_SSLOptions"
        ∷ [])
    ∷ entry "privatekeypassword_486" "privateKeyPassword" (
        link "../struct_m_q_t_t_async___s_s_l_options.html#abb427571ba37b51f6985f1a6906ca031" 1
          "MQTTAsync_SSLOptions"
        ∷ [])
    ∷ entry "properties_487" "properties" (
        link "../struct_m_q_t_t_async__message.html#a1594008402f7307e4de8fa6131656dde" 1
          "MQTTAsync_message::properties()"
        ∷ link "../struct_m_q_t_t_async__failure_data5.html#a1594008402f7307e4de8fa6131656dde" 1
            "MQTTAsync_failureData5::properties()"
        ∷ link "../struct_m_q_t_t_async__success_data5.html#a1594008402f7307e4de8fa6131656dde" 1
            "MQTTAsync_successData5::properties()"
        ∷ link "../struct_m_q_t_t_async__response_options.html#a1594008402f7307e4de8fa6131656dde" 1
            "MQTTAsync_responseOptions::properties()"
        ∷ link "../struct_m_q_t_t_async__disconnect_options.html#a1594008402f7307e4de8fa6131656dde"
            1 "MQTTAsync_disconnectOptions::properties()"
        ∷ [])
    ∷ entry "protos_488" "protos" (
        link "../struct_m_q_t_t_async___s_s_l_options.html#a4f8661600fb8bacf031150f8dcd293a5" 1
          "MQTTAsync_SSLOptions"
        ∷ [])
    ∷ entry "protos_5flen_489" "protos_len" (
        link "../struct_m_q_t_t_async___s_s_l_options.html#a26f5d839c92f9772c2a5d05486277a42" 1
          "MQTTAsync_SSLOptions"
        ∷ [])
    ∷ entry "pub_490" "pub" (
        link "../struct_m_q_t_t_async__success_data.html#a7f044c3b839c17a8840cd6f00d7a0e90" 1
          "MQTTAsync_successData::pub()"
        ∷ link "../struct_m_q_t_t_async__success_data5.html#a5c41c63d6c37acbe3c493279c5d4c44a" 1
            "MQTTAsync_successData5::pub()"
        ∷ [])
    ∷ []

abbrev pub variables_d : List Entry
variables_d =
    entry "qos_491" "qos" (
      link "../struct_m_q_t_t_async__message.html#a35738099155a0e4f54050da474bab2e7" 1
        "MQTTAsync_message::qos()"
      ∷ link "../struct_m_q_t_t_async__success_data.html#a35738099155a0e4f54050da474bab2e7" 1
          "MQTTAsync_successData::qos()"
      ∷ link "../struct_m_q_t_t_async__will_options.html#a35738099155a0e4f54050da474bab2e7" 1
          "MQTTAsync_willOptions::qos()"
      ∷ [])
    ∷ entry "qoslist_492" "qosList" (
        link "../struct_m_q_t_t_async__success_data.html#a82786d9ba5cae39873f378a48b36c23b" 1
          "MQTTAsync_successData"
        ∷ [])
    ∷ []

abbrev pub variables_e : List Entry
variables_e =
    entry "reasoncode_493" "reasonCode" (
      link "../struct_m_q_t_t_async__failure_data5.html#a580d8a8ecb285f5a86c2a3865438f8ee" 1
        "MQTTAsync_failureData5::reasonCode()"
      ∷ link "../struct_m_q_t_t_async__success_data5.html#a580d8a8ecb285f5a86c2a3865438f8ee" 1
          "MQTTAsync_successData5::reasonCode()"
      ∷ link "../struct_m_q_t_t_async__disconnect_options.html#a580d8a8ecb285f5a86c2a3865438f8ee" 1
          "MQTTAsync_disconnectOptions::reasonCode()"
      ∷ [])
    ∷ entry "reasoncodecount_494" "reasonCodeCount" (
        link "../struct_m_q_t_t_async__success_data5.html#ac97316626bd4faa6b71277c221275f4b" 1
          "MQTTAsync_successData5"
        ∷ [])
    ∷ entry "reasoncodes_495" "reasonCodes" (
        link "../struct_m_q_t_t_async__success_data5.html#a2199c9d905dbfa279895cf8123c10f4f" 1
          "MQTTAsync_successData5"
        ∷ [])
    ∷ entry "restoremessages_496" "restoreMessages" (
        link "../struct_m_q_t_t_async__create_options.html#a231b8890c3bc2ea07f7c599896f30691" 1
          "MQTTAsync_createOptions"
        ∷ [])
    ∷ entry "retainaspublished_497" "retainAsPublished" (
        link "../struct_m_q_t_t_subscribe__options.html#a8ba074ad218224ee4a8ca802c5e36944" 1
          "MQTTSubscribe_options"
        ∷ [])
    ∷ entry "retained_498" "retained" (
        link "../struct_m_q_t_t_async__message.html#a6a4904c112507a43e7dc8495b62cc0fc" 1
          "MQTTAsync_message::retained()"
        ∷ link "../struct_m_q_t_t_async__will_options.html#a6a4904c112507a43e7dc8495b62cc0fc" 1
            "MQTTAsync_willOptions::retained()"
        ∷ [])
    ∷ entry "retainhandling_499" "retainHandling" (
        link "../struct_m_q_t_t_subscribe__options.html#a11f17b62e40ecdfe107101ae164367a3" 1
          "MQTTSubscribe_options"
        ∷ [])
    ∷ entry "retryinterval_500" "retryInterval" (
        link "../struct_m_q_t_t_async__connect_options.html#ac73f57846c42bcaa9a47e6721a957748" 1
          "MQTTAsync_connectOptions"
        ∷ [])
    ∷ []

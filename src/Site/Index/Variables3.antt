-- ===== src/Site/Index/Variables3.antt =====
-- docs/MQTTAsync/html/search: variables_f.js to variables_13.js.
use paho_mqtt_c.Common.{List, [], ◌∷◌}
use paho_mqtt_c.Site.Index.{Entry, link, entry}

abbrev pub variables_f : List Entry
variables_f =
    entry "sendwhiledisconnected_501" "sendWhileDisconnected" (
      link "../struct_m_q_t_t_async__create_options.html#a078cd68d8f896ce7eac0cc83d4486a2c" 1
        "MQTTAsync_createOptions"
      ∷ [])
    ∷ entry "serveruri_502" "serverURI" (
        link "../struct_m_q_t_t_async__success_data.html#a95309fdf27015b12bc4adf56306e557b" 1
          "MQTTAsync_successData::serverURI()"
        ∷ link "../struct_m_q_t_t_async__success_data5.html#a95309fdf27015b12bc4adf56306e557b" 1
            "MQTTAsync_successData5::serverURI()"
        ∷ [])
    ∷ entry "serveruricount_503" "serverURIcount" (
        link "../struct_m_q_t_t_async__connect_options.html#aa82629005937abd92e97084a428cd61f" 1
          "MQTTAsync_connectOptions"
        ∷ [])
    ∷ entry "serveruris_504" "serverURIs" (
        link "../struct_m_q_t_t_async__connect_options.html#aba22d81c407fb2ba590dba476240d3e9" 1
          "MQTTAsync_connectOptions"
        ∷ [])
    ∷ entry "sessionpresent_505" "sessionPresent" (
        link "../struct_m_q_t_t_async__success_data.html#a44baf2cb9a0bbcec3ed2eace43f832d1" 1
          "MQTTAsync_successData::sessionPresent()"
        ∷ link "../struct_m_q_t_t_async__success_data5.html#a44baf2cb9a0bbcec3ed2eace43f832d1" 1
            "MQTTAsync_successData5::sessionPresent()"
        ∷ [])
    ∷ entry "ssl_506" "ssl" (
        link "../struct_m_q_t_t_async__connect_options.html#a86fd59846f3ba2082fd99906c6b496a6" 1
          "MQTTAsync_connectOptions"
        ∷ [])
    ∷ entry "ssl_5ferror_5fcb_507" "ssl_error_cb" (
        link "../struct_m_q_t_t_async___s_s_l_options.html#a21b6ca8a73ba197e65f6a93365d39c04" 1
          "MQTTAsync_SSLOptions"
        ∷ [])
    ∷ entry "ssl_5ferror_5fcontext_508" "ssl_error_context" (
        link "../struct_m_q_t_t_async___s_s_l_options.html#a189f11195f4d5a70024adffdb050885f" 1
          "MQTTAsync_SSLOptions"
        ∷ [])
    ∷ entry "ssl_5fpsk_5fcb_509" "ssl_psk_cb" (
        link "../struct_m_q_t_t_async___s_s_l_options.html#a94317cdaf352f9ae496976f8a30f8fee" 1
          "MQTTAsync_SSLOptions"
        ∷ [])
    ∷ entry "ssl_5fpsk_5fcontext_510" "ssl_psk_context" (
        link "../struct_m_q_t_t_async___s_s_l_options.html#ab7f597518dd5b9db5a515081f8e0bd1f" 1
          "MQTTAsync_SSLOptions"
        ∷ [])
    ∷ entry "sslversion_511" "sslVersion" (
        link "../struct_m_q_t_t_async___s_s_l_options.html#a3543ea1481b68d73cdde833280bb9c45" 1
          "MQTTAsync_SSLOptions"
        ∷ [])
    ∷ entry "struct_5fid_512" "struct_id" (
        link "../struct_m_q_t_t_subscribe__options.html#aa5326df180cb23c59afbcab711a06479" 1
          "MQTTSubscribe_options::struct_id()"
        ∷ link "../struct_m_q_t_t_async__disconnect_options.html#aa5326df180cb23c59afbcab711a06479"
            1 "MQTTAsync_disconnectOptions::struct_id()"
        ∷ link "../struct_m_q_t_t_async__connect_options.html#aa5326df180cb23c59afbcab711a06479" 1
            "MQTTAsync_connectOptions::struct_id()"
        ∷ link "../struct_m_q_t_t_async___s_s_l_options.html#aa5326df180cb23c59afbcab711a06479" 1
            "MQTTAsync_SSLOptions::struct_id()"
        ∷ link "../struct_m_q_t_t_async__will_options.html#aa5326df180cb23c59afbcab711a06479" 1
            "MQTTAsync_willOptions::struct_id()"
        ∷ link "../struct_m_q_t_t_async__create_options.html#aa5326df180cb23c59afbcab711a06479" 1
            "MQTTAsync_createOptions::struct_id()"
        ∷ link "../struct_m_q_t_t_async__success_data5.html#aa5326df180cb23c59afbcab711a06479" 1
            "MQTTAsync_successData5::struct_id()"
        ∷ link "../struct_m_q_t_t_async__failure_data5.html#aa5326df180cb23c59afbcab711a06479" 1
            "MQTTAsync_failureData5::struct_id()"
        ∷ link "../struct_m_q_t_t_async__connect_data.html#aa5326df180cb23c59afbcab711a06479" 1
            "MQTTAsync_connectData::struct_id()"
        ∷ link "../struct_m_q_t_t_async__message.html#aa5326df180cb23c59afbcab711a06479" 1
            "MQTTAsync_message::struct_id()"
        ∷ link "../struct_m_q_t_t_async__init__options.html#aa5326df180cb23c59afbcab711a06479" 1
            "MQTTAsync_init_options::struct_id()"
        ∷ link "../struct_m_q_t_t_async__response_options.html#aa5326df180cb23c59afbcab711a06479" 1
            "MQTTAsync_responseOptions::struct_id()"
        ∷ [])
    ∷ entry "struct_5fversion_513" "struct_version" (
        link "../struct_m_q_t_t_async__response_options.html#a0761a5e5be0383882e42924de8e51f82" 1
          "MQTTAsync_responseOptions::struct_version()"
        ∷ link "../struct_m_q_t_t_subscribe__options.html#a0761a5e5be0383882e42924de8e51f82" 1
            "MQTTSubscribe_options::struct_version()"
        ∷ link "../struct_m_q_t_t_async__disconnect_options.html#a0761a5e5be0383882e42924de8e51f82"
            1 "MQTTAsync_disconnectOptions::struct_version()"
        ∷ link "../struct_m_q_t_t_async__connect_options.html#a0761a5e5be0383882e42924de8e51f82" 1
            "MQTTAsync_connectOptions::struct_version()"
        ∷ link "../struct_m_q_t_t_async___s_s_l_options.html#a0761a5e5be0383882e42924de8e51f82" 1
            "MQTTAsync_SSLOptions::struct_version()"
        ∷ link "../struct_m_q_t_t_async__will_options.html#a0761a5e5be0383882e42924de8e51f82" 1
            "MQTTAsync_willOptions::struct_version()"
        ∷ link "../struct_m_q_t_t_async__create_options.html#a0761a5e5be0383882e42924de8e51f82" 1
            "MQTTAsync_createOptions::struct_version()"
        ∷ link "../struct_m_q_t_t_async__success_data5.html#a0761a5e5be0383882e42924de8e51f82" 1
            "MQTTAsync_successData5::struct_version()"
        ∷ link "../struct_m_q_t_t_async__failure_data5.html#a0761a5e5be0383882e42924de8e51f82" 1
            "MQTTAsync_failureData5::struct_version()"
        ∷ link "../struct_m_q_t_t_async__connect_data.html#a0761a5e5be0383882e42924de8e51f82" 1
            "MQTTAsync_connectData::struct_version()"
        ∷ link "../struct_m_q_t_t_async__message.html#a0761a5e5be0383882e42924de8e51f82" 1
            "MQTTAsync_message::struct_version()"
        ∷ link "../struct_m_q_t_t_async__init__options.html#a0761a5e5be0383882e42924de8e51f82" 1
            "MQTTAsync_init_options::struct_version()"
        ∷ [])
    ∷ entry "sub_514" "sub" (
        link "../struct_m_q_t_t_async__success_data5.html#a26c7d90bad0e00a056dff117b9111346" 1
          "MQTTAsync_successData5"
        ∷ [])
    ∷ entry "subscribeoptions_515" "subscribeOptions" (
        link "../struct_m_q_t_t_async__response_options.html#a16a3cd2a8c69669e9ed6e420ccd9c517" 1
          "MQTTAsync_responseOptions"
        ∷ [])
    ∷ entry "subscribeoptionscount_516" "subscribeOptionsCount" (
        link "../struct_m_q_t_t_async__response_options.html#a1a4b9bb2780472ec7bb65d0df1bf5d26" 1
          "MQTTAsync_responseOptions"
        ∷ [])
    ∷ entry "subscribeoptionslist_517" "subscribeOptionsList" (
        link "../struct_m_q_t_t_async__response_options.html#a98f71c5d03dc5ee86fd9dc0119ccb961" 1
          "MQTTAsync_responseOptions"
        ∷ [])
    ∷ []

abbrev pub variables_10 : List Entry
variables_10 =
    entry "timeout_518" "timeout" (
      link "../struct_m_q_t_t_async__disconnect_options.html#a493b57f443cc38b3d3df9c1e584d9d82" 1
        "MQTTAsync_disconnectOptions"
      ∷ [])
    ∷ entry "token_519" "token" (
        link "../struct_m_q_t_t_async__failure_data.html#af8f771e67d284379111151b003c0d810" 1
          "MQTTAsync_failureData::token()"
        ∷ link "../struct_m_q_t_t_async__failure_data5.html#af8f771e67d284379111151b003c0d810" 1
            "MQTTAsync_failureData5::token()"
        ∷ link "../struct_m_q_t_t_async__success_data.html#af8f771e67d284379111151b003c0d810" 1
            "MQTTAsync_successData::token()"
        ∷ link "../struct_m_q_t_t_async__success_data5.html#af8f771e67d284379111151b003c0d810" 1
            "MQTTAsync_successData5::token()"
        ∷ link "../struct_m_q_t_t_async__response_options.html#af8f771e67d284379111151b003c0d810" 1
            "MQTTAsync_responseOptions::token()"
        ∷ [])
    ∷ entry "topicname_520" "topicName" (
        link "../struct_m_q_t_t_async__will_options.html#a0e20a7b350881d05108d6342884198a5" 1
          "MQTTAsync_willOptions"
        ∷ [])
    ∷ entry "truststore_521" "trustStore" (
        link "../struct_m_q_t_t_async___s_s_l_options.html#a032835d4c4a1c1e19b53c330a673a6e0" 1
          "MQTTAsync_SSLOptions"
        ∷ [])
    ∷ []

abbrev pub variables_11 : List Entry
variables_11 =
    entry "unsub_522" "unsub" (
      link "../struct_m_q_t_t_async__success_data5.html#a46b20b320d6951e567ebf678ea4ac1a3" 1
        "MQTTAsync_successData5"
      ∷ [])
    ∷ entry "username_523" "username" (
        link "../struct_m_q_t_t_async__connect_data.html#aba2dfcdfda80edcb531a5a7115d3e043" 1
          "MQTTAsync_connectData::username()"
        ∷ link "../struct_m_q_t_t_async__connect_options.html#aba2dfcdfda80edcb531a5a7115d3e043" 1
            "MQTTAsync_connectOptions::username()"
        ∷ [])
    ∷ []

abbrev pub variables_12 : List Entry
variables_12 =
    entry "value_524" "value" (
      link "../struct_m_q_t_t_async__name_value.html#a8556878012feffc9e0beb86cd78f424d" 1
        "MQTTAsync_nameValue::value()"
      ∷ link "../struct_m_q_t_t_property.html#a09e85ff5ad73824d6c2edc1ce4283a17" 1
          "MQTTProperty::value()"
      ∷ link "../struct_m_q_t_t_property.html#af2307539b97777bec0475619af5648f1" 1
          "MQTTProperty::value()"
      ∷ [])
    ∷ entry "verify_525" "verify" (
        link "../struct_m_q_t_t_async___s_s_l_options.html#a94900629685d5ed08f66fd2931f573ce" 1
          "MQTTAsync_SSLOptions"
        ∷ [])
    ∷ []

abbrev pub variables_13 : List Entry
variables_13 =
    entry "will_526" "will" (
      link "../struct_m_q_t_t_async__connect_options.html#a7a9c5105542460d6fd9323facca66648" 1
        "MQTTAsync_connectOptions"
      ∷ [])
    ∷ entry "willproperties_527" "willProperties" (
        link "../struct_m_q_t_t_async__connect_options.html#ac31f13e964ffb7e3696caef47ecc0641" 1
          "MQTTAsync_connectOptions"
        ∷ [])
    ∷ []

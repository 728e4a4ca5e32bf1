-- ===== src/Site/Index/Variables1.antt =====
-- docs/MQTTAsync/html/search: variables_0.js to variables_9.js.
use paho_mqtt_c.Common.{List, [], ◌∷◌}
use paho_mqtt_c.Site.Index.{Entry, link, entry}

abbrev pub variables_0 : List Entry
variables_0 =
    entry "allowdisconnectedsendatanytime_425" "allowDisconnectedSendAtAnyTime" (
      link "../struct_m_q_t_t_async__create_options.html#abe7fdbe18bfd3577a75d3b386d69406c" 1
        "MQTTAsync_createOptions"
      ∷ [])
    ∷ entry "alt_426" "alt" (
        link "../struct_m_q_t_t_async__success_data.html#afbc1fee4467369fefa30cb07047fca14" 1
          "MQTTAsync_successData::alt()"
        ∷ link "../struct_m_q_t_t_async__success_data5.html#a4bde812772718b8051b0d6e2000a5f5c" 1
            "MQTTAsync_successData5::alt()"
        ∷ [])
    ∷ entry "array_427" "array" (
        link "../struct_m_q_t_t_properties.html#a3ac4c38b423393c1553dcf8b71e7dd58" 1
          "MQTTProperties"
        ∷ [])
    ∷ entry "automaticreconnect_428" "automaticReconnect" (
        link "../struct_m_q_t_t_async__connect_options.html#a7902ce4d11b96d8b19582bdd1f82b630" 1
          "MQTTAsync_connectOptions"
        ∷ [])
    ∷ []

abbrev pub variables_1 : List Entry
variables_1 =
    entry "binarypwd_429" "binarypwd" (
      link "../struct_m_q_t_t_async__connect_data.html#ad5c523e5e6dc0105cc7b4a296451915b" 1
        "MQTTAsync_connectData::binarypwd()"
      ∷ link "../struct_m_q_t_t_async__connect_options.html#a3bccd0957cca80fa2200962051093931" 1
          "MQTTAsync_connectOptions::binarypwd()"
      ∷ [])
    ∷ entry "byte_430" "byte" (
        link "../struct_m_q_t_t_property.html#a1581cde4f73c9a797ae1e7afcc1bb3de" 1 "MQTTProperty"
        ∷ [])
    ∷ []

abbrev pub variables_2 : List Entry
variables_2 =
    entry "capath_431" "CApath" (
      link "../struct_m_q_t_t_async___s_s_l_options.html#a3078b3c824cc9753a57898072445c34d" 1
        "MQTTAsync_SSLOptions"
      ∷ [])
    ∷ entry "cleansession_432" "cleansession" (
        link "../struct_m_q_t_t_async__connect_options.html#a036c36a2a4d3a3ffae9ab4dd8b3e7f7b" 1
          "MQTTAsync_connectOptions"
        ∷ [])
    ∷ entry "cleanstart_433" "cleanstart" (
        link "../struct_m_q_t_t_async__connect_options.html#acdcb75a5d5981da027bce83849140f7b" 1
          "MQTTAsync_connectOptions"
        ∷ [])
    ∷ entry "code_434" "code" (
        link "../struct_m_q_t_t_async__failure_data.html#a45a5b7c00a796a23f01673cef1dbe0a9" 1
          "MQTTAsync_failureData::code()"
        ∷ link "../struct_m_q_t_t_async__failure_data5.html#a45a5b7c00a796a23f01673cef1dbe0a9" 1
            "MQTTAsync_failureData5::code()"
        ∷ [])
    ∷ entry "connect_435" "connect" (
        link "../struct_m_q_t_t_async__success_data.html#a028701cd79a4923d1d2172422c022447" 1
          "MQTTAsync_successData::connect()"
        ∷ link "../struct_m_q_t_t_async__success_data5.html#ac73a35b7229f7f4193127cac7b20bc8a" 1
            "MQTTAsync_successData5::connect()"
        ∷ [])
    ∷ entry "connectproperties_436" "connectProperties" (
        link "../struct_m_q_t_t_async__connect_options.html#a9f8b7ffb4a698eb151a3b090548b82e8" 1
          "MQTTAsync_connectOptions"
        ∷ [])
    ∷ entry "connecttimeout_437" "connectTimeout" (
        link "../struct_m_q_t_t_async__connect_options.html#a38c6aa24b36d981c49405db425c24db0" 1
          "MQTTAsync_connectOptions"
        ∷ [])
    ∷ entry "context_438" "context" (
        link "../struct_m_q_t_t_async__response_options.html#ae376f130b17d169ee51be68077a89ed0" 1
          "MQTTAsync_responseOptions::context()"
        ∷ link "../struct_m_q_t_t_async__connect_options.html#ae376f130b17d169ee51be68077a89ed0" 1
            "MQTTAsync_connectOptions::context()"
        ∷ link "../struct_m_q_t_t_async__disconnect_options.html#ae376f130b17d169ee51be68077a89ed0"
            1 "MQTTAsync_disconnectOptions::context()"
        ∷ link "../struct_m_q_t_t_client__persistence.html#ae376f130b17d169ee51be68077a89ed0" 1
            "MQTTClient_persistence::context()"
        ∷ [])
    ∷ entry "count_439" "count" (
        link "../struct_m_q_t_t_properties.html#ad43c3812e6d13e0518d9f8b8f463ffcf" 1
          "MQTTProperties"
        ∷ [])
    ∷ []

abbrev pub variables_3 : List Entry
variables_3 =
    entry "data_440" "data" (
      link "../struct_m_q_t_t_async__connect_data.html#a0d49d74db4c035719c3867723cf7e779" 1
        "MQTTAsync_connectData::data()"
      ∷ link "../struct_m_q_t_t_async__will_options.html#a0d49d74db4c035719c3867723cf7e779" 1
          "MQTTAsync_willOptions::data()"
      ∷ link "../struct_m_q_t_t_async__connect_options.html#a0d49d74db4c035719c3867723cf7e779" 1
          "MQTTAsync_connectOptions::data()"
      ∷ link "../struct_m_q_t_t_len_string.html#a91a70b77df95bd8b0830b49a094c2acb" 1
          "MQTTLenString::data()"
      ∷ link "../struct_m_q_t_t_property.html#aa43ebcb9f97210421431a671384ef159" 1
          "MQTTProperty::data()"
      ∷ [])
    ∷ entry "deleteoldestmessages_441" "deleteOldestMessages" (
        link "../struct_m_q_t_t_async__create_options.html#a76de37b3cff885e83db204a347fe0a2d" 1
          "MQTTAsync_createOptions"
        ∷ [])
    ∷ entry "destinationname_442" "destinationName" (
        link "../struct_m_q_t_t_async__success_data.html#ae25f4a1d2a3fa952d052a965376d8fef" 1
          "MQTTAsync_successData::destinationName()"
        ∷ link "../struct_m_q_t_t_async__success_data5.html#ae25f4a1d2a3fa952d052a965376d8fef" 1
            "MQTTAsync_successData5::destinationName()"
        ∷ [])
    ∷ entry "disabledefaulttruststore_443" "disableDefaultTrustStore" (
        link "../struct_m_q_t_t_async___s_s_l_options.html#a0826fcae7c2816e04772c61542c6846b" 1
          "MQTTAsync_SSLOptions"
        ∷ [])
    ∷ entry "do_5fopenssl_5finit_444" "do_openssl_init" (
        link "../struct_m_q_t_t_async__init__options.html#a5929146596391e2838ef95feb89776da" 1
          "MQTTAsync_init_options"
        ∷ [])
    ∷ entry "dup_445" "dup" (
        link "../struct_m_q_t_t_async__message.html#adc4cf3f551bb367858644559d69cfdf5" 1
          "MQTTAsync_message"
        ∷ [])
    ∷ []

abbrev pub variables_4 : List Entry
variables_4 =
    entry "enabledciphersuites_446" "enabledCipherSuites" (
      link "../struct_m_q_t_t_async___s_s_l_options.html#aa683926d52134077f27d6dc67bda13ab" 1
        "MQTTAsync_SSLOptions"
      ∷ [])
    ∷ entry "enableservercertauth_447" "enableServerCertAuth" (
        link "../struct_m_q_t_t_async___s_s_l_options.html#a75f6c13b7634e15f96dd9f17db6cf0be" 1
          "MQTTAsync_SSLOptions"
        ∷ [])
    ∷ []

abbrev pub variables_5 : List Entry
variables_5 =
    entry "httpheaders_448" "httpHeaders" (
      link "../struct_m_q_t_t_async__connect_options.html#ac4098248961a1ee89f40353eeebab58b" 1
        "MQTTAsync_connectOptions"
      ∷ [])
    ∷ entry "httpproxy_449" "httpProxy" (
        link "../struct_m_q_t_t_async__connect_options.html#add124780ab2de397a96780576c2f112c" 1
          "MQTTAsync_connectOptions"
        ∷ [])
    ∷ entry "httpsproxy_450" "httpsProxy" (
        link "../struct_m_q_t_t_async__connect_options.html#a388b78d8a75658928238f700f207ad92" 1
          "MQTTAsync_connectOptions"
        ∷ [])
    ∷ []

abbrev pub variables_6 : List Entry
variables_6 =
    entry "identifier_451" "identifier" (
      link "../struct_m_q_t_t_property.html#a2ff04e8cc70fbaa9bcb9a4fb3d510882" 1 "MQTTProperty"
      ∷ [])
    ∷ entry "integer2_452" "integer2" (
        link "../struct_m_q_t_t_property.html#a0289ec2e0df8789139386b0ddf5c71c3" 1 "MQTTProperty"
        ∷ [])
    ∷ entry "integer4_453" "integer4" (
        link "../struct_m_q_t_t_property.html#a813425ef31abb5ef0091e3043e8a366b" 1 "MQTTProperty"
        ∷ [])
    ∷ []

abbrev pub variables_7 : List Entry
variables_7 =
    entry "keepaliveinterval_454" "keepAliveInterval" (
      link "../struct_m_q_t_t_async__connect_options.html#ac8dd0930672a9c7d71fc645aa1f0521d" 1
        "MQTTAsync_connectOptions"
      ∷ [])
    ∷ entry "keystore_455" "keyStore" (
        link "../struct_m_q_t_t_async___s_s_l_options.html#a32b476382955289ce427112b59f21c3e" 1
          "MQTTAsync_SSLOptions"
        ∷ [])
    ∷ []

abbrev pub variables_8 : List Entry
variables_8 =
    entry "len_456" "len" (
      link "../struct_m_q_t_t_async__connect_data.html#afed088663f8704004425cdae2120b9b3" 1
        "MQTTAsync_connectData::len()"
      ∷ link "../struct_m_q_t_t_async__will_options.html#afed088663f8704004425cdae2120b9b3" 1
          "MQTTAsync_willOptions::len()"
      ∷ link "../struct_m_q_t_t_async__connect_options.html#afed088663f8704004425cdae2120b9b3" 1
          "MQTTAsync_connectOptions::len()"
      ∷ link "../struct_m_q_t_t_len_string.html#afed088663f8704004425cdae2120b9b3" 1
          "MQTTLenString::len()"
      ∷ [])
    ∷ entry "length_457" "length" (
        link "../struct_m_q_t_t_properties.html#a9f59b34b1f25fe00023291b678246bcc" 1
          "MQTTProperties"
        ∷ [])
    ∷ []

abbrev pub variables_9 : List Entry
variables_9 =
    entry "max_5fcount_458" "max_count" (
      link "../struct_m_q_t_t_properties.html#a8de324382d8fd2f5939bf3372e059383" 1 "MQTTProperties"
      ∷ [])
    ∷ entry "maxbufferedmessages_459" "maxBufferedMessages" (
        link "../struct_m_q_t_t_async__create_options.html#a3b74acf6f315bb5fe36266bc9647ee97" 1
          "MQTTAsync_createOptions"
        ∷ [])
    ∷ entry "maxinflight_460" "maxInflight" (
        link "../struct_m_q_t_t_async__connect_options.html#a5c9d6c557453232a1b25cbbec5a31e8c" 1
          "MQTTAsync_connectOptions"
        ∷ [])
    ∷ entry "maxretryinterval_461" "maxRetryInterval" (
        link "../struct_m_q_t_t_async__connect_options.html#a035ba380dd97a284db04f4eaae5e113b" 1
          "MQTTAsync_connectOptions"
        ∷ [])
    ∷ entry "message_462" "message" (
        link "../struct_m_q_t_t_async__failure_data.html#a254bf0858da09c96a48daf64404eb4f8" 1
          "MQTTAsync_failureData::message()"
        ∷ link "../struct_m_q_t_t_async__failure_data5.html#a254bf0858da09c96a48daf64404eb4f8" 1
            "MQTTAsync_failureData5::message()"
        ∷ link "../struct_m_q_t_t_async__success_data.html#a6ed8403758cecd2f762af6ba5e0ae525" 1
            "MQTTAsync_successData::message()"
        ∷ link "../struct_m_q_t_t_async__success_data5.html#a6ed8403758cecd2f762af6ba5e0ae525" 1
            "MQTTAsync_successData5::message()"
        ∷ link "../struct_m_q_t_t_async__will_options.html#a254bf0858da09c96a48daf64404eb4f8" 1
            "MQTTAsync_willOptions::message()"
        ∷ [])
    ∷ entry "minretryinterval_463" "minRetryInterval" (
        link "../struct_m_q_t_t_async__connect_options.html#a166ac1b967f09326b0187f66be3e69af" 1
          "MQTTAsync_connectOptions"
        ∷ [])
    ∷ entry "mqttversion_464" "MQTTVersion" (
        link "../struct_m_q_t_t_async__success_data.html#a12d546fd0ccf4e1091b18e1b735c7240" 1
          "MQTTAsync_successData::MQTTVersion()"
        ∷ link "../struct_m_q_t_t_async__success_data5.html#a12d546fd0ccf4e1091b18e1b735c7240" 1
            "MQTTAsync_successData5::MQTTVersion()"
        ∷ link "../struct_m_q_t_t_async__create_options.html#a12d546fd0ccf4e1091b18e1b735c7240" 1
            "MQTTAsync_createOptions::MQTTVersion()"
        ∷ link "../struct_m_q_t_t_async__connect_options.html#a12d546fd0ccf4e1091b18e1b735c7240" 1
            "MQTTAsync_connectOptions::MQTTVersion()"
        ∷ [])
    ∷ entry "msgid_465" "msgid" (
        link "../struct_m_q_t_t_async__message.html#a6174c42da8c55c86e7255be2848dc4ac" 1
          "MQTTAsync_message"
        ∷ [])
    ∷ []

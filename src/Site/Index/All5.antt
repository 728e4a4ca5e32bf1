-- ===== src/Site/Index/All5.antt =====
-- docs/MQTTAsync/html/search: all_9.js.
use paho_mqtt_c.Common.{List, [], ◌∷◌}
use paho_mqtt_c.Site.Index.{Entry, link, entry}

abbrev pub all_9_part4 : List Entry
all_9_part4 =
    entry "mqttclient_5fpersistence_156" "MQTTClient_persistence"
      (link "../struct_m_q_t_t_client__persistence.html" 1 "" ∷ [])
    ∷ entry "mqttclient_5fpersistence_5fdefault_157" "MQTTCLIENT_PERSISTENCE_DEFAULT" (
        link "../_m_q_t_t_client_persistence_8h.html#aaa948291718a9c06369b854b0f64bc32" 1
          "MQTTClientPersistence.h"
        ∷ [])
    ∷ entry "mqttclient_5fpersistence_5ferror_158" "MQTTCLIENT_PERSISTENCE_ERROR" (
        link "../_m_q_t_t_client_persistence_8h.html#ab716e21e53c84a5ad62aa962a2a8f7db" 1
          "MQTTClientPersistence.h"
        ∷ [])
    ∷ entry "mqttclient_5fpersistence_5fnone_159" "MQTTCLIENT_PERSISTENCE_NONE" (
        link "../_m_q_t_t_client_persistence_8h.html#ae01e089313a65ac4661ed216b6ac00fa" 1
          "MQTTClientPersistence.h"
        ∷ [])
    ∷ entry "mqttclient_5fpersistence_5fuser_160" "MQTTCLIENT_PERSISTENCE_USER" (
        link "../_m_q_t_t_client_persistence_8h.html#a5dc68b8616e4041e037bad94ce07681b" 1
          "MQTTClientPersistence.h"
        ∷ [])
    ∷ entry "mqttclientpersistence_2eh_161" "MQTTClientPersistence.h"
        (link "../_m_q_t_t_client_persistence_8h.html" 1 "" ∷ [])
    ∷ entry "mqttlenstring_162" "MQTTLenString" (link "../struct_m_q_t_t_len_string.html" 1 "" ∷ [])
    ∷ entry "mqttpersistence_5fafterread_163" "MQTTPersistence_afterRead" (
        link "../_m_q_t_t_client_persistence_8h.html#af5a966a574c6ad7a35f1ebb7edd5c1c4" 1
          "MQTTClientPersistence.h"
        ∷ [])
    ∷ entry "mqttpersistence_5fbeforewrite_164" "MQTTPersistence_beforeWrite" (
        link "../_m_q_t_t_client_persistence_8h.html#ab865640a1cc53b68622004c5a2d29fae" 1
          "MQTTClientPersistence.h"
        ∷ [])
    ∷ entry "mqttproperties_165" "MQTTProperties" (
        link "../_m_q_t_t_properties_8h.html#a7758f1a5eceb6f46c8540630e39e2fb4" 1
          "MQTTProperties():&#160;MQTTProperties.h"
        ∷ link "../struct_m_q_t_t_properties.html" 1 "MQTTProperties"
        ∷ [])
    ∷ entry "mqttproperties_2eh_166" "MQTTProperties.h"
        (link "../_m_q_t_t_properties_8h.html" 1 "" ∷ [])
    ∷ entry "mqttproperties_5fadd_167" "MQTTProperties_add" (
        link "../_m_q_t_t_properties_8h.html#a88f1d21556c2d23330d71357cd226a15" 1 "MQTTProperties.h"
        ∷ [])
    ∷ entry "mqttproperties_5fcopy_168" "MQTTProperties_copy" (
        link "../_m_q_t_t_properties_8h.html#a69b3e474ee2f828e5b827d615fe0fe72" 1 "MQTTProperties.h"
        ∷ [])
    ∷ entry "mqttproperties_5ffree_169" "MQTTProperties_free" (
        link "../_m_q_t_t_properties_8h.html#ab68247ed365ee51170a9309c828b1823" 1 "MQTTProperties.h"
        ∷ [])
    ∷ entry "mqttproperties_5fgetnumericvalue_170" "MQTTProperties_getNumericValue" (
        link "../_m_q_t_t_properties_8h.html#afa777eb796532a3c0c59ddc40aca3792" 1 "MQTTProperties.h"
        ∷ [])
    ∷ entry "mqttproperties_5fgetnumericvalueat_171" "MQTTProperties_getNumericValueAt" (
        link "../_m_q_t_t_properties_8h.html#abc6bc80d9bb644c9b4a66b6808829a53" 1 "MQTTProperties.h"
        ∷ [])
    ∷ entry "mqttproperties_5fgetproperty_172" "MQTTProperties_getProperty" (
        link "../_m_q_t_t_properties_8h.html#a788b033cbed8a7906799fccbb1463f20" 1 "MQTTProperties.h"
        ∷ [])
    ∷ entry "mqttproperties_5fgetpropertyat_173" "MQTTProperties_getPropertyAt" (
        link "../_m_q_t_t_properties_8h.html#ac6942d8fafb5794591fc558b4bb06beb" 1 "MQTTProperties.h"
        ∷ [])
    ∷ entry "mqttproperties_5fhasproperty_174" "MQTTProperties_hasProperty" (
        link "../_m_q_t_t_properties_8h.html#a4ccdf6a712c3d803a16a4d3f00f9be2f" 1 "MQTTProperties.h"
        ∷ [])
    ∷ entry "mqttproperties_5finitializer_175" "MQTTProperties_initializer" (
        link "../_m_q_t_t_properties_8h.html#a5a80e158486a414ccdfcdd7f75f23988" 1 "MQTTProperties.h"
        ∷ [])
    ∷ entry "mqttproperties_5flen_176" "MQTTProperties_len" (
        link "../_m_q_t_t_properties_8h.html#ab7ad6f14e2dc7576d35827a28b0dc81d" 1 "MQTTProperties.h"
        ∷ [])
    ∷ entry "mqttproperties_5fpropertycount_177" "MQTTProperties_propertyCount" (
        link "../_m_q_t_t_properties_8h.html#a6f0d8b230c2e7008c7639cfce1c04429" 1 "MQTTProperties.h"
        ∷ [])
    ∷ entry "mqttproperties_5fread_178" "MQTTProperties_read" (
        link "../_m_q_t_t_properties_8h.html#afcb874dfcc9f0eaa0b063e2fad740871" 1 "MQTTProperties.h"
        ∷ [])
    ∷ entry "mqttproperties_5fwrite_179" "MQTTProperties_write" (
        link "../_m_q_t_t_properties_8h.html#ade0027a4e571bd288fe40271ff7aa497" 1 "MQTTProperties.h"
        ∷ [])
    ∷ entry "mqttproperty_180" "MQTTProperty" (link "../struct_m_q_t_t_property.html" 1 "" ∷ [])
    ∷ entry "mqttproperty_5fcode_5fassigned_5fclient_5fidentifer_181"
        "MQTTPROPERTY_CODE_ASSIGNED_CLIENT_IDENTIFER"
        (link
            "../_m_q_t_t_properties_8h.html#af623c1b670dfe3fda633c068e054d8b4a768d84858fd18d5d5a7dee394929c672"
            1 "MQTTProperties.h"
          ∷ [])
    ∷ entry "mqttproperty_5fcode_5fauthentication_5fdata_182"
        "MQTTPROPERTY_CODE_AUTHENTICATION_DATA"
        (link
            "../_m_q_t_t_properties_8h.html#af623c1b670dfe3fda633c068e054d8b4abdf9feec165aceefbe7aa46764f6ab6e"
            1 "MQTTProperties.h"
          ∷ [])
    ∷ entry "mqttproperty_5fcode_5fauthentication_5fmethod_183"
        "MQTTPROPERTY_CODE_AUTHENTICATION_METHOD"
        (link
            "../_m_q_t_t_properties_8h.html#af623c1b670dfe3fda633c068e054d8b4a7c53f1e414b577d787b5d51af3204100"
            1 "MQTTProperties.h"
          ∷ [])
    ∷ entry "mqttproperty_5fcode_5fcontent_5ftype_184" "MQTTPROPERTY_CODE_CONTENT_TYPE" (
        link
          "../_m_q_t_t_properties_8h.html#af623c1b670dfe3fda633c068e054d8b4a4027d9e0fb53a62ae35963e700b56198"
          1 "MQTTProperties.h"
        ∷ [])
    ∷ entry "mqttproperty_5fcode_5fcorrelation_5fdata_185" "MQTTPROPERTY_CODE_CORRELATION_DATA" (
        link
          "../_m_q_t_t_properties_8h.html#af623c1b670dfe3fda633c068e054d8b4a887d3dd3f0ce31255324f5a1ba8b72c5"
          1 "MQTTProperties.h"
        ∷ [])
    ∷ entry "mqttproperty_5fcode_5fmaximum_5fpacket_5fsize_186"
        "MQTTPROPERTY_CODE_MAXIMUM_PACKET_SIZE"
        (link
            "../_m_q_t_t_properties_8h.html#af623c1b670dfe3fda633c068e054d8b4a6834ea9878f028d5fbdeccaaeae492e5"
            1 "MQTTProperties.h"
          ∷ [])
    ∷ entry "mqttproperty_5fcode_5fmaximum_5fqos_187" "MQTTPROPERTY_CODE_MAXIMUM_QOS" (
        link
          "../_m_q_t_t_properties_8h.html#af623c1b670dfe3fda633c068e054d8b4a506faeb89c407cf78853c777d750fa59"
          1 "MQTTProperties.h"
        ∷ [])
    ∷ entry "mqttproperty_5fcode_5fmessage_5fexpiry_5finterval_188"
        "MQTTPROPERTY_CODE_MESSAGE_EXPIRY_INTERVAL"
        (link
            "../_m_q_t_t_properties_8h.html#af623c1b670dfe3fda633c068e054d8b4a284c0e62d47ee8d358b16a8075632b4a"
            1 "MQTTProperties.h"
          ∷ [])
    ∷ entry "mqttproperty_5fcode_5fpayload_5fformat_5findicator_189"
        "MQTTPROPERTY_CODE_PAYLOAD_FORMAT_INDICATOR"
        (link
            "../_m_q_t_t_properties_8h.html#af623c1b670dfe3fda633c068e054d8b4ae5d077520427d03b44096f631411575d"
            1 "MQTTProperties.h"
          ∷ [])
    ∷ entry "mqttproperty_5fcode_5freason_5fstring_190" "MQTTPROPERTY_CODE_REASON_STRING" (
        link
          "../_m_q_t_t_properties_8h.html#af623c1b670dfe3fda633c068e054d8b4a3dce8f679474e901ce4aec076e9e59e1"
          1 "MQTTProperties.h"
        ∷ [])
    ∷ entry "mqttproperty_5fcode_5freceive_5fmaximum_191" "MQTTPROPERTY_CODE_RECEIVE_MAXIMUM" (
        link
          "../_m_q_t_t_properties_8h.html#af623c1b670dfe3fda633c068e054d8b4ab2688fe8d7d263c27c00d41776cb8f9f"
          1 "MQTTProperties.h"
        ∷ [])
    ∷ entry "mqttproperty_5fcode_5frequest_5fproblem_5finformation_192"
        "MQTTPROPERTY_CODE_REQUEST_PROBLEM_INFORMATION"
        (link
            "../_m_q_t_t_properties_8h.html#af623c1b670dfe3fda633c068e054d8b4a3954daf1d5772b5d56eefa1ab6a28aa1"
            1 "MQTTProperties.h"
          ∷ [])
    ∷ entry "mqttproperty_5fcode_5frequest_5fresponse_5finformation_193"
        "MQTTPROPERTY_CODE_REQUEST_RESPONSE_INFORMATION"
        (link
            "../_m_q_t_t_properties_8h.html#af623c1b670dfe3fda633c068e054d8b4a420b882a337dc1fd5f336ac6cd0529bf"
            1 "MQTTProperties.h"
          ∷ [])
    ∷ entry "mqttproperty_5fcode_5fresponse_5finformation_194"
        "MQTTPROPERTY_CODE_RESPONSE_INFORMATION"
        (link
            "../_m_q_t_t_properties_8h.html#af623c1b670dfe3fda633c068e054d8b4a2584b050f016af496c7f0b46692dbc00"
            1 "MQTTProperties.h"
          ∷ [])
    ∷ entry "mqttproperty_5fcode_5fresponse_5ftopic_195" "MQTTPROPERTY_CODE_RESPONSE_TOPIC" (
        link
          "../_m_q_t_t_properties_8h.html#af623c1b670dfe3fda633c068e054d8b4a7fa9996eef721d318504fbb0a8d4bac5"
          1 "MQTTProperties.h"
        ∷ [])
    ∷ []

-- ===== src/Site/Index/Classes1.antt =====
-- docs/MQTTAsync/html/search: classes_0.js to files_0.js.
use paho_mqtt_c.Common.{List, [], ◌∷◌}
use paho_mqtt_c.Site.Index.{Entry, link, entry}

abbrev pub classes_0 : List Entry
classes_0 =
    entry "mqttasync_5fconnectdata_353" "MQTTAsync_connectData"
      (link "../struct_m_q_t_t_async__connect_data.html" 1 "" ∷ [])
    ∷ entry "mqttasync_5fconnectoptions_354" "MQTTAsync_connectOptions"
        (link "../struct_m_q_t_t_async__connect_options.html" 1 "" ∷ [])
    ∷ entry "mqttasync_5fcreateoptions_355" "MQTTAsync_createOptions"
        (link "../struct_m_q_t_t_async__create_options.html" 1 "" ∷ [])
    ∷ entry "mqttasync_5fdisconnectoptions_356" "MQTTAsync_disconnectOptions"
        (link "../struct_m_q_t_t_async__disconnect_options.html" 1 "" ∷ [])
    ∷ entry "mqttasync_5ffailuredata_357" "MQTTAsync_failureData"
        (link "../struct_m_q_t_t_async__failure_data.html" 1 "" ∷ [])
    ∷ entry "mqttasync_5ffailuredata5_358" "MQTTAsync_failureData5"
        (link "../struct_m_q_t_t_async__failure_data5.html" 1 "" ∷ [])
    ∷ entry "mqttasync_5finit_5foptions_359" "MQTTAsync_init_options"
        (link "../struct_m_q_t_t_async__init__options.html" 1 "" ∷ [])
    ∷ entry "mqttasync_5fmessage_360" "MQTTAsync_message"
        (link "../struct_m_q_t_t_async__message.html" 1 "" ∷ [])
    ∷ entry "mqttasync_5fnamevalue_361" "MQTTAsync_nameValue"
        (link "../struct_m_q_t_t_async__name_value.html" 1 "" ∷ [])
    ∷ entry "mqttasync_5fresponseoptions_362" "MQTTAsync_responseOptions"
        (link "../struct_m_q_t_t_async__response_options.html" 1 "" ∷ [])
    ∷ entry "mqttasync_5fssloptions_363" "MQTTAsync_SSLOptions"
        (link "../struct_m_q_t_t_async___s_s_l_options.html" 1 "" ∷ [])
    ∷ entry "mqttasync_5fsuccessdata_364" "MQTTAsync_successData"
        (link "../struct_m_q_t_t_async__success_data.html" 1 "" ∷ [])
    ∷ entry "mqttasync_5fsuccessdata5_365" "MQTTAsync_successData5"
        (link "../struct_m_q_t_t_async__success_data5.html" 1 "" ∷ [])
    ∷ entry "mqttasync_5fwilloptions_366" "MQTTAsync_willOptions"
        (link "../struct_m_q_t_t_async__will_options.html" 1 "" ∷ [])
    ∷ entry "mqttclient_5fpersistence_367" "MQTTClient_persistence"
        (link "../struct_m_q_t_t_client__persistence.html" 1 "" ∷ [])
    ∷ entry "mqttlenstring_368" "MQTTLenString" (link "../struct_m_q_t_t_len_string.html" 1 "" ∷ [])
    ∷ entry "mqttproperties_369" "MQTTProperties"
        (link "../struct_m_q_t_t_properties.html" 1 "" ∷ [])
    ∷ entry "mqttproperty_370" "MQTTProperty" (link "../struct_m_q_t_t_property.html" 1 "" ∷ [])
    ∷ entry "mqttsubscribe_5foptions_371" "MQTTSubscribe_options"
        (link "../struct_m_q_t_t_subscribe__options.html" 1 "" ∷ [])
    ∷ []

abbrev pub files_0 : List Entry
files_0 =
    entry "mqttasync_2eh_372" "MQTTAsync.h" (link "../_m_q_t_t_async_8h.html" 1 "" ∷ [])
    ∷ entry "mqttclientpersistence_2eh_373" "MQTTClientPersistence.h"
        (link "../_m_q_t_t_client_persistence_8h.html" 1 "" ∷ [])
    ∷ entry "mqttproperties_2eh_374" "MQTTProperties.h"
        (link "../_m_q_t_t_properties_8h.html" 1 "" ∷ [])
    ∷ entry "mqttreasoncodes_2eh_375" "MQTTReasonCodes.h"
        (link "../_m_q_t_t_reason_codes_8h.html" 1 "" ∷ [])
    ∷ entry "mqttsubscribeopts_2eh_376" "MQTTSubscribeOpts.h"
        (link "../_m_q_t_t_subscribe_opts_8h.html" 1 "" ∷ [])
    ∷ []

-- ===== src/Site/Index/All4.antt =====
-- docs/MQTTAsync/html/search: all_9.js.
use paho_mqtt_c.Common.{List, [], ◌∷◌}
use paho_mqtt_c.Site.Index.{Entry, link, entry}

abbrev pub all_9_part3 : List Entry
all_9_part3 =
    entry "mqttasync_5fsetafterpersistenceread_116" "MQTTAsync_setAfterPersistenceRead"
      (link "../_m_q_t_t_async_8h.html#ab4d16e3c57502be6a7d1b1d3bcc382f3" 1 "MQTTAsync.h" ∷ [])
    ∷ entry "mqttasync_5fsetbeforepersistencewrite_117" "MQTTAsync_setBeforePersistenceWrite"
        (link "../_m_q_t_t_async_8h.html#a1002b09c62a096578c9b3e0135eb98c1" 1 "MQTTAsync.h" ∷ [])
    ∷ entry "mqttasync_5fsetcallbacks_118" "MQTTAsync_setCallbacks"
        (link "../_m_q_t_t_async_8h.html#ae9ae8d61023e7029ef5a19f5219c3599" 1 "MQTTAsync.h" ∷ [])
    ∷ entry "mqttasync_5fsetconnected_119" "MQTTAsync_setConnected"
        (link "../_m_q_t_t_async_8h.html#a18cc19740d9b00c629dc53a4420ecf1f" 1 "MQTTAsync.h" ∷ [])
    ∷ entry "mqttasync_5fsetconnectionlostcallback_120" "MQTTAsync_setConnectionLostCallback"
        (link "../_m_q_t_t_async_8h.html#aee15bbd9224efd9dcce9b4ae491b2e2e" 1 "MQTTAsync.h" ∷ [])
    ∷ entry "mqttasync_5fsetdeliverycompletecallback_121" "MQTTAsync_setDeliveryCompleteCallback"
        (link "../_m_q_t_t_async_8h.html#a94ec624ee22cc01d2ca58a9e646a2665" 1 "MQTTAsync.h" ∷ [])
    ∷ entry "mqttasync_5fsetdisconnected_122" "MQTTAsync_setDisconnected"
        (link "../_m_q_t_t_async_8h.html#ada4dd26d23c8849c51e4ab8200339040" 1 "MQTTAsync.h" ∷ [])
    ∷ entry "mqttasync_5fsetmessagearrivedcallback_123" "MQTTAsync_setMessageArrivedCallback"
        (link "../_m_q_t_t_async_8h.html#a44abc360051b918a39b0596a137775ae" 1 "MQTTAsync.h" ∷ [])
    ∷ entry "mqttasync_5fsettracecallback_124" "MQTTAsync_setTraceCallback"
        (link "../_m_q_t_t_async_8h.html#a0b350581324a4ff0eaee71e7a6721388" 1 "MQTTAsync.h" ∷ [])
    ∷ entry "mqttasync_5fsettracelevel_125" "MQTTAsync_setTraceLevel"
        (link "../_m_q_t_t_async_8h.html#ac7fbab13a0b2e5dd4ee11efbbb9f6a3a" 1 "MQTTAsync.h" ∷ [])
    ∷ entry "mqttasync_5fsetupdateconnectoptions_126" "MQTTAsync_setUpdateConnectOptions"
        (link "../_m_q_t_t_async_8h.html#aa078aec3eba83481f63db3c3939a5da9" 1 "MQTTAsync.h" ∷ [])
    ∷ entry "mqttasync_5fssl_5fnot_5fsupported_127" "MQTTASYNC_SSL_NOT_SUPPORTED"
        (link "../_m_q_t_t_async_8h.html#a6992c00553db1608aef9e162c161d73c" 1 "MQTTAsync.h" ∷ [])
    ∷ entry "mqttasync_5fssloptions_128" "MQTTAsync_SSLOptions"
        (link "../struct_m_q_t_t_async___s_s_l_options.html" 1 "" ∷ [])
    ∷ entry "mqttasync_5fssloptions_5finitializer_129" "MQTTAsync_SSLOptions_initializer"
        (link "../_m_q_t_t_async_8h.html#aac935e2e9d770a53ee8189f128530511" 1 "MQTTAsync.h" ∷ [])
    ∷ entry "mqttasync_5fstrerror_130" "MQTTAsync_strerror"
        (link "../_m_q_t_t_async_8h.html#a875cd089a8b23eb3fd50c0406fc75d9f" 1 "MQTTAsync.h" ∷ [])
    ∷ entry "mqttasync_5fsubscribe_131" "MQTTAsync_subscribe"
        (link "../_m_q_t_t_async_8h.html#ae10bd009934b3bb4a9f4abae7424a611" 1 "MQTTAsync.h" ∷ [])
    ∷ entry "mqttasync_5fsubscribemany_132" "MQTTAsync_subscribeMany"
        (link "../_m_q_t_t_async_8h.html#ac78620b33434a187255bd1a3faec1578" 1 "MQTTAsync.h" ∷ [])
    ∷ entry "mqttasync_5fsuccess_133" "MQTTASYNC_SUCCESS"
        (link "../_m_q_t_t_async_8h.html#afe0cffcce8efe25186f79c51ac44e16f" 1 "MQTTAsync.h" ∷ [])
    ∷ entry "mqttasync_5fsuccessdata_134" "MQTTAsync_successData"
        (link "../struct_m_q_t_t_async__success_data.html" 1 "" ∷ [])
    ∷ entry "mqttasync_5fsuccessdata5_135" "MQTTAsync_successData5"
        (link "../struct_m_q_t_t_async__success_data5.html" 1 "" ∷ [])
    ∷ entry "mqttasync_5fsuccessdata5_5finitializer_136" "MQTTAsync_successData5_initializer"
        (link "../_m_q_t_t_async_8h.html#a6182ec90ec4a134465f627b324ac5a41" 1 "MQTTAsync.h" ∷ [])
    ∷ entry "mqttasync_5ftoken_137" "MQTTAsync_token"
        (link "../_m_q_t_t_async_8h.html#a7ca6d2a1813f2bbd0bc3af2771e46ba4" 1 "MQTTAsync.h" ∷ [])
    ∷ entry "mqttasync_5ftopicname_5ftruncated_138" "MQTTASYNC_TOPICNAME_TRUNCATED"
        (link "../_m_q_t_t_async_8h.html#a77a7106d97ff60be3fe70f90b1867800" 1 "MQTTAsync.h" ∷ [])
    ∷ entry "mqttasync_5ftrace_5ferror_139" "MQTTASYNC_TRACE_ERROR" (
        link
          "../_m_q_t_t_async_8h.html#a5de816f986b318947709a34e0787eda5ac428f74ca453dacb7b8271ca741266e8"
          1 "MQTTAsync.h"
        ∷ [])
    ∷ entry "mqttasync_5ftrace_5ffatal_140" "MQTTASYNC_TRACE_FATAL" (
        link
          "../_m_q_t_t_async_8h.html#a5de816f986b318947709a34e0787eda5a0b91d2213ebb6655e41a7f6ce1a42295"
          1 "MQTTAsync.h"
        ∷ [])
    ∷ entry "mqttasync_5ftrace_5flevels_141" "MQTTASYNC_TRACE_LEVELS"
        (link "../_m_q_t_t_async_8h.html#a5de816f986b318947709a34e0787eda5" 1 "MQTTAsync.h" ∷ [])
    ∷ entry "mqttasync_5ftrace_5fmaximum_142" "MQTTASYNC_TRACE_MAXIMUM" (
        link
          "../_m_q_t_t_async_8h.html#a5de816f986b318947709a34e0787eda5af684f42971cced68693ce993703548c1"
          1 "MQTTAsync.h"
        ∷ [])
    ∷ entry "mqttasync_5ftrace_5fmedium_143" "MQTTASYNC_TRACE_MEDIUM" (
        link
          "../_m_q_t_t_async_8h.html#a5de816f986b318947709a34e0787eda5a133c380b84d75477ff31a2ad732133ce"
          1 "MQTTAsync.h"
        ∷ [])
    ∷ entry "mqttasync_5ftrace_5fminimum_144" "MQTTASYNC_TRACE_MINIMUM" (
        link
          "../_m_q_t_t_async_8h.html#a5de816f986b318947709a34e0787eda5a7a45c26816b1cac1fde02d79a9f4337b"
          1 "MQTTAsync.h"
        ∷ [])
    ∷ entry "mqttasync_5ftrace_5fprotocol_145" "MQTTASYNC_TRACE_PROTOCOL" (
        link
          "../_m_q_t_t_async_8h.html#a5de816f986b318947709a34e0787eda5a6a719b2b7fc4dfc41494370ff96fec3e"
          1 "MQTTAsync.h"
        ∷ [])
    ∷ entry "mqttasync_5ftrace_5fsevere_146" "MQTTASYNC_TRACE_SEVERE" (
        link
          "../_m_q_t_t_async_8h.html#a5de816f986b318947709a34e0787eda5a3084770185f384398cefe4aaba533d40"
          1 "MQTTAsync.h"
        ∷ [])
    ∷ entry "mqttasync_5ftracecallback_147" "MQTTAsync_traceCallback"
        (link "../_m_q_t_t_async_8h.html#a65aba1caeae9b5af5d5b6c5598a75b02" 1 "MQTTAsync.h" ∷ [])
    ∷ entry "mqttasync_5ftrue_148" "MQTTASYNC_TRUE"
        (link "../_m_q_t_t_async_8h.html#a61e6ee632e63312d382e2fcbe427f01a" 1 "MQTTAsync.h" ∷ [])
    ∷ entry "mqttasync_5funsubscribe_149" "MQTTAsync_unsubscribe"
        (link "../_m_q_t_t_async_8h.html#a08d18ece91c1b011011354570d8ac1ab" 1 "MQTTAsync.h" ∷ [])
    ∷ entry "mqttasync_5funsubscribemany_150" "MQTTAsync_unsubscribeMany"
        (link "../_m_q_t_t_async_8h.html#a69fd433ce1b9b6a1b3b453c4793a9311" 1 "MQTTAsync.h" ∷ [])
    ∷ entry "mqttasync_5fupdateconnectoptions_151" "MQTTAsync_updateConnectOptions"
        (link "../_m_q_t_t_async_8h.html#a5e44304a2c011a7d61b72c779ad83979" 1 "MQTTAsync.h" ∷ [])
    ∷ entry "mqttasync_5fwaitforcompletion_152" "MQTTAsync_waitForCompletion"
        (link "../_m_q_t_t_async_8h.html#a4fe09cc9c976b1cf424e13765d6cd8c9" 1 "MQTTAsync.h" ∷ [])
    ∷ entry "mqttasync_5fwilloptions_153" "MQTTAsync_willOptions"
        (link "../struct_m_q_t_t_async__will_options.html" 1 "" ∷ [])
    ∷ entry "mqttasync_5fwilloptions_5finitializer_154" "MQTTAsync_willOptions_initializer"
        (link "../_m_q_t_t_async_8h.html#a6c45768e1b28844f2ac0f6ac68709730" 1 "MQTTAsync.h" ∷ [])
    ∷ entry "mqttasync_5fwrong_5fmqtt_5fversion_155" "MQTTASYNC_WRONG_MQTT_VERSION"
        (link "../_m_q_t_t_async_8h.html#af5df806e9767e1e3182fe089a8ee551b" 1 "MQTTAsync.h" ∷ [])
    ∷ []

-- ===== src/Site/Index/Functions1.antt =====
-- docs/MQTTAsync/html/search: functions_0.js.
use paho_mqtt_c.Common.{List, [], ◌∷◌}
use paho_mqtt_c.Site.Index.{Entry, link, entry}

abbrev pub functions_0_part1 : List Entry
functions_0_part1 =
    entry "mqttasync_5fconnect_377" "MQTTAsync_connect"
      (link "../_m_q_t_t_async_8h.html#a0388b226a414b09fa733f6d65004ec32" 1 "MQTTAsync.h" ∷ [])
    ∷ entry "mqttasync_5fcreate_378" "MQTTAsync_create"
        (link "../_m_q_t_t_async_8h.html#a5462c4618d0a229116db5fbadacf95d2" 1 "MQTTAsync.h" ∷ [])
    ∷ entry "mqttasync_5fcreatewithoptions_379" "MQTTAsync_createWithOptions"
        (link "../_m_q_t_t_async_8h.html#a78cbe1b851fea48001112f7ba9e4ea62" 1 "MQTTAsync.h" ∷ [])
    ∷ entry "mqttasync_5fdestroy_380" "MQTTAsync_destroy"
        (link "../_m_q_t_t_async_8h.html#ad5562f9dc71fbd93d25ad20b328cb887" 1 "MQTTAsync.h" ∷ [])
    ∷ entry "mqttasync_5fdisconnect_381" "MQTTAsync_disconnect"
        (link "../_m_q_t_t_async_8h.html#adc69afa4725f8321bdaa5a05aec5cfd5" 1 "MQTTAsync.h" ∷ [])
    ∷ entry "mqttasync_5ffree_382" "MQTTAsync_free"
        (link "../_m_q_t_t_async_8h.html#a2b836f58612a2c4627e40ae848da190d" 1 "MQTTAsync.h" ∷ [])
    ∷ entry "mqttasync_5ffreemessage_383" "MQTTAsync_freeMessage"
        (link "../_m_q_t_t_async_8h.html#a9b45db63052fe29ab1fad22d2a00c91c" 1 "MQTTAsync.h" ∷ [])
    ∷ entry "mqttasync_5fgetpendingtokens_384" "MQTTAsync_getPendingTokens"
        (link "../_m_q_t_t_async_8h.html#abc92f60743fc471643b473abbc987be0" 1 "MQTTAsync.h" ∷ [])
    ∷ entry "mqttasync_5fgetversioninfo_385" "MQTTAsync_getVersionInfo"
        (link "../_m_q_t_t_async_8h.html#a7cf29b785a1d4ff1de2e67e2f916b658" 1 "MQTTAsync.h" ∷ [])
    ∷ entry "mqttasync_5fglobal_5finit_386" "MQTTAsync_global_init"
        (link "../_m_q_t_t_async_8h.html#a1705e75a48999cb45bf85c15608478f5" 1 "MQTTAsync.h" ∷ [])
    ∷ entry "mqttasync_5fiscomplete_387" "MQTTAsync_isComplete"
        (link "../_m_q_t_t_async_8h.html#ab207095cab6f9a48b52cdb593b8456f4" 1 "MQTTAsync.h" ∷ [])
    ∷ entry "mqttasync_5fisconnected_388" "MQTTAsync_isConnected"
        (link "../_m_q_t_t_async_8h.html#a46c332245c379629ae11f457fc179457" 1 "MQTTAsync.h" ∷ [])
    ∷ entry "mqttasync_5fmalloc_389" "MQTTAsync_malloc"
        (link "../_m_q_t_t_async_8h.html#af5500ba58592afafaade2fcabdc61e61" 1 "MQTTAsync.h" ∷ [])
    ∷ entry "mqttasync_5freconnect_390" "MQTTAsync_reconnect"
        (link "../_m_q_t_t_async_8h.html#abd3ea01869b89ff23f9522640479c395" 1 "MQTTAsync.h" ∷ [])
    ∷ entry "mqttasync_5fsend_391" "MQTTAsync_send"
        (link "../_m_q_t_t_async_8h.html#a63c66a311ab16239a4175ff671871bf2" 1 "MQTTAsync.h" ∷ [])
    ∷ entry "mqttasync_5fsendmessage_392" "MQTTAsync_sendMessage"
        (link "../_m_q_t_t_async_8h.html#a5687171e67e98f9ea590c9e3b64cde18" 1 "MQTTAsync.h" ∷ [])
    ∷ entry "mqttasync_5fsetafterpersistenceread_393" "MQTTAsync_setAfterPersistenceRead"
        (link "../_m_q_t_t_async_8h.html#ab4d16e3c57502be6a7d1b1d3bcc382f3" 1 "MQTTAsync.h" ∷ [])
    ∷ entry "mqttasync_5fsetbeforepersistencewrite_394" "MQTTAsync_setBeforePersistenceWrite"
        (link "../_m_q_t_t_async_8h.html#a1002b09c62a096578c9b3e0135eb98c1" 1 "MQTTAsync.h" ∷ [])
    ∷ entry "mqttasync_5fsetcallbacks_395" "MQTTAsync_setCallbacks"
        (link "../_m_q_t_t_async_8h.html#ae9ae8d61023e7029ef5a19f5219c3599" 1 "MQTTAsync.h" ∷ [])
    ∷ entry "mqttasync_5fsetconnected_396" "MQTTAsync_setConnected"
        (link "../_m_q_t_t_async_8h.html#a18cc19740d9b00c629dc53a4420ecf1f" 1 "MQTTAsync.h" ∷ [])
    ∷ entry "mqttasync_5fsetconnectionlostcallback_397" "MQTTAsync_setConnectionLostCallback"
        (link "../_m_q_t_t_async_8h.html#aee15bbd9224efd9dcce9b4ae491b2e2e" 1 "MQTTAsync.h" ∷ [])
    ∷ entry "mqttasync_5fsetdeliverycompletecallback_398" "MQTTAsync_setDeliveryCompleteCallback"
        (link "../_m_q_t_t_async_8h.html#a94ec624ee22cc01d2ca58a9e646a2665" 1 "MQTTAsync.h" ∷ [])
    ∷ entry "mqttasync_5fsetdisconnected_399" "MQTTAsync_setDisconnected"
        (link "../_m_q_t_t_async_8h.html#ada4dd26d23c8849c51e4ab8200339040" 1 "MQTTAsync.h" ∷ [])
    ∷ entry "mqttasync_5fsetmessagearrivedcallback_400" "MQTTAsync_setMessageArrivedCallback"
        (link "../_m_q_t_t_async_8h.html#a44abc360051b918a39b0596a137775ae" 1 "MQTTAsync.h" ∷ [])
    ∷ entry "mqttasync_5fsettracecallback_401" "MQTTAsync_setTraceCallback"
        (link "../_m_q_t_t_async_8h.html#a0b350581324a4ff0eaee71e7a6721388" 1 "MQTTAsync.h" ∷ [])
    ∷ entry "mqttasync_5fsettracelevel_402" "MQTTAsync_setTraceLevel"
        (link "../_m_q_t_t_async_8h.html#ac7fbab13a0b2e5dd4ee11efbbb9f6a3a" 1 "MQTTAsync.h" ∷ [])
    ∷ entry "mqttasync_5fsetupdateconnectoptions_403" "MQTTAsync_setUpdateConnectOptions"
        (link "../_m_q_t_t_async_8h.html#aa078aec3eba83481f63db3c3939a5da9" 1 "MQTTAsync.h" ∷ [])
    ∷ entry "mqttasync_5fstrerror_404" "MQTTAsync_strerror"
        (link "../_m_q_t_t_async_8h.html#a875cd089a8b23eb3fd50c0406fc75d9f" 1 "MQTTAsync.h" ∷ [])
    ∷ entry "mqttasync_5fsubscribe_405" "MQTTAsync_subscribe"
        (link "../_m_q_t_t_async_8h.html#ae10bd009934b3bb4a9f4abae7424a611" 1 "MQTTAsync.h" ∷ [])
    ∷ entry "mqttasync_5fsubscribemany_406" "MQTTAsync_subscribeMany"
        (link "../_m_q_t_t_async_8h.html#ac78620b33434a187255bd1a3faec1578" 1 "MQTTAsync.h" ∷ [])
    ∷ entry "mqttasync_5funsubscribe_407" "MQTTAsync_unsubscribe"
        (link "../_m_q_t_t_async_8h.html#a08d18ece91c1b011011354570d8ac1ab" 1 "MQTTAsync.h" ∷ [])
    ∷ entry "mqttasync_5funsubscribemany_408" "MQTTAsync_unsubscribeMany"
        (link "../_m_q_t_t_async_8h.html#a69fd433ce1b9b6a1b3b453c4793a9311" 1 "MQTTAsync.h" ∷ [])
    ∷ entry "mqttasync_5fwaitforcompletion_409" "MQTTAsync_waitForCompletion"
        (link "../_m_q_t_t_async_8h.html#a4fe09cc9c976b1cf424e13765d6cd8c9" 1 "MQTTAsync.h" ∷ [])
    ∷ entry "mqttproperties_5fadd_410" "MQTTProperties_add" (
        link "../_m_q_t_t_properties_8h.html#a88f1d21556c2d23330d71357cd226a15" 1 "MQTTProperties.h"
        ∷ [])
    ∷ entry "mqttproperties_5fcopy_411" "MQTTProperties_copy" (
        link "../_m_q_t_t_properties_8h.html#a69b3e474ee2f828e5b827d615fe0fe72" 1 "MQTTProperties.h"
        ∷ [])
    ∷ entry "mqttproperties_5ffree_412" "MQTTProperties_free" (
        link "../_m_q_t_t_properties_8h.html#ab68247ed365ee51170a9309c828b1823" 1 "MQTTProperties.h"
        ∷ [])
    ∷ entry "mqttproperties_5fgetnumericvalue_413" "MQTTProperties_getNumericValue" (
        link "../_m_q_t_t_properties_8h.html#afa777eb796532a3c0c59ddc40aca3792" 1 "MQTTProperties.h"
        ∷ [])
    ∷ entry "mqttproperties_5fgetnumericvalueat_414" "MQTTProperties_getNumericValueAt" (
        link "../_m_q_t_t_properties_8h.html#abc6bc80d9bb644c9b4a66b6808829a53" 1 "MQTTProperties.h"
        ∷ [])
    ∷ entry "mqttproperties_5fgetproperty_415" "MQTTProperties_getProperty" (
        link "../_m_q_t_t_properties_8h.html#a788b033cbed8a7906799fccbb1463f20" 1 "MQTTProperties.h"
        ∷ [])
    ∷ entry "mqttproperties_5fgetpropertyat_416" "MQTTProperties_getPropertyAt" (
        link "../_m_q_t_t_properties_8h.html#ac6942d8fafb5794591fc558b4bb06beb" 1 "MQTTProperties.h"
        ∷ [])
    ∷ []

-- ===== src/Protocol.antt =====
-- src/MQTTProtocolClient.c: message ids and the exchanges of messages of QoS 1 and 2.
pub mod MsgId
pub mod Exchange

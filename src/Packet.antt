-- ===== src/Packet.antt =====
-- src/MQTTPacket.c: the wire format of MQTT packets.
pub mod Wire
pub mod Varint
pub mod Publish
pub mod Ack
pub mod Connect

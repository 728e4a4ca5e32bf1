-- ===== src/Properties.antt =====
-- src/MQTTProperties.c and .h: the MQTT 5 properties of a packet. Allocation is taken to succeed.
pub mod Types
pub mod Write
pub mod Read

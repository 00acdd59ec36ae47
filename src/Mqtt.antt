-- ===== src/Mqtt.antt =====
-- protocols/mqtt_protocol.cc: the audio channel over UDP and the parts of it that stand alone.
pub mod Hex
pub mod Packet
pub mod Delivery
pub mod Stream
pub mod Channel
pub mod Hello
pub mod Client
pub mod Opening
pub mod Answer
pub mod Session

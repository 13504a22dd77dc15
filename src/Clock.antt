-- ===== src/Clock.antt =====
-- The server of the time, of open62541_mqtt/mqtt/opcua-mqtt.c.
pub mod Defs
pub mod Reads
pub mod Tests

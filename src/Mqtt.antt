-- ===== src/Mqtt.antt =====
-- open62541_mqtt/mqtt/client-mqtt.c: the publisher over MQTT.
pub mod Defs
pub mod Session
pub mod Publish
pub mod Tests
pub mod Threads
pub mod Descriptors
pub mod Finishes
pub mod Alone
pub mod ThreadsTests

-- ===== src/Amqp.antt =====
-- open62541_mqtt/mqtt/client-amqps-producer.c: the publisher over AMQP.
pub mod Defs
pub mod Total
pub mod Batch
pub mod Waits
pub mod Paced
pub mod Tests

-- ===== src/PubSub.antt =====
-- open62541_mqtt/mqtt/pub0sub1.c: a program that publishes and reads what it has subscribed to.
pub mod Defs
pub mod Phases
pub mod Total
pub mod Tests

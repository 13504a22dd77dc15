-- ===== src/Server.antt =====
-- The OPC UA server of the device, of open62541_mqtt/mqtt/server.c.
pub mod Defs
pub mod Certificate
pub mod Greeting
pub mod Collect
pub mod Methods
pub mod Answers
pub mod Attributes
pub mod Sources
pub mod Handlers
pub mod Calls
pub mod Orderly
pub mod Sound
pub mod Declared
pub mod Distinct
pub mod Tests

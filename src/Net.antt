-- ===== src/Net.antt =====
-- The sockets of the bridge: open62541_mqtt/mqtt/transport.c and client-trans-tcp.cpp, over the
-- calls of the operating system.
pub mod Defs
pub mod Added
pub mod Growth
pub mod Counts
pub mod Open

-- ===== src/Tcp.antt =====
-- open62541_mqtt/mqtt/client-tcp.c and `tcp_sendPacketBuffer` of client-trans-tcp.cpp: the
-- publisher over TCP.
pub mod Defs
pub mod Socket
pub mod Run
pub mod Tests

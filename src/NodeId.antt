-- ===== src/NodeId.antt =====
-- open62541_mqtt/mqtt/client-nodeid.cpp: node ids written as text, "ns=2;i=5" or "ns=2;s=name".
pub mod Defs
pub mod Split
pub mod Text
pub mod Tests

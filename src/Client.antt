-- ===== src/Client.antt =====
-- The connection to the OPC UA server, of open62541_mqtt/mqtt/client-connection.c,
-- client-browse.c, client-main.cpp and client-monitoring.cpp.
pub mod Defs
pub mod Start
pub mod Reconnect
pub mod Main
pub mod MainEnds
pub mod Poll
pub mod PollReads
pub mod PollRefines
pub mod PollEnds
pub mod PollTotal
pub mod PollSteady
pub mod Tests
pub mod PollTests

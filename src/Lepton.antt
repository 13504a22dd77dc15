-- ===== src/Lepton.antt =====
-- The data items of the device, of open62541_mqtt/mqtt/lepton.c and lepton.h.
pub mod Defs
pub mod Read
pub mod Tests

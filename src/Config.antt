-- ===== src/Config.antt =====
-- open62541_mqtt/mqtt/client-config.cpp, with the types of client-config.h and client-nodemap.h:
-- the configuration file, and the map of groups and nodes that the rest of the bridge reads.
pub mod Defs
pub mod Maps
pub mod Ordered
pub mod View
pub mod Group
pub mod Load
pub mod Modes
pub mod Keys
pub mod Nodes
pub mod Bounds
pub mod Required
pub mod Broken
pub mod Sample
pub mod Stated
pub mod Meaning
pub mod Loads
pub mod LoadsServer
pub mod LoadsFile
pub mod LoadsTests
pub mod Tests

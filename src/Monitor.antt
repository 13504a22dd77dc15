-- ===== src/Monitor.antt =====
-- open62541_mqtt/mqtt/client-monitoring.cpp: values of nodes become messages.
pub mod Value
pub mod Epoch
pub mod Publish
pub mod Callback
pub mod Round
pub mod Agree
pub mod Pairs
pub mod Deliver
pub mod Loop
pub mod Sent
pub mod Shared
pub mod Contents
pub mod Sendable
pub mod Delivered
pub mod Returns
pub mod Rounds
pub mod Start
pub mod Follow
pub mod Threads
pub mod Tests
pub mod FollowTests
pub mod DeliverTests
pub mod SharedTests

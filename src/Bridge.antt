-- ===== src/Bridge.antt =====
-- The parts put together: the configuration, the main program and the threads that poll.
pub mod Defs
pub mod Reads
pub mod Ordered
pub mod Fitting
pub mod Steady
pub mod Whole
pub mod Total
pub mod Tests
pub mod WholeTests

-- ===== src/Adapters.antt =====
-- pilotfish/adapters: the dataplane and the sinks that the package ships.
pub mod Noop
pub mod MemorySink
pub mod FileSink

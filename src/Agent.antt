-- ===== src/Agent.antt =====
-- pilotfish/agent: the site's state and its cycle.
pub mod Epoch
pub mod BundleStore
pub mod Receipts
pub mod Cycle

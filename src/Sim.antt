-- ===== src/Sim.antt =====
-- sim/: the simulator that compares the governed path with three baselines. It drives the agent's
-- own code with evidence that its link models make up.
pub mod Links
pub mod Scenario
pub mod Metrics
pub mod Selectors
pub mod Events
pub mod Traffic
pub mod Run
pub mod Report
pub mod Scenarios

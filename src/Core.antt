-- ===== src/Core.antt =====
-- pilotfish/core: the domain models, the rules, the bundles and the decision.
pub mod Models
pub mod Rules
pub mod Bundle
pub mod Decide

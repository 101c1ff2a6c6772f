-- ===== src/Tests.antt =====
-- The examples of the properties, on concrete data.
mod Serial
mod Toy
mod Data
mod CoreExamples
mod WireExamples
mod AgentExamples
mod SiteExamples
mod SimExamples
mod GovernedExamples
mod CliExamples

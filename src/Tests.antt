-- ===== src/Tests.antt =====
-- Runs of the model, and the theorems at concrete inputs.
pub mod Sample
pub mod Runs
pub mod Orders
pub mod Users
pub mod Texts
pub mod Days
pub mod Tools
pub mod Plugins
pub mod Processes
pub mod Hosted
pub mod Chains
pub mod Tables
pub mod Subprocesses
pub mod Goroutines
pub mod Registrations
pub mod Acceptance
pub mod Callers

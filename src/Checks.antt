-- ===== src/Checks.antt =====
-- The rules that the built-in checks evaluate, each with the state that it leaves.
pub mod Account
pub mod Values
pub mod Rates
pub mod Bands
pub mod Hours
pub mod HoursLaws
pub mod Pinned
pub mod BandLaws

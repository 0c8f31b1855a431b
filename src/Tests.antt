-- ===== src/Tests.antt =====
-- Runs of the model at concrete games, and the theorems at them.
pub mod Samples
pub mod Games
pub mod Players
pub mod Searches
pub mod Deductions
pub mod Tables
pub mod Texts
pub mod Replays
pub mod Plans

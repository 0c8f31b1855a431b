-- ===== src/Reducers.antt =====
-- packages/game/src/reducers: how an action changes the state
pub mod Turn
pub mod PlannedCards
pub mod Planning
pub mod Possibilities
pub mod Marks
pub mod Deduction
pub mod Cards
pub mod Stats
pub mod Game
pub mod Initial
pub mod Hypothetical

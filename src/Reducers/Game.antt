-- ===== src/Reducers/Game.antt =====
-- reducers/gameReducer.ts
pub mod Piles
pub mod Actions
pub mod Reducer

-- ===== src/Reducers/Cards.antt =====
-- reducers/cardsReducer.ts: the deck after an action, each case a child module
pub mod Identity
pub mod Clue
pub mod Reveal
pub mod Draw
pub mod Reducer

-- ===== src/Reducers/Deduction.antt =====
-- reducers/cardDeductionReducer.ts: what the players can deduce from the cards that they see
pub mod Search
pub mod Sources
pub mod Update

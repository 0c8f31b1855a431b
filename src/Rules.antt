-- ===== src/Rules.antt =====
-- packages/game/src/rules: the rules of the game as functions of the state, each file a module.
pub mod CardState
pub mod ClueTokens
pub mod Characters
pub mod Turn
pub mod Hand
pub mod PlayStacks
pub mod Deck
pub mod Clues
pub mod Reversible
pub mod Sudoku
pub mod Card
pub mod Pace
pub mod CluesUsable
pub mod CardsGotten
pub mod DoubleDiscard

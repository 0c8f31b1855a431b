-- ===== src/Rules/Sudoku.antt =====
-- rules/variants/sudoku.ts
pub mod Walk
pub mod Assignment
pub mod MaxScore

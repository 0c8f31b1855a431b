-- ===== src/Types.antt =====
-- The data model of packages/game/src/interfaces, /types, /enums and constants.ts. Each record has
-- the fields that the rules and the reducers read or write; the names, colours and pips that only
-- the interface shows are left out.
pub mod Variant
pub mod Card
pub mod Action
pub mod Game

-- ===== src/Lib.antt =====
-- The game logic of hanabi-live: the rules and the reducers of packages/game/src, which the client
-- runs on every action that the server sends, and the parts of packages/client/src that keep the
-- states of a game and share hypothetical games. A `GameState` is folded over a list of actions by
-- `gameReducer`; the rest of the package answers questions about such a state.
--
-- Types models interfaces/, types/ and enums/: GameState.ts, CardState.ts, TurnState.ts,
-- StatsState.ts, GameMetadata.ts, Options.ts, Variant.ts, Suit.ts, gameActions.ts.
-- Rules models rules/*.ts and rules/variants/*.ts, a module for each file: CardState (cardState.ts and
-- variants/variantIdentity.ts), ClueTokens, Turn, Hand, PlayStacks, Deck, Clues, Card, Reversible and
-- Sudoku (variants/reversible.ts, variants/sudoku.ts), Characters (reducers/reducerHelpers.ts,
-- variants/characters.ts and json/characters.json), and, for stats.ts, Pace, CluesUsable, CardsGotten
-- and DoubleDiscard.
-- Reducers models reducers/*.ts: Turn (turnReducer.ts), Possibilities (cardPossibilitiesReducer.ts),
-- Deduction (cardDeductionReducer.ts), Cards (cardsReducer.ts), Marks (ddaReducer.ts and
-- knownTrashReducer.ts), Stats (statsReducer.ts), Game (gameReducer.ts), which calls all of them,
-- Initial (initialStates/) and Hypothetical (hypotheticalState.ts), which runs the game reducer on the
-- moves that players try out and keeps a state for every step back; PlannedCards and Planning
-- (hypotheticalPlanning.ts) turn what a player wants to try into the actions of that reducer.
-- Client models parts of packages/client/src: Replay (game/reducers/replayReducer.ts), which steps
-- through recorded states and runs a hypothetical; State (game/reducers/stateReducer.ts and
-- stateReducerHelpers.ts), which folds the actions of a game, records a state for each segment and
-- hands the actions of a replay on; HypoCompress (lobby/hypoCompress.ts), which writes a game as a
-- short text for a URL and reads it back.
-- Prelude and Result hold what the modules share; Tests runs the model at concrete games.
--
-- A reducer takes a state and gives a `Result`: an assertion or a `throw` of the code is a `Failure`.
-- The recipes of `produce`, which mutate a draft, return the new record; a thrown error leaves no
-- state, as in the code. The counts and the list that the deduction search mutates are one record
-- that every call takes and returns. The values -1, null and undefined of an unknown suit, rank,
-- player or turn are `none`. Numbers are unbounded, since every counter of a game stays far below
-- 2 ^ 53; a counter that can pass below 0 is a ℤ. Where the code computes with 0.5, in "Clue Starved"
-- variants, the model counts half clues. The variant is a value in the metadata, which the code looks
-- up by its name. Log entries keep which text is rendered with which arguments.
--
-- The search of sudoku.ts for an assignment of starts to suits is a `while (true)` loop; the model
-- runs it on fuel, 14407 rounds, which is more than the 6 * 7 ^ 4 that the rounds of five suits with
-- six values each can take: every round moves the assignment forward in the order of its entries. A
-- spent fuel is a `Failure` of its own.
--
-- In the texts of hypoCompress.ts a character is its code. The model starts from the value that
-- `JSON.parse` gives and leaves out printing it again. `parseIntSafe` (complete-common), `isEqual`
-- (lodash) and the look-up of variants are parameters; a theorem that needs it assumes that the number
-- that `toString` prints is parsed, that equal games are equal, or that the variant is found.
-- The array of recorded states may have holes, so its entries are optional.
-- The client's own reducer gives the player's notes to the game reducer and `reduceGameActions` does
-- not. The actions that go to notesReducer.ts are no actions of the modelled client; where a play uses
-- the notes, they are a field of its state.
--
-- Not modelled: text.ts and the other rendering, the catalogue of the variants, the efficiency ratios
-- of stats.ts, which are floating-point quotients, the notes with their regular expressions, the
-- spectators and the dragged card of the client's state, the drawing of the web client, and the
-- server.
pub mod Prelude
pub mod Result
pub mod Types
pub mod Rules
pub mod Reducers
pub mod Client
pub mod Tests

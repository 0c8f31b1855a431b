-- ===== src/Client/State.antt =====
-- packages/client/src/game/reducers/stateReducer.ts and stateReducerHelpers.ts
pub mod Actions
pub mod Folds
pub mod Recorded
pub mod Playing
pub mod Refinement
pub mod Identities
use hanabi_live.Prelude.{
  ℕ, zero, suc, ◌+◌, Bool, true, false, not, ◌&&◌, Option, none, some, List, [], ◌∷◌, option_eq,
  get_elem?, if◌then◌else◌,
}
use hanabi_live.Result.{Result, ok, ◌>>=◌}
use hanabi_live.Types.Action.{
  EndCondition, GameAction, game_over, timeout, terminated_by_player, terminated_by_vote,
  idle_timeout,
}
use hanabi_live.Types.Game.{GameMetadata, GameState}
use hanabi_live.Reducers.Stats.{Perspective}
use hanabi_live.Reducers.Game.Reducer.{game_reducer}

-- The ends that get a segment of their own.
abbrev pub is_separate_end : EndCondition → Bool
is_separate_end timeout = true
is_separate_end terminated_by_player = true
is_separate_end terminated_by_vote = true
is_separate_end idle_timeout = true
is_separate_end _ = false

abbrev pub melds : GameAction → Bool
melds (game_over a) = not (is_separate_end a.end_condition)
melds _ = false

abbrev pub should_store_segment : Option ℕ → Option ℕ → GameAction → Bool
should_store_segment none previous action = false
should_store_segment (some segment) previous action =
    if melds action then true else not (option_eq (some segment) previous)

-- `states[segment] = state`, which leaves holes when the array is too short.
abbrev pub write_at : List (Option GameState) → ℕ → GameState → List (Option GameState)
write_at [] zero state = some state ∷ []
write_at [] (suc n) state = none ∷ write_at [] n state
write_at (x ∷ xs) zero state = some state ∷ xs
write_at (x ∷ xs) (suc n) state = x ∷ write_at xs n state

abbrev pub store_segment :
    List (Option GameState) → GameState → Option ℕ → GameAction → List (Option GameState)
store_segment states next previous action = elim next.turn.segment [
  | none ↦ states
  | some segment ↦
      if should_store_segment (some segment) previous action
      then write_at states segment next
      else states
]

pub record Reduced : Type 0 where
  pub game : GameState
  pub states : List (Option GameState)

-- The arguments `playing`, `shadowing` and `finished`.
pub record Viewer : Type 0 where
  pub playing : Bool
  pub shadowing : Bool
  pub finished : Bool

-- What a round of the loop makes of the next state.
abbrev pub reduce_step : Reduced → GameState → GameAction → Reduced
reduce_step r next action = record {
  game = next;
  states = store_segment r.states next r.game.turn.segment action;
}

-- The point of view of `reduceGameActions`: never a hypothetical, and without notes.
abbrev pub fold_view : Viewer → Perspective
fold_view viewer = record {
  playing = viewer.playing;
  shadowing = viewer.shadowing;
  finished = viewer.finished;
  hypothetical = false;
  our_notes = none;
}

unfoldable pub reduce_from : Reduced → List GameAction → Viewer → GameMetadata → Result Reduced
reduce_from r [] viewer metadata = ok r
reduce_from r (action ∷ actions) viewer metadata = do
  next ← game_reducer r.game action (fold_view viewer) metadata
  reduce_from (reduce_step r next action) actions viewer metadata

unfoldable pub reduce_game_actions :
    List GameAction → GameState → Viewer → GameMetadata → Result Reduced
unfolding reduce_from
reduce_game_actions actions initial viewer metadata =
    reduce_from (record { game = initial; states = some initial ∷ [] }) actions viewer metadata

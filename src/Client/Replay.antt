-- ===== src/Client/Replay.antt =====
-- packages/client/src/game/reducers/replayReducer.ts, with types/ReplayState.ts and the replay
-- actions of types/actions.ts
pub mod Segments
use text.Mathlib.Text.{◌==◌ as str_eq}
use hanabi_live.Prelude.{
  ℕ, String, Bool, true, false, not, ◌&&◌, Option, none, some, List, get_elem?, is_some,
  if◌then◌else◌,
}
use hanabi_live.Prelude.Int.{ℤ, pos, negsuc}
use hanabi_live.Result.{
  Result, ok, throw, Failure, assert_defined, not_in_replay, already_in_replay, negative_segment,
  no_shared, has_hypothetical, no_hypothetical, no_replay_state, ◌>>=◌,
}
use hanabi_live.Types.Action.{GameAction}
use hanabi_live.Types.Game.{GameMetadata, GameState}
use hanabi_live.Reducers.Hypothetical.{
  HypotheticalState, HypotheticalStateAction, ActionIncludingHypothetical, including, back,
  show_drawn_cards, hypothetical_state_reducer, initialize_hypothetical_state,
}

pub record SharedReplayState : Type 0 where
  pub segment : ℕ
  pub use_shared_segments : Bool
  pub leader : String
  pub am_leader : Bool

-- `states` is indexed by segment; a hole of the array is `none`.
pub record ReplayState : Type 0 where
  pub active : Bool
  pub segment : ℕ
  pub states : List (Option GameState)
  pub actions : List GameAction
  pub database_id : Option ℕ
  pub shared : Option SharedReplayState
  pub hypothetical : Option HypotheticalState

pub data ReplayAction : Type 0 where
  replay_enter : (segment : ℤ) → ReplayAction
  replay_exit : ReplayAction
  replay_segment : (segment : ℤ) → ReplayAction
  replay_shared_segment : (segment : ℤ) → ReplayAction
  replay_use_shared_segments : Bool → ReplayAction
  replay_leader : (name : String) → ReplayAction
  hypo_start : (show : Bool) → List ActionIncludingHypothetical → ReplayAction
  hypo_end hypo_back : ReplayAction
  hypo_action : ActionIncludingHypothetical → ReplayAction
  hypo_show_drawn_cards : Bool → ReplayAction

abbrev pub is_enter : ReplayAction → Bool
is_enter (replay_enter segment) = true
is_enter _ = false

abbrev pub natural_segment : ℤ → Result ℕ
natural_segment (pos n) = ok n
natural_segment (negsuc n) = throw negative_segment

-- `states[segment]`
abbrev pub state_at : List (Option GameState) → ℕ → Option GameState
state_at states segment = elim (get_elem? states segment) [ none ↦ none | some state ↦ state ]

unfoldable pub enter : ReplayState → ℤ → Result ReplayState
enter s segment =
    if s.active
    then throw already_in_replay
    else do n ← natural_segment segment; ok (record s { active = true; segment = n })

unfoldable pub share_segment : ReplayState → ℤ → Result ReplayState
share_segment s segment = do
  shared ← assert_defined no_shared s.shared
  n ← natural_segment segment
  ok (record s {
    shared = some (record shared { segment = n });
    segment = if shared.use_shared_segments then n else s.segment;
  })

unfoldable pub use_shared : ReplayState → Bool → Result ReplayState
use_shared s use_segments = do
  shared ← assert_defined no_shared s.shared
  ok (record s {
    shared = some (record shared {
      use_shared_segments = use_segments;
      segment = if shared.am_leader && use_segments then s.segment else shared.segment;
    });
  })

unfoldable pub set_leader : ReplayState → String → GameMetadata → Result ReplayState
set_leader s name metadata = do
  shared ← assert_defined no_shared s.shared
  ok (record s {
    shared = some (record shared { leader = name; am_leader = str_eq name metadata.our_username });
  })

-- "Bring us to the current shared replay turn, if we are not already there"
abbrev pub join_shared : ReplayState → ReplayState
join_shared s = elim s.shared [
  | none ↦ s
  | some shared ↦ record s {
    segment = shared.segment;
    shared = some (record shared { use_shared_segments = true });
  }
]

unfoldable pub start_hypothetical :
    ReplayState → Bool → List ActionIncludingHypothetical → Bool → GameMetadata → Result ReplayState
start_hypothetical s show actions finished metadata =
    if is_some s.hypothetical then throw has_hypothetical else do
      let joined = join_shared s
      ongoing ← assert_defined no_replay_state (state_at joined.states joined.segment)
      hypothetical ← initialize_hypothetical_state ongoing show actions finished metadata
      ok (record joined { hypothetical = some hypothetical })

unfoldable pub step_hypothetical :
    ReplayState → HypotheticalStateAction → Bool → GameMetadata → Result ReplayState
step_hypothetical s action finished metadata = do
  hypothetical ← assert_defined no_hypothetical s.hypothetical
  next ← hypothetical_state_reducer hypothetical action finished metadata
  ok (record s { hypothetical = some next })

unfoldable pub replay_switch : ReplayState → ReplayAction → Bool → GameMetadata → Result ReplayState
unfolding enter share_segment use_shared set_leader start_hypothetical step_hypothetical
replay_switch s (replay_enter segment) finished metadata = enter s segment
replay_switch s replay_exit finished metadata = ok (record s { active = false; segment = 0 })
replay_switch s (replay_segment segment) finished metadata = do
  n ← natural_segment segment
  ok (record s { segment = n })
replay_switch s (replay_shared_segment segment) finished metadata = share_segment s segment
replay_switch s (replay_use_shared_segments use_segments) finished metadata =
    use_shared s use_segments
replay_switch s (replay_leader name) finished metadata = set_leader s name metadata
replay_switch s (hypo_start show actions) finished metadata =
    start_hypothetical s show actions finished metadata
replay_switch s hypo_end finished metadata = do
  hypothetical ← assert_defined no_hypothetical s.hypothetical
  ok (record s { hypothetical = none })
replay_switch s hypo_back finished metadata = step_hypothetical s back finished metadata
replay_switch s (hypo_action action) finished metadata =
    step_hypothetical s (including action) finished metadata
replay_switch s (hypo_show_drawn_cards show) finished metadata =
    step_hypothetical s (show_drawn_cards show) finished metadata

unfoldable pub replay_reducer :
    ReplayState → ReplayAction → Bool → GameMetadata → Result ReplayState
unfolding replay_switch
replay_reducer s action finished metadata =
    if not s.active && not (is_enter action)
    then throw not_in_replay
    else replay_switch s action finished metadata

-- ===== src/Reducers/Game/Reducer.antt =====
-- `gameReducer` of reducers/gameReducer.ts: the switch, then the derived parts of the state in turn
pub mod Table
pub mod Orders
pub mod Moving
pub mod Counters
pub mod Turns
pub mod Notes
pub mod Derived
pub mod Statistics
pub mod Unnoted
use hanabi_live.Prelude.{
  ℕ, Bool, true, false, ◌&&◌, ◌||◌, Option, none, some, List, [], ◌∷◌, ◌==◌, get_elem?, set,
  if◌then◌else◌,
}
use hanabi_live.Result.{Result, ok, assert_defined, no_play_stack, ◌>>=◌}
use hanabi_live.Types.Variant.{Variant}
use hanabi_live.Types.Card.{CardState, CardStatus, SuitRankTuple}
use hanabi_live.Types.Action.{GameAction, discard, play, note_list, receive_note}
use hanabi_live.Types.Game.{GameMetadata, GameState}
use hanabi_live.Rules.CardState.{has_reversed_suits}
use hanabi_live.Rules.PlayStacks.{get_stack_direction, get_stack_start_rank}
use hanabi_live.Rules.Card.{get_card_status}
use hanabi_live.Rules.DoubleDiscard.{stacks_of}
use hanabi_live.Reducers.Turn.{turn_reducer}
use hanabi_live.Reducers.Marks.{dda_reducer, known_trash_reducer}
use hanabi_live.Reducers.Cards.Draw.{all_identities}
use hanabi_live.Reducers.Cards.Reducer.{cards_reducer}
use hanabi_live.Reducers.Stats.{Perspective, stats_reducer}
use hanabi_live.Reducers.Game.Actions.{game_switch}

-- The suit of a played card: announced, or as the deck has it.
abbrev pub played_suit : Option ℕ → ℕ → List CardState → Option ℕ
played_suit (some suit_index) order deck = some suit_index
played_suit none order deck = elim (get_elem? deck order) [
  | none ↦ none
  | some card ↦ card.suit_index
]

abbrev pub direct_suit : Option ℕ → GameState → Variant → Result GameState
direct_suit none s variant = ok s
direct_suit (some suit_index) s variant = do
  play_stack ← assert_defined no_play_stack (get_elem? s.play_stacks suit_index)
  let direction = get_stack_direction suit_index play_stack s.deck variant
  ok (record s { play_stack_directions = set s.play_stack_directions suit_index direction })

-- "Resolve the stack direction."
unfoldable pub resolve_direction : GameState → GameAction → Variant → Result GameState
resolve_direction s (play a) variant =
    if has_reversed_suits variant || variant.sudoku
    then direct_suit (played_suit a.suit_index a.order s.deck) s variant
    else ok s
resolve_direction s _ variant = ok s

abbrev pub start_suit : Option ℕ → GameState → Result GameState
start_suit none s = ok s
start_suit (some suit_index) s = do
  play_stack ← assert_defined no_play_stack (get_elem? s.play_stacks suit_index)
  let start = get_stack_start_rank play_stack s.deck
  ok (record s { play_stack_starts = set s.play_stack_starts suit_index start })

-- "In Sudoku variants, resolve the stack starting value."
unfoldable pub resolve_start : GameState → GameAction → Variant → Result GameState
resolve_start s (play a) variant =
    if variant.sudoku then start_suit (played_suit a.suit_index a.order s.deck) s else ok s
resolve_start s _ variant = ok s

-- The two loops over the suits and the ranks.
unfoldable pub update_statuses :
    GameState
    → Variant
    → List SuitRankTuple
    → (ℕ → ℕ → Option CardStatus)
    → Result (ℕ → ℕ → Option CardStatus)
update_statuses s variant [] statuses = ok statuses
update_statuses s variant ((suit_index, rank) ∷ rest) statuses = do
  status ← get_card_status suit_index rank s.deck (stacks_of s) variant
  update_statuses s variant rest
      (λ i r. if i == suit_index && r == rank then some status else statuses i r)

abbrev is_known : Option ℕ → Option ℕ → Bool
is_known (some suit_index) (some rank) = true
is_known _ _ = false

abbrev pub changes_statuses : GameAction → Bool
changes_statuses (play a) = is_known a.suit_index a.rank
changes_statuses (discard a) = is_known a.suit_index a.rank
changes_statuses _ = false

unfoldable pub resolve_statuses : GameState → GameAction → Variant → Result GameState
unfolding update_statuses
resolve_statuses s action variant =
    if changes_statuses action
    then (do
      statuses ← update_statuses s variant (all_identities variant) s.card_status
      ok (record s { card_status = statuses }))
    else ok s

-- What follows the switch. `previous` is the state before the action.
unfoldable pub derive_state :
    GameState → GameState → GameAction → Perspective → GameMetadata → Result GameState
unfolding resolve_direction resolve_start resolve_statuses
derive_state previous s action view metadata = do
  let variant = metadata.variant
  deck ← cards_reducer previous.deck action s metadata
  directed ← resolve_direction (record s { deck = deck }) action variant
  started ← resolve_start directed action variant
  judged ← resolve_statuses started action variant
  next ← turn_reducer previous.turn action judged metadata
  let turned = record judged { turn = next }
  stats ← stats_reducer previous.stats action previous turned view metadata
  marked ← dda_reducer turned.deck stats.double_discard_card turned.turn.current_player_index
  known ← known_trash_reducer marked (stacks_of turned) variant
  ok (record turned { stats = stats; deck = known })

abbrev pub is_ignored : GameAction → Bool
is_ignored note_list = true
is_ignored receive_note = true
is_ignored _ = false

unfoldable pub game_reducer : GameState → GameAction → Perspective → GameMetadata → Result GameState
unfolding derive_state
game_reducer s action view metadata = do
  switched ← game_switch s action view metadata
  if is_ignored action then ok switched else derive_state s switched action view metadata

-- ===== src/Reducers/Game/Actions.antt =====
-- reducers/gameReducer.ts: the `switch` on the action, one function for each case
use hanabi_live.Prelude.{
  ℕ, suc, ◌+◌, Bool, true, false, Option, none, some, List, [], ◌∷◌, ◌++◌, get_elem?, set,
  if◌then◌else◌,
}
use hanabi_live.Prelude.Int.{ℤ, pos, sub_ℕ, pos_part, neg_part, ◌-ℤ◌}
use hanabi_live.Result.{Result, ok, assert_defined, no_segment, no_hand, no_card, ◌>>=◌}
use hanabi_live.Types.Variant.{Variant}
use hanabi_live.Types.Action.{
  EndCondition, played, discarded, ActionClue, ActionDiscard, ActionDraw, ActionGameOver,
  ActionPlay, ActionPlayerTimes, ActionStrike, GameAction, clue, discard, draw, game_over, play,
  player_times, strike,
}
use hanabi_live.Types.Game.{
  GameMetadata, GameState, LogText, clue_text, discard_text, play_text, goes_first_text,
  game_over_text, player_time_text, duration_text,
}
use hanabi_live.Rules.CardState.{is_card_clued}
use hanabi_live.Rules.ClueTokens.{get_adjusted_clue_tokens}
use hanabi_live.Rules.Deck.{is_initial_deal_finished}
use hanabi_live.Rules.Card.{is_card_critical, is_card_needed_for_max_score}
use hanabi_live.Rules.DoubleDiscard.{stacks_of}
use hanabi_live.Reducers.Cards.Clue.{negative_orders}
use hanabi_live.Reducers.Stats.{Perspective}
use hanabi_live.Reducers.Game.Piles.{remove_from_hand, lay_down, card_cycle}

-- `gameState.log.push({ turn: gameState.turn.turnNum + 1, text })`
abbrev pub push_log : GameState → LogText → GameState
push_log s text = record s {
  log = s.log ++ record { turn = s.turn.turn_num + 1; text = text } ∷ [];
}

unfoldable pub game_after_clue :
    GameState → ActionClue → Perspective → GameMetadata → Result GameState
game_after_clue s a view metadata = do
  segment ← assert_defined no_segment s.turn.segment
  target_hand ← assert_defined no_hand (get_elem? s.hands a.target)
  giver_hand ← assert_defined no_hand (get_elem? s.hands a.giver)
  let given = record s {
    clue_tokens = s.clue_tokens -ℤ pos (get_adjusted_clue_tokens 1 metadata.variant);
    clues =
        s.clues
        ++ record {
          clue = a.clue;
          giver = a.giver;
          target = a.target;
          segment = segment;
          list = a.list;
          negative_list = negative_orders a target_hand;
        }
          ∷ [];
  }
  let logged = push_log given (clue_text a target_hand view.hypothetical)
  ok (record logged { hands = set s.hands a.giver (card_cycle giver_hand s.deck metadata) })

-- The "(critical)" text is for a card that is still needed.
unfoldable pub is_critical_and_needed : ActionDiscard → GameState → Variant → Result Bool
is_critical_and_needed a s variant = do
  critical ← is_card_critical a.suit_index a.rank s.deck s.play_stack_directions variant
  if critical
      then is_card_needed_for_max_score a.suit_index a.rank s.deck (stacks_of s) variant
      else ok false

unfoldable pub game_after_discard :
    GameState → ActionDiscard → Perspective → GameMetadata → Result GameState
unfolding remove_from_hand lay_down
game_after_discard s a view metadata = do
  removed ← remove_from_hand s a.player_index a.order
  laid ← lay_down (discarded a) removed.0 metadata.variant view
  card ← assert_defined no_card (get_elem? laid.deck a.order)
  critical ← is_critical_and_needed a laid metadata.variant
  ok (
      push_log laid (
        discard_text a removed.1 (is_card_clued card) critical view.playing view.shadowing
          view.hypothetical))

abbrev pub give_to : List (List ℕ) → ℕ → ℕ → List (List ℕ)
give_to hands player order = elim (get_elem? hands player) [
  | none ↦ hands
  | some hand ↦ set hands player (hand ++ order ∷ [])
]

unfoldable pub game_after_draw : GameState → ActionDraw → GameMetadata → Result GameState
game_after_draw s a metadata = do
  let drawn = record s {
    cards_remaining_in_the_deck = s.cards_remaining_in_the_deck -ℤ pos 1;
    hands = give_to s.hands a.player_index a.order;
  }
  finished ← is_initial_deal_finished drawn.cards_remaining_in_the_deck metadata
  ok (if finished then push_log drawn (goes_first_text s.turn.current_player_index) else drawn)

abbrev pub is_normal : EndCondition → Bool
is_normal EndCondition.normal = true
is_normal _ = false

unfoldable pub game_after_game_over : GameState → ActionGameOver → GameState
game_after_game_over s a =
    let ended = record s { score = if is_normal a.end_condition then s.score else 0 } in
    push_log ended (game_over_text a.end_condition a.player_index ended.score a.votes)

unfoldable pub game_after_play :
    GameState → ActionPlay → Perspective → GameMetadata → Result GameState
unfolding remove_from_hand lay_down
game_after_play s a view metadata = do
  removed ← remove_from_hand s a.player_index a.order
  laid ← lay_down (played a) removed.0 metadata.variant view
  card ← assert_defined no_card (get_elem? laid.deck a.order)
  ok (
      push_log (record laid { score = suc laid.score })
        (play_text a removed.1 (is_card_clued card) view.playing view.shadowing view.hypothetical))

abbrev pub negate : ℤ → ℤ
negate n = sub_ℕ (neg_part n) (pos_part n)

-- The loop over the players' times, from a player on.
unfoldable pub log_times : GameState → ℕ → List ℤ → Bool → GameState
log_times s player [] timed = s
log_times s player (time ∷ times) timed =
    log_times (push_log s (player_time_text player (if timed then time else negate time) timed))
      (player + 1) times timed

unfoldable pub game_after_player_times : GameState → ActionPlayerTimes → GameMetadata → GameState
unfolding log_times
game_after_player_times s a metadata =
    push_log (log_times s 0 a.player_times metadata.options.timed) (duration_text a.duration)

abbrev segment_or_one : Option ℕ → ℕ
segment_or_one none = 1
segment_or_one (some n) = n

unfoldable pub game_after_strike : GameState → ActionStrike → GameState
game_after_strike s a = record s {
  strikes = s.strikes ++ record { segment = segment_or_one s.turn.segment; order = a.order } ∷ [];
}

unfoldable pub game_switch : GameState → GameAction → Perspective → GameMetadata → Result GameState
game_switch s (clue a) view metadata = game_after_clue s a view metadata
game_switch s (discard a) view metadata = game_after_discard s a view metadata
game_switch s (draw a) view metadata = game_after_draw s a metadata
game_switch s (game_over a) view metadata = ok (game_after_game_over s a)
game_switch s (play a) view metadata = game_after_play s a view metadata
game_switch s (player_times a) view metadata = ok (game_after_player_times s a metadata)
game_switch s (strike a) view metadata = ok (game_after_strike s a)
game_switch s _ view metadata = ok s

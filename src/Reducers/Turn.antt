-- ===== src/Reducers/Turn.antt =====
-- reducers/turnReducer.ts
pub mod Moves
pub mod Progress
pub mod Deal
use hanabi_live.Prelude.{
  ℕ, suc, ◌+◌, Bool, true, false, not, ◌&&◌, Option, none, some, is_none, ltb, if◌then◌else◌,
}
use hanabi_live.Prelude.Int.{ℤ, pos, eq_ℤ}
use hanabi_live.Result.{Result, ok, assert_defined, no_segment, ◌>>=◌}
use hanabi_live.Types.Action.{
  EndCondition, ActionDiscard, ActionGameOver, GameAction, clue, discard, draw, game_over, play,
  player_times,
}
use hanabi_live.Types.Game.{GameMetadata, TurnState, GameState, CharacterName}
use hanabi_live.Rules.Characters.{get_character_name_for_player}
use hanabi_live.Rules.Deck.{is_initial_deal_finished}
use hanabi_live.Rules.Turn.{
  get_end_turn, get_next_player_index, should_end_turn_after_clue, should_end_turn_after_draw,
  should_play_order_invert,
}

-- `if (turn.segment !== null) { turn.segment++; }`
abbrev pub bump_segment : Option ℕ → Option ℕ
bump_segment none = none
bump_segment (some n) = some (suc n)

-- The last assignment of `endTurnNum`, at the new turn number.
abbrev new_end_turn : TurnState → ℤ → GameMetadata → Result (Option ℕ)
new_end_turn t deck_size metadata =
    if eq_ℤ deck_size (pos 0) && is_none t.end_turn_num
    then (do end ← get_end_turn (t.turn_num + 1) metadata; ok (some end))
    else ok t.end_turn_num

unfoldable pub next_turn : TurnState → ℤ → CharacterName → GameMetadata → Result TurnState
next_turn t deck_size name metadata = do
  let inverted =
      if should_play_order_invert name then not t.play_order_inverted else t.play_order_inverted
  end ← new_end_turn t deck_size metadata
  ok (record t {
    turn_num = t.turn_num + 1;
    play_order_inverted = inverted;
    current_player_index =
        get_next_player_index t.current_player_index metadata.options.num_players inverted;
    end_turn_num = end;
    cards_played_or_discarded_this_turn = 0;
    cards_discarded_this_turn = 0;
    clues_given_this_turn = 0;
  })

-- The conditions that give the end of the game a replay segment of its own.
abbrev pub has_own_segment : EndCondition → Bool
has_own_segment EndCondition.timeout = true
has_own_segment EndCondition.terminated_by_player = true
has_own_segment EndCondition.terminated_by_vote = true
has_own_segment EndCondition.idle_timeout = true
has_own_segment _ = false

abbrev pub end_turn_if : Bool → TurnState → ℤ → CharacterName → GameMetadata → Result TurnState
end_turn_if ends t deck_size name metadata =
    if ends then next_turn t deck_size name metadata else ok t

abbrev ends_after_draw : TurnState → CharacterName → GameState → GameMetadata → Bool
ends_after_draw t name s metadata =
    should_end_turn_after_draw t.cards_played_or_discarded_this_turn t.cards_discarded_this_turn
      name s.clue_tokens metadata.variant

unfoldable pub turn_after_play :
    TurnState → CharacterName → GameState → GameMetadata → Result TurnState
turn_after_play t name s metadata =
    let t' = record t {
      cards_played_or_discarded_this_turn = t.cards_played_or_discarded_this_turn + 1;
    } in
    let deck_size = s.cards_remaining_in_the_deck in
    if eq_ℤ deck_size (pos 0)
    then next_turn (record t' { segment = bump_segment t'.segment }) deck_size name metadata
    else ok t'

unfoldable pub turn_after_discard :
    ActionDiscard → TurnState → CharacterName → GameState → GameMetadata → Result TurnState
turn_after_discard a t name s metadata =
    let t' = record t {
      cards_played_or_discarded_this_turn = t.cards_played_or_discarded_this_turn + 1;
      cards_discarded_this_turn = t.cards_discarded_this_turn + (if a.failed then 0 else 1);
    } in
    let deck_size = s.cards_remaining_in_the_deck in
    if eq_ℤ deck_size (pos 0)
    then end_turn_if (ends_after_draw t' name s metadata)
        (record t' { segment = bump_segment t'.segment }) deck_size name metadata
    else ok t'

unfoldable pub turn_after_clue :
    TurnState → CharacterName → GameState → GameMetadata → Result TurnState
turn_after_clue t name s metadata = do
  segment ← assert_defined no_segment t.segment
  let given = t.clues_given_this_turn + 1
  end_turn_if (should_end_turn_after_clue given name)
      (record t { segment = some (suc segment); clues_given_this_turn = given })
      s.cards_remaining_in_the_deck name metadata

-- A draw of the initial deal, and a draw of the game.
abbrev pub after_draw :
    Option ℕ → TurnState → CharacterName → GameState → GameMetadata → Result TurnState
after_draw none t name s metadata = do
  finished ← is_initial_deal_finished s.cards_remaining_in_the_deck metadata
  ok (if finished then record t { segment = some 0 } else t)
after_draw (some segment) t name s metadata =
    end_turn_if (ends_after_draw t name s metadata)
      (record t {
        segment =
            some (if ltb 0 t.cards_played_or_discarded_this_turn then suc segment else segment);
      })
      s.cards_remaining_in_the_deck name metadata

unfoldable pub turn_after_draw :
    TurnState → CharacterName → GameState → GameMetadata → Result TurnState
turn_after_draw t name s metadata = after_draw t.segment t name s metadata

unfoldable pub turn_after_game_over : ActionGameOver → TurnState → Result TurnState
turn_after_game_over a t = do
  segment ← assert_defined no_segment t.segment
  ok (record t {
    current_player_index = none;
    segment = some (if has_own_segment a.end_condition then suc segment else segment);
  })

unfoldable pub turn_after_player_times : TurnState → Result TurnState
turn_after_player_times t = do
  segment ← assert_defined no_segment t.segment
  ok (record t { segment = some (suc segment) })

abbrev pub turn_switch :
    GameAction → TurnState → CharacterName → GameState → GameMetadata → Result TurnState
turn_switch (play a) t name s metadata = turn_after_play t name s metadata
turn_switch (discard a) t name s metadata = turn_after_discard a t name s metadata
turn_switch (clue a) t name s metadata = turn_after_clue t name s metadata
turn_switch (draw a) t name s metadata = turn_after_draw t name s metadata
turn_switch (game_over a) t name s metadata = turn_after_game_over a t
turn_switch (player_times a) t name s metadata = turn_after_player_times t
turn_switch _ t name s metadata = ok t

unfoldable pub turn_reducer : TurnState → GameAction → GameState → GameMetadata → Result TurnState
unfolding next_turn turn_after_play turn_after_discard turn_after_clue turn_after_draw
    turn_after_game_over turn_after_player_times
turn_reducer t action s metadata = do
  name ← get_character_name_for_player t.current_player_index metadata.character_assignments
  turn_switch action t name s metadata

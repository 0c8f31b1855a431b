-- ===== src/Tests/Games.antt =====
-- `gameReducer` at a game of two players.
use hanabi_live.Prelude.{◌+◌, ◌≡◌, refl, [], ◌∷◌, arith}
use hanabi_live.Prelude.Int.{pos, ◌≤ℤ◌}
use hanabi_live.Result.{ok}
use hanabi_live.Types.Variant.{max_clue_num}
use hanabi_live.Types.Game.{GameState}
use hanabi_live.Rules.ClueTokens.{get_adjusted_clue_tokens}
use hanabi_live.Reducers.Game.Piles.Conservation.{on_piles}
use hanabi_live.Reducers.Game.Reducer.{game_reducer}
use hanabi_live.Reducers.Game.Reducer.Orders.{game_reducer-on_piles}
use hanabi_live.Reducers.Game.Reducer.Table.{table_of}
use hanabi_live.Reducers.Game.Reducer.Counters.{
  Counted, game_reducer-Counted, game_reducer-clue_tokens-le-max,
}
use hanabi_live.Tests.Samples.{from_ok, sample_state, sample_metadata, sample_view, sample_play}

abbrev played_state : GameState
unfolding game_reducer
played_state =
    from_ok sample_state (game_reducer sample_state sample_play sample_view sample_metadata)

play_returns : game_reducer sample_state sample_play sample_view sample_metadata ≡ ok played_state
unfolding played_state hanabi_live.Rules.CardsGotten.get_cards_gotten
    hanabi_live.Rules.PlayStacks.get_stack_direction
    hanabi_live.Rules.Card.is_card_needed_for_max_score hanabi_live.Rules.Card.is_card_critical
    hanabi_live.Rules.Card.get_card_status hanabi_live.Rules.Card.is_all_card_possibilities_trash
    hanabi_live.Rules.Turn.get_end_turn
    hanabi_live.Rules.Reversible.reversible_get_max_score_per_stack
    hanabi_live.Rules.Characters.get_character_name_for_player
    hanabi_live.Rules.CluesUsable.get_clues_still_usable_not_rounded
    hanabi_live.Rules.CluesUsable.get_clues_still_usable
    hanabi_live.Rules.ClueTokens.get_discard_clue_token_value
    hanabi_live.Rules.ClueTokens.get_suit_complete_clue_token_value
    hanabi_live.Rules.Deck.get_num_copies_of_card
    hanabi_live.Rules.Deck.get_num_discarded_copies_of_card hanabi_live.Rules.Deck.total
    hanabi_live.Rules.Deck.is_all_discarded hanabi_live.Rules.Deck.get_all_discarded_set_for_suit
    hanabi_live.Reducers.Turn.turn_reducer hanabi_live.Reducers.Stats.stats_reducer
    hanabi_live.Reducers.Marks.dda_reducer hanabi_live.Reducers.Marks.known_trash_reducer
    hanabi_live.Reducers.Game.Actions.game_after_play hanabi_live.Reducers.Game.Actions.game_switch
    hanabi_live.Reducers.Cards.Reveal.cards_after_reveal
    hanabi_live.Reducers.Cards.Draw.get_initial_card_state
    hanabi_live.Reducers.Cards.Reducer.cards_reducer
    hanabi_live.Reducers.Deduction.Update.should_update_card_possibilities
    hanabi_live.Reducers.Deduction.Update.make_deductions
    hanabi_live.Reducers.Deduction.Update.card_deduction_reducer
    hanabi_live.Reducers.Deduction.Sources.get_card_count_map
play_returns = refl

game_reducer-on_piles_example : on_piles 0 played_state ≡ on_piles 0 sample_state + 0
game_reducer-on_piles_example =
    game_reducer-on_piles 0 sample_state played_state sample_play sample_view sample_metadata
      (0 ∷ 1 ∷ [], refl, refl) play_returns

game_reducer-Counted_example : Counted sample_play (table_of sample_state) (table_of played_state)
game_reducer-Counted_example =
    game_reducer-Counted sample_state played_state sample_play sample_view sample_metadata
      play_returns

tokens_at_most_8 : pos 7 ≤ℤ pos (get_adjusted_clue_tokens max_clue_num sample_metadata.variant)
unfolding get_adjusted_clue_tokens
tokens_at_most_8 = omega arith

game_reducer-clue_tokens-le-max_example :
    played_state.clue_tokens ≤ℤ pos (get_adjusted_clue_tokens max_clue_num sample_metadata.variant)
game_reducer-clue_tokens-le-max_example =
    game_reducer-clue_tokens-le-max sample_state played_state sample_play sample_view
      sample_metadata play_returns tokens_at_most_8

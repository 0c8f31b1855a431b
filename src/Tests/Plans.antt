-- ===== src/Tests/Plans.antt =====
-- A plan for a hypothetical move of two players with plain suits
use hanabi_live.Prelude.{ℕ, ◌≡◌, refl, true, false, none, some, [], ◌∷◌, ◌++◌}
use hanabi_live.Result.{ok, ◌>>=◌}
use hanabi_live.Types.Card.{CardIdentity, CardNote}
use hanabi_live.Types.Action.{GameAction, play, draw, turn}
use hanabi_live.Types.Game.{GameState}
use hanabi_live.Reducers.Game.Reducer.{game_reducer}
use hanabi_live.Reducers.Hypothetical.{
  HypotheticalState, including, apply_all, hypothetical_state_reducer, hypothetical_view, store,
}
use hanabi_live.Reducers.Planning.{
  PlanHypotheticalActionContext, intend_play, plan_hypothetical_action,
}
use hanabi_live.Reducers.Planning.Accepted.{taken, plan_hypothetical_action-applied}
use hanabi_live.Tests.Samples.{from_ok, sample_metadata, sample_state, sample_variant, known_card}

abbrev identity : ℕ → ℕ → CardIdentity
identity suit_index rank = record { suit_index = some suit_index; rank = some rank }

abbrev no_note : CardNote
no_note = record {
  known_trash = false;
  finessed = false;
  unclued = false;
  clued = false;
  possibilities = [];
}

abbrev sample_context : PlanHypotheticalActionContext
sample_context = record {
  game_state = sample_state;
  metadata = sample_metadata;
  variant = sample_variant;
  card_identities = identity 0 1 ∷ identity 0 2 ∷ identity 1 1 ∷ identity 1 2 ∷ identity 0 1 ∷ [];
  morphed_identities = λ order. none;
  notes = no_note ∷ no_note ∷ no_note ∷ no_note ∷ no_note ∷ [];
  playing = false;
  card_views =
      record {
        state = known_card 4 0 (0, 1);
        is_stack_base = false;
        visible_suit_index = some 0;
        visible_rank = some 1;
      }
      ∷ [];
}

-- Player 0 plays the last card of the deck, which is first drawn.
abbrev drawn : GameAction
drawn = draw (record { player_index = 0; order = 4; suit_index = some 0; rank = some 1 })

abbrev bottom_play : GameAction
bottom_play = play (record { player_index = 0; order = 4; suit_index = some 0; rank = some 1 })

plan_returns :
    plan_hypothetical_action (intend_play 4) sample_context
    ≡ ok (some ((drawn ∷ []) ++ bottom_play ∷ turn ∷ []))
unfolding plan_hypothetical_action hanabi_live.Rules.PlayStacks.get_next_playable_ranks
plan_returns = refl

abbrev hypothetical_sample : HypotheticalState
hypothetical_sample = record {
  ongoing = sample_state;
  states = sample_state ∷ [];
  show_drawn_cards = true;
  drawn_cards_in_hypothetical = [];
  morphed_identities = λ o. none;
  starting_player_index = some 0;
}

abbrev hypothetical_drawn : HypotheticalState
unfolding apply_all
hypothetical_drawn =
    from_ok hypothetical_sample
      (apply_all hypothetical_sample (taken drawn ∷ []) false sample_metadata)

draw_returns :
    apply_all hypothetical_sample (taken drawn ∷ []) false sample_metadata ≡ ok hypothetical_drawn
unfolding hypothetical_drawn apply_all hanabi_live.Reducers.Hypothetical.hypothetical_state_reducer
    hanabi_live.Rules.CardsGotten.get_cards_gotten hanabi_live.Rules.PlayStacks.get_stack_direction
    hanabi_live.Rules.Card.is_card_needed_for_max_score hanabi_live.Rules.Card.is_card_critical
    hanabi_live.Rules.Card.get_card_status hanabi_live.Rules.Card.is_all_card_possibilities_trash
    hanabi_live.Rules.Turn.get_end_turn
    hanabi_live.Rules.Reversible.reversible_get_max_score_per_stack
    hanabi_live.Rules.Characters.get_character_name_for_player
    hanabi_live.Rules.CluesUsable.get_clues_still_usable_not_rounded
    hanabi_live.Rules.CluesUsable.get_clues_still_usable
    hanabi_live.Rules.ClueTokens.get_discard_clue_token_value
    hanabi_live.Rules.ClueTokens.get_suit_complete_clue_token_value
    hanabi_live.Rules.Deck.get_num_copies_of_card
    hanabi_live.Rules.Deck.get_num_discarded_copies_of_card hanabi_live.Rules.Deck.total
    hanabi_live.Rules.Deck.is_all_discarded hanabi_live.Rules.Deck.get_all_discarded_set_for_suit
    hanabi_live.Reducers.Turn.turn_reducer hanabi_live.Reducers.Stats.stats_reducer
    hanabi_live.Reducers.Marks.dda_reducer hanabi_live.Reducers.Marks.known_trash_reducer
    hanabi_live.Reducers.Game.Actions.game_after_play hanabi_live.Reducers.Game.Actions.game_switch
    hanabi_live.Reducers.Cards.Reveal.cards_after_reveal
    hanabi_live.Reducers.Cards.Draw.get_initial_card_state
    hanabi_live.Reducers.Cards.Reducer.cards_reducer
    hanabi_live.Reducers.Deduction.Update.should_update_card_possibilities
    hanabi_live.Reducers.Deduction.Update.make_deductions
    hanabi_live.Reducers.Deduction.Update.card_deduction_reducer
    hanabi_live.Reducers.Deduction.Sources.get_card_count_map
    hanabi_live.Reducers.Game.Reducer.game_reducer hanabi_live.Reducers.Game.Actions.game_after_draw
    hanabi_live.Rules.Deck.is_initial_deal_finished hanabi_live.Rules.Deck.get_total_cards_in_deck
    hanabi_live.Rules.Deck.get_total_cards_in_suit hanabi_live.Reducers.Cards.Draw.cards_after_draw
    hanabi_live.Rules.Pace.get_starting_deck_size hanabi_live.Rules.Hand.get_cards_per_hand
    hanabi_live.Reducers.Deduction.Sources.get_card_possibilities_for_player
    hanabi_live.Reducers.Deduction.Sources.deck_possibilities_different
    hanabi_live.Reducers.Deduction.Update.update_card_possibilities
    hanabi_live.Reducers.Deduction.Search.filter_card_possibilities
    hanabi_live.Reducers.Deduction.Sources.generate_deck_possibilities
    hanabi_live.Rules.Turn.should_end_turn_after_draw
draw_returns = refl

plan_hypothetical_action-applied_example :
    hypothetical_state_reducer hypothetical_drawn
      (including (taken bottom_play))
      false
      sample_metadata
    ≡ (game_reducer hypothetical_drawn.ongoing bottom_play (hypothetical_view false) sample_metadata
        >>= (λ (next : GameState). ok (store hypothetical_drawn next)))
plan_hypothetical_action-applied_example =
    plan_hypothetical_action-applied sample_context false (drawn ∷ []) (turn ∷ []) bottom_play
      hypothetical_sample hypothetical_drawn refl refl draw_returns (intend_play 4) plan_returns

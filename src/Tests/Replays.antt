-- ===== src/Tests/Replays.antt =====
-- Hypotheticals, replays and the state of the client at concrete games.
use hanabi_live.Prelude.{
  ℕ, ◌<◌, get_elem?, replicate, ◌≡◌, ◌+◌, refl, true, false, none, some, List, [], ◌∷◌, arith,
  length,
}
use hanabi_live.Prelude.Int.{pos}
use hanabi_live.Result.{ok}
use hanabi_live.Types.Card.{CardIdentity}
use hanabi_live.Types.Action.{GameAction, draw, play}
use hanabi_live.Types.Game.{GameState}
use hanabi_live.Reducers.Initial.{get_initial_game_state}
use hanabi_live.Reducers.Game.Piles.Conservation.{on_piles}
use hanabi_live.Reducers.Hypothetical.{
  HypotheticalState, HypotheticalStateAction, including, game_action, hypothetical_state_reducer,
}
use hanabi_live.Reducers.Hypothetical.Undo.{go_backs, stay, step, go_backs-Steps}
use hanabi_live.Client.Replay.{ReplayState, replay_segment, replay_reducer, state_at}
use hanabi_live.Client.Replay.Segments.{Keeps, replay_reducer-Keeps}
use hanabi_live.Client.State.{Reduced, Viewer, reduce_from, reduce_game_actions}
use hanabi_live.Client.State.Actions.{State, update_card_identities, rehydrate_scrubbed_actions}
use hanabi_live.Client.State.Folds.{times_drawn, reduce_game_actions-on_piles}
use hanabi_live.Client.State.Recorded.{IsRecorded, reduce_game_actions-state_at}
use hanabi_live.Client.State.Playing.{play_all, reduced_of, play_all-IsRecorded}
use hanabi_live.Client.State.Actions.{viewer_of}
use hanabi_live.Client.State.Refinement.{without_notes, play_all-reduce_from}
use hanabi_live.Client.State.Identities.{
  KeepsIdentity, AreFilledIn, update_card_identities-KeepsIdentity,
  rehydrate_scrubbed_actions-AreFilledIn,
}
use hanabi_live.Tests.Samples.{from_ok, sample_state, sample_deck, sample_metadata, sample_play}
use hanabi_live.Tests.Players.{last_state}

-- A hypothetical at the last turn of a game, and the play of a card in it.
abbrev hypothetical_start : HypotheticalState
hypothetical_start = record {
  ongoing = last_state;
  states = last_state ∷ [];
  show_drawn_cards = true;
  drawn_cards_in_hypothetical = [];
  morphed_identities = λ o. none;
  starting_player_index = some 0;
}

abbrev hypothetical_play : HypotheticalStateAction
hypothetical_play = including (game_action sample_play)

abbrev hypothetical_after : HypotheticalState
unfolding hypothetical_state_reducer
hypothetical_after =
    from_ok hypothetical_start
      (hypothetical_state_reducer hypothetical_start hypothetical_play false sample_metadata)

hypothetical_returns :
    hypothetical_state_reducer hypothetical_start hypothetical_play false sample_metadata
    ≡ ok hypothetical_after
unfolding hypothetical_after hanabi_live.Rules.CardsGotten.get_cards_gotten
    hanabi_live.Rules.PlayStacks.get_stack_direction
    hanabi_live.Rules.Card.is_card_needed_for_max_score hanabi_live.Rules.Card.is_card_critical
    hanabi_live.Rules.Card.get_card_status hanabi_live.Rules.Card.is_all_card_possibilities_trash
    hanabi_live.Rules.Turn.get_end_turn
    hanabi_live.Rules.Reversible.reversible_get_max_score_per_stack
    hanabi_live.Rules.Characters.get_character_name_for_player
    hanabi_live.Rules.CluesUsable.get_clues_still_usable_not_rounded
    hanabi_live.Rules.CluesUsable.get_clues_still_usable
    hanabi_live.Rules.ClueTokens.get_discard_clue_token_value
    hanabi_live.Rules.ClueTokens.get_suit_complete_clue_token_value
    hanabi_live.Rules.Deck.get_num_copies_of_card
    hanabi_live.Rules.Deck.get_num_discarded_copies_of_card hanabi_live.Rules.Deck.total
    hanabi_live.Rules.Deck.is_all_discarded hanabi_live.Rules.Deck.get_all_discarded_set_for_suit
    hanabi_live.Reducers.Turn.turn_reducer hanabi_live.Reducers.Stats.stats_reducer
    hanabi_live.Reducers.Marks.dda_reducer hanabi_live.Reducers.Marks.known_trash_reducer
    hanabi_live.Reducers.Game.Actions.game_after_play hanabi_live.Reducers.Game.Actions.game_switch
    hanabi_live.Reducers.Cards.Reveal.cards_after_reveal
    hanabi_live.Reducers.Cards.Draw.get_initial_card_state
    hanabi_live.Reducers.Cards.Reducer.cards_reducer
    hanabi_live.Reducers.Deduction.Update.should_update_card_possibilities
    hanabi_live.Reducers.Deduction.Update.make_deductions
    hanabi_live.Reducers.Deduction.Update.card_deduction_reducer
    hanabi_live.Reducers.Deduction.Sources.get_card_count_map
    hanabi_live.Reducers.Game.Reducer.game_reducer
hypothetical_returns = refl

one_more : length hypothetical_after.states ≡ 1 + 1
unfolding hypothetical_after hanabi_live.Rules.CardsGotten.get_cards_gotten
    hanabi_live.Rules.PlayStacks.get_stack_direction
    hanabi_live.Rules.Card.is_card_needed_for_max_score hanabi_live.Rules.Card.is_card_critical
    hanabi_live.Rules.Card.get_card_status hanabi_live.Rules.Card.is_all_card_possibilities_trash
    hanabi_live.Rules.Turn.get_end_turn
    hanabi_live.Rules.Reversible.reversible_get_max_score_per_stack
    hanabi_live.Rules.Characters.get_character_name_for_player
    hanabi_live.Rules.CluesUsable.get_clues_still_usable_not_rounded
    hanabi_live.Rules.CluesUsable.get_clues_still_usable
    hanabi_live.Rules.ClueTokens.get_discard_clue_token_value
    hanabi_live.Rules.ClueTokens.get_suit_complete_clue_token_value
    hanabi_live.Rules.Deck.get_num_copies_of_card
    hanabi_live.Rules.Deck.get_num_discarded_copies_of_card hanabi_live.Rules.Deck.total
    hanabi_live.Rules.Deck.is_all_discarded hanabi_live.Rules.Deck.get_all_discarded_set_for_suit
    hanabi_live.Reducers.Turn.turn_reducer hanabi_live.Reducers.Stats.stats_reducer
    hanabi_live.Reducers.Marks.dda_reducer hanabi_live.Reducers.Marks.known_trash_reducer
    hanabi_live.Reducers.Game.Actions.game_after_play hanabi_live.Reducers.Game.Actions.game_switch
    hanabi_live.Reducers.Cards.Reveal.cards_after_reveal
    hanabi_live.Reducers.Cards.Draw.get_initial_card_state
    hanabi_live.Reducers.Cards.Reducer.cards_reducer
    hanabi_live.Reducers.Deduction.Update.should_update_card_possibilities
    hanabi_live.Reducers.Deduction.Update.make_deductions
    hanabi_live.Reducers.Deduction.Update.card_deduction_reducer
    hanabi_live.Reducers.Deduction.Sources.get_card_count_map
    hanabi_live.Reducers.Game.Reducer.game_reducer
one_more = refl

go_backs-Steps_example :
    ((go_backs 1 hypothetical_after).states ≡ last_state ∷ [])
    × ((go_backs 1 hypothetical_after).ongoing ≡ last_state)
go_backs-Steps_example =
    go_backs-Steps false sample_metadata hypothetical_start hypothetical_after 0 last_state
      (step hypothetical_start hypothetical_after hypothetical_after hypothetical_play tt
        hypothetical_returns (stay hypothetical_after))
      one_more refl

-- The initial deal of a game of two players.
abbrev drawing : ℕ → ℕ → GameAction
drawing player order =
    draw (record { player_index = player; order = order; suit_index = some 0; rank = some 1 })

abbrev deal : List GameAction
deal =
    drawing 0 0
    ∷ drawing 0 1
    ∷ drawing 0 2
    ∷ drawing 0 3
    ∷ drawing 0 4
    ∷ drawing 1 5
    ∷ drawing 1 6
    ∷ drawing 1 7
    ∷ drawing 1 8
    ∷ drawing 1 9
    ∷ []

abbrev sample_viewer : Viewer
sample_viewer = record { playing = true; shadowing = false; finished = false }

abbrev initial_state : GameState
unfolding get_initial_game_state
initial_state = from_ok sample_state (get_initial_game_state sample_metadata)

initial_returns : get_initial_game_state sample_metadata ≡ ok initial_state
unfolding initial_state hanabi_live.Rules.CardsGotten.get_cards_gotten
    hanabi_live.Rules.PlayStacks.get_stack_direction
    hanabi_live.Rules.Card.is_card_needed_for_max_score hanabi_live.Rules.Card.is_card_critical
    hanabi_live.Rules.Card.get_card_status hanabi_live.Rules.Card.is_all_card_possibilities_trash
    hanabi_live.Rules.Turn.get_end_turn
    hanabi_live.Rules.Reversible.reversible_get_max_score_per_stack
    hanabi_live.Rules.Characters.get_character_name_for_player
    hanabi_live.Rules.CluesUsable.get_clues_still_usable_not_rounded
    hanabi_live.Rules.CluesUsable.get_clues_still_usable
    hanabi_live.Rules.ClueTokens.get_discard_clue_token_value
    hanabi_live.Rules.ClueTokens.get_suit_complete_clue_token_value
    hanabi_live.Rules.Deck.get_num_copies_of_card
    hanabi_live.Rules.Deck.get_num_discarded_copies_of_card hanabi_live.Rules.Deck.total
    hanabi_live.Rules.Deck.is_all_discarded hanabi_live.Rules.Deck.get_all_discarded_set_for_suit
    hanabi_live.Reducers.Turn.turn_reducer hanabi_live.Reducers.Stats.stats_reducer
    hanabi_live.Reducers.Marks.dda_reducer hanabi_live.Reducers.Marks.known_trash_reducer
    hanabi_live.Reducers.Game.Actions.game_after_play hanabi_live.Reducers.Game.Actions.game_switch
    hanabi_live.Reducers.Cards.Reveal.cards_after_reveal
    hanabi_live.Reducers.Cards.Draw.get_initial_card_state
    hanabi_live.Reducers.Cards.Reducer.cards_reducer
    hanabi_live.Reducers.Deduction.Update.should_update_card_possibilities
    hanabi_live.Reducers.Deduction.Update.make_deductions
    hanabi_live.Reducers.Deduction.Update.card_deduction_reducer
    hanabi_live.Reducers.Deduction.Sources.get_card_count_map
    hanabi_live.Reducers.Game.Reducer.game_reducer hanabi_live.Rules.Deck.get_total_cards_in_deck
    hanabi_live.Rules.Deck.get_total_cards_in_suit hanabi_live.Rules.Pace.get_starting_deck_size
    hanabi_live.Rules.Hand.get_cards_per_hand
initial_returns = refl

abbrev dealt : Reduced
unfolding reduce_game_actions
dealt =
    from_ok (record { game = sample_state; states = [] })
      (reduce_game_actions deal initial_state sample_viewer sample_metadata)

deal_returns : reduce_game_actions deal initial_state sample_viewer sample_metadata ≡ ok dealt
unfolding dealt initial_state hanabi_live.Rules.CardsGotten.get_cards_gotten
    hanabi_live.Rules.PlayStacks.get_stack_direction
    hanabi_live.Rules.Card.is_card_needed_for_max_score hanabi_live.Rules.Card.is_card_critical
    hanabi_live.Rules.Card.get_card_status hanabi_live.Rules.Card.is_all_card_possibilities_trash
    hanabi_live.Rules.Turn.get_end_turn
    hanabi_live.Rules.Reversible.reversible_get_max_score_per_stack
    hanabi_live.Rules.Characters.get_character_name_for_player
    hanabi_live.Rules.CluesUsable.get_clues_still_usable_not_rounded
    hanabi_live.Rules.CluesUsable.get_clues_still_usable
    hanabi_live.Rules.ClueTokens.get_discard_clue_token_value
    hanabi_live.Rules.ClueTokens.get_suit_complete_clue_token_value
    hanabi_live.Rules.Deck.get_num_copies_of_card
    hanabi_live.Rules.Deck.get_num_discarded_copies_of_card hanabi_live.Rules.Deck.total
    hanabi_live.Rules.Deck.is_all_discarded hanabi_live.Rules.Deck.get_all_discarded_set_for_suit
    hanabi_live.Reducers.Turn.turn_reducer hanabi_live.Reducers.Stats.stats_reducer
    hanabi_live.Reducers.Marks.dda_reducer hanabi_live.Reducers.Marks.known_trash_reducer
    hanabi_live.Reducers.Game.Actions.game_after_play hanabi_live.Reducers.Game.Actions.game_switch
    hanabi_live.Reducers.Cards.Reveal.cards_after_reveal
    hanabi_live.Reducers.Cards.Draw.get_initial_card_state
    hanabi_live.Reducers.Cards.Reducer.cards_reducer
    hanabi_live.Reducers.Deduction.Update.should_update_card_possibilities
    hanabi_live.Reducers.Deduction.Update.make_deductions
    hanabi_live.Reducers.Deduction.Update.card_deduction_reducer
    hanabi_live.Reducers.Deduction.Sources.get_card_count_map
    hanabi_live.Reducers.Game.Reducer.game_reducer hanabi_live.Reducers.Game.Actions.game_after_draw
    hanabi_live.Rules.Deck.is_initial_deal_finished hanabi_live.Rules.Deck.get_total_cards_in_deck
    hanabi_live.Rules.Deck.get_total_cards_in_suit hanabi_live.Reducers.Cards.Draw.cards_after_draw
    hanabi_live.Rules.Pace.get_starting_deck_size hanabi_live.Rules.Hand.get_cards_per_hand
    hanabi_live.Reducers.Deduction.Sources.get_card_possibilities_for_player
    hanabi_live.Reducers.Deduction.Sources.deck_possibilities_different
    hanabi_live.Reducers.Deduction.Update.update_card_possibilities
    hanabi_live.Reducers.Deduction.Search.filter_card_possibilities
    hanabi_live.Reducers.Deduction.Sources.generate_deck_possibilities
deal_returns = refl

first_segment : dealt.game.turn.segment ≡ some 0
unfolding dealt initial_state hanabi_live.Rules.CardsGotten.get_cards_gotten
    hanabi_live.Rules.PlayStacks.get_stack_direction
    hanabi_live.Rules.Card.is_card_needed_for_max_score hanabi_live.Rules.Card.is_card_critical
    hanabi_live.Rules.Card.get_card_status hanabi_live.Rules.Card.is_all_card_possibilities_trash
    hanabi_live.Rules.Turn.get_end_turn
    hanabi_live.Rules.Reversible.reversible_get_max_score_per_stack
    hanabi_live.Rules.Characters.get_character_name_for_player
    hanabi_live.Rules.CluesUsable.get_clues_still_usable_not_rounded
    hanabi_live.Rules.CluesUsable.get_clues_still_usable
    hanabi_live.Rules.ClueTokens.get_discard_clue_token_value
    hanabi_live.Rules.ClueTokens.get_suit_complete_clue_token_value
    hanabi_live.Rules.Deck.get_num_copies_of_card
    hanabi_live.Rules.Deck.get_num_discarded_copies_of_card hanabi_live.Rules.Deck.total
    hanabi_live.Rules.Deck.is_all_discarded hanabi_live.Rules.Deck.get_all_discarded_set_for_suit
    hanabi_live.Reducers.Turn.turn_reducer hanabi_live.Reducers.Stats.stats_reducer
    hanabi_live.Reducers.Marks.dda_reducer hanabi_live.Reducers.Marks.known_trash_reducer
    hanabi_live.Reducers.Game.Actions.game_after_play hanabi_live.Reducers.Game.Actions.game_switch
    hanabi_live.Reducers.Cards.Reveal.cards_after_reveal
    hanabi_live.Reducers.Cards.Draw.get_initial_card_state
    hanabi_live.Reducers.Cards.Reducer.cards_reducer
    hanabi_live.Reducers.Deduction.Update.should_update_card_possibilities
    hanabi_live.Reducers.Deduction.Update.make_deductions
    hanabi_live.Reducers.Deduction.Update.card_deduction_reducer
    hanabi_live.Reducers.Deduction.Sources.get_card_count_map
    hanabi_live.Reducers.Game.Reducer.game_reducer hanabi_live.Reducers.Game.Actions.game_after_draw
    hanabi_live.Rules.Deck.is_initial_deal_finished hanabi_live.Rules.Deck.get_total_cards_in_deck
    hanabi_live.Rules.Deck.get_total_cards_in_suit hanabi_live.Reducers.Cards.Draw.cards_after_draw
    hanabi_live.Rules.Pace.get_starting_deck_size hanabi_live.Rules.Hand.get_cards_per_hand
    hanabi_live.Reducers.Deduction.Sources.get_card_possibilities_for_player
    hanabi_live.Reducers.Deduction.Sources.deck_possibilities_different
    hanabi_live.Reducers.Deduction.Update.update_card_possibilities
    hanabi_live.Reducers.Deduction.Search.filter_card_possibilities
    hanabi_live.Reducers.Deduction.Sources.generate_deck_possibilities
first_segment = refl

reduce_game_actions-state_at_example : (s : GameState) × (state_at dealt.states 0 ≡ some s)
reduce_game_actions-state_at_example =
    reduce_game_actions-state_at sample_metadata sample_viewer deal initial_state dealt 0 0
      initial_returns deal_returns first_segment (omega arith)

abbrev one_draw : Reduced
unfolding reduce_game_actions
one_draw =
    from_ok (record { game = sample_state; states = [] })
      (reduce_game_actions (drawing 0 0 ∷ []) initial_state sample_viewer sample_metadata)

one_draw_returns :
    reduce_game_actions (drawing 0 0 ∷ []) initial_state sample_viewer sample_metadata ≡ ok one_draw
unfolding one_draw initial_state hanabi_live.Rules.CardsGotten.get_cards_gotten
    hanabi_live.Rules.PlayStacks.get_stack_direction
    hanabi_live.Rules.Card.is_card_needed_for_max_score hanabi_live.Rules.Card.is_card_critical
    hanabi_live.Rules.Card.get_card_status hanabi_live.Rules.Card.is_all_card_possibilities_trash
    hanabi_live.Rules.Turn.get_end_turn
    hanabi_live.Rules.Reversible.reversible_get_max_score_per_stack
    hanabi_live.Rules.Characters.get_character_name_for_player
    hanabi_live.Rules.CluesUsable.get_clues_still_usable_not_rounded
    hanabi_live.Rules.CluesUsable.get_clues_still_usable
    hanabi_live.Rules.ClueTokens.get_discard_clue_token_value
    hanabi_live.Rules.ClueTokens.get_suit_complete_clue_token_value
    hanabi_live.Rules.Deck.get_num_copies_of_card
    hanabi_live.Rules.Deck.get_num_discarded_copies_of_card hanabi_live.Rules.Deck.total
    hanabi_live.Rules.Deck.is_all_discarded hanabi_live.Rules.Deck.get_all_discarded_set_for_suit
    hanabi_live.Reducers.Turn.turn_reducer hanabi_live.Reducers.Stats.stats_reducer
    hanabi_live.Reducers.Marks.dda_reducer hanabi_live.Reducers.Marks.known_trash_reducer
    hanabi_live.Reducers.Game.Actions.game_after_play hanabi_live.Reducers.Game.Actions.game_switch
    hanabi_live.Reducers.Cards.Reveal.cards_after_reveal
    hanabi_live.Reducers.Cards.Draw.get_initial_card_state
    hanabi_live.Reducers.Cards.Reducer.cards_reducer
    hanabi_live.Reducers.Deduction.Update.should_update_card_possibilities
    hanabi_live.Reducers.Deduction.Update.make_deductions
    hanabi_live.Reducers.Deduction.Update.card_deduction_reducer
    hanabi_live.Reducers.Deduction.Sources.get_card_count_map
    hanabi_live.Reducers.Game.Reducer.game_reducer hanabi_live.Reducers.Game.Actions.game_after_draw
    hanabi_live.Rules.Deck.is_initial_deal_finished hanabi_live.Rules.Deck.get_total_cards_in_deck
    hanabi_live.Rules.Deck.get_total_cards_in_suit hanabi_live.Reducers.Cards.Draw.cards_after_draw
    hanabi_live.Rules.Pace.get_starting_deck_size hanabi_live.Rules.Hand.get_cards_per_hand
one_draw_returns = refl

hands_of_two : length initial_state.hands ≡ 2
unfolding initial_state hanabi_live.Rules.CardsGotten.get_cards_gotten
    hanabi_live.Rules.PlayStacks.get_stack_direction
    hanabi_live.Rules.Card.is_card_needed_for_max_score hanabi_live.Rules.Card.is_card_critical
    hanabi_live.Rules.Card.get_card_status hanabi_live.Rules.Card.is_all_card_possibilities_trash
    hanabi_live.Rules.Turn.get_end_turn
    hanabi_live.Rules.Reversible.reversible_get_max_score_per_stack
    hanabi_live.Rules.Characters.get_character_name_for_player
    hanabi_live.Rules.CluesUsable.get_clues_still_usable_not_rounded
    hanabi_live.Rules.CluesUsable.get_clues_still_usable
    hanabi_live.Rules.ClueTokens.get_discard_clue_token_value
    hanabi_live.Rules.ClueTokens.get_suit_complete_clue_token_value
    hanabi_live.Rules.Deck.get_num_copies_of_card
    hanabi_live.Rules.Deck.get_num_discarded_copies_of_card hanabi_live.Rules.Deck.total
    hanabi_live.Rules.Deck.is_all_discarded hanabi_live.Rules.Deck.get_all_discarded_set_for_suit
    hanabi_live.Reducers.Turn.turn_reducer hanabi_live.Reducers.Stats.stats_reducer
    hanabi_live.Reducers.Marks.dda_reducer hanabi_live.Reducers.Marks.known_trash_reducer
    hanabi_live.Reducers.Game.Actions.game_after_play hanabi_live.Reducers.Game.Actions.game_switch
    hanabi_live.Reducers.Cards.Reveal.cards_after_reveal
    hanabi_live.Reducers.Cards.Draw.get_initial_card_state
    hanabi_live.Reducers.Cards.Reducer.cards_reducer
    hanabi_live.Reducers.Deduction.Update.should_update_card_possibilities
    hanabi_live.Reducers.Deduction.Update.make_deductions
    hanabi_live.Reducers.Deduction.Update.card_deduction_reducer
    hanabi_live.Reducers.Deduction.Sources.get_card_count_map
    hanabi_live.Reducers.Game.Reducer.game_reducer hanabi_live.Rules.Deck.get_total_cards_in_deck
    hanabi_live.Rules.Deck.get_total_cards_in_suit hanabi_live.Rules.Pace.get_starting_deck_size
    hanabi_live.Rules.Hand.get_cards_per_hand
hands_of_two = refl

two_hands : 0 < length initial_state.hands
two_hands = omega (arith, hands_of_two)

reduce_game_actions-on_piles_example : on_piles 0 one_draw.game ≡ times_drawn (drawing 0 0 ∷ []) 0
reduce_game_actions-on_piles_example =
    reduce_game_actions-on_piles 0 sample_metadata sample_viewer (drawing 0 0 ∷ []) initial_state
      one_draw initial_returns (two_hands, λ next e. tt) one_draw_returns

-- The client at the last turn, not in a replay.
abbrev sample_replay : ReplayState
sample_replay = record {
  active = false;
  segment = 0;
  states = some last_state ∷ some last_state ∷ [];
  actions = [];
  database_id = none;
  shared = none;
  hypothetical = none;
}

abbrev sample_client : State
sample_client = record {
  visible_state = some last_state;
  ongoing_game = last_state;
  replay = sample_replay;
  playing = true;
  shadowing = false;
  finished = false;
  metadata = sample_metadata;
  datetime_started = none;
  datetime_finished = none;
  card_identities = [];
  premove = none;
  pause = record { active = false; player_index = 0; queued = false };
  our_notes = replicate 4 (record {
    known_trash = false;
    finessed = false;
    unclued = false;
    clued = false;
    possibilities = [];
  });
}

abbrev client_after : State
unfolding hanabi_live.Client.State.Actions.state_reducer
client_after = from_ok sample_client (play_all sample_client ((sample_play, refl) ∷ []))

client_returns : play_all sample_client ((sample_play, refl) ∷ []) ≡ ok client_after
unfolding client_after hanabi_live.Client.State.Actions.state_reducer
    hanabi_live.Rules.CardsGotten.get_cards_gotten hanabi_live.Rules.PlayStacks.get_stack_direction
    hanabi_live.Rules.Card.is_card_needed_for_max_score hanabi_live.Rules.Card.is_card_critical
    hanabi_live.Rules.Card.get_card_status hanabi_live.Rules.Card.is_all_card_possibilities_trash
    hanabi_live.Rules.Turn.get_end_turn
    hanabi_live.Rules.Reversible.reversible_get_max_score_per_stack
    hanabi_live.Rules.Characters.get_character_name_for_player
    hanabi_live.Rules.CluesUsable.get_clues_still_usable_not_rounded
    hanabi_live.Rules.CluesUsable.get_clues_still_usable
    hanabi_live.Rules.ClueTokens.get_discard_clue_token_value
    hanabi_live.Rules.ClueTokens.get_suit_complete_clue_token_value
    hanabi_live.Rules.Deck.get_num_copies_of_card
    hanabi_live.Rules.Deck.get_num_discarded_copies_of_card hanabi_live.Rules.Deck.total
    hanabi_live.Rules.Deck.is_all_discarded hanabi_live.Rules.Deck.get_all_discarded_set_for_suit
    hanabi_live.Reducers.Turn.turn_reducer hanabi_live.Reducers.Stats.stats_reducer
    hanabi_live.Reducers.Marks.dda_reducer hanabi_live.Reducers.Marks.known_trash_reducer
    hanabi_live.Reducers.Game.Actions.game_after_play hanabi_live.Reducers.Game.Actions.game_switch
    hanabi_live.Reducers.Cards.Reveal.cards_after_reveal
    hanabi_live.Reducers.Cards.Draw.get_initial_card_state
    hanabi_live.Reducers.Cards.Reducer.cards_reducer
    hanabi_live.Reducers.Deduction.Update.should_update_card_possibilities
    hanabi_live.Reducers.Deduction.Update.make_deductions
    hanabi_live.Reducers.Deduction.Update.card_deduction_reducer
    hanabi_live.Reducers.Deduction.Sources.get_card_count_map
    hanabi_live.Reducers.Game.Reducer.game_reducer
    hanabi_live.Rules.CardsGotten.get_cards_gotten_by_notes
client_returns = refl

play_all-IsRecorded_example :
    IsRecorded client_after.ongoing_game.turn.segment client_after.replay.states
    × (client_after.replay.actions ≡ sample_play ∷ [])
play_all-IsRecorded_example =
    play_all-IsRecorded ((sample_play, refl) ∷ []) sample_client client_after (refl, refl)
      client_returns

play_all-reduce_from_example :
    (r : Reduced) × (reduce_from
        (reduced_of sample_client)
        (sample_play ∷ [])
        (viewer_of sample_client)
        sample_metadata
      ≡ ok r)
    × (without_notes r ≡ without_notes (reduced_of client_after))
play_all-reduce_from_example =
    play_all-reduce_from ((sample_play, refl) ∷ []) sample_client client_after client_returns

abbrev in_replay : ReplayState
in_replay = record sample_replay { active = true }

replay_returns :
    replay_reducer in_replay (replay_segment (pos 1)) false sample_metadata
    ≡ ok (record in_replay { segment = 1 })
unfolding replay_reducer
replay_returns = refl

replay_reducer-Keeps_example : Keeps in_replay (record in_replay { segment = 1 })
replay_reducer-Keeps_example =
    replay_reducer-Keeps in_replay (record in_replay { segment = 1 }) (replay_segment (pos 1)) false
      sample_metadata replay_returns

abbrev half_known : CardIdentity
half_known = record { suit_index = some 1; rank = none }

update_card_identities-KeepsIdentity_example :
    KeepsIdentity half_known (get_elem? (update_card_identities sample_deck (half_known ∷ [])) 0)
update_card_identities-KeepsIdentity_example =
    update_card_identities-KeepsIdentity sample_deck (half_known ∷ []) 0 half_known refl

abbrev scrubbed : GameAction
scrubbed = play (record { player_index = 0; order = 0; suit_index = none; rank = none })

rehydrate_returns :
    rehydrate_scrubbed_actions (scrubbed ∷ []) (record { suit_index = some 0; rank = some 1 } ∷ [])
    ≡ ok (sample_play ∷ [])
unfolding rehydrate_scrubbed_actions
rehydrate_returns = refl

rehydrate_scrubbed_actions-AreFilledIn_example :
    AreFilledIn
      (record { suit_index = some 0; rank = some 1 } ∷ [])
      (scrubbed ∷ [])
      (sample_play ∷ [])
rehydrate_scrubbed_actions-AreFilledIn_example =
    rehydrate_scrubbed_actions-AreFilledIn (scrubbed ∷ [])
      (record { suit_index = some 0; rank = some 1 } ∷ []) (sample_play ∷ []) rehydrate_returns

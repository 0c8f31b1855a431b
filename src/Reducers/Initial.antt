-- ===== src/Reducers/Initial.antt =====
-- reducers/initialStates/initialTurnState.ts and initialGameState.ts
pub mod Empty
use hanabi_live.Prelude.{
  ℕ, Bool, true, false, ◌&&◌, Option, none, some, List, [], ◌∷◌, ◌==◌, map, keys, length, replicate,
  sum_array, if◌then◌else◌,
}
use hanabi_live.Prelude.Int.{ℤ, pos}
use hanabi_live.Result.{Result, ok, ◌>>=◌}
use hanabi_live.Types.Variant.{Variant, max_clue_num}
use hanabi_live.Types.Card.{CardStatus, SuitRankTuple}
use hanabi_live.Types.Game.{GameMetadata, GameState, TurnState, to_number}
use hanabi_live.Rules.PlayStacks.{get_stack_direction}
use hanabi_live.Rules.Card.{Stacks, get_card_status}
use hanabi_live.Rules.ClueTokens.{
  get_adjusted_clue_tokens, get_unadjusted_clue_tokens, get_discard_clue_token_value,
  get_suit_complete_clue_token_value,
}
use hanabi_live.Rules.Deck.{get_total_cards_in_deck}
use hanabi_live.Rules.Hand.{get_cards_per_hand}
use hanabi_live.Rules.Turn.{get_end_game_length}
use hanabi_live.Rules.Pace.{get_pace_risk, get_starting_deck_size, get_starting_pace}
use hanabi_live.Rules.CluesUsable.{floor_option, get_clues_still_usable_not_rounded}
use hanabi_live.Reducers.Cards.Draw.{all_identities}

abbrev pub get_initial_turn_state : ℕ → TurnState
get_initial_turn_state starting_player_index = record {
  segment = none;
  turn_num = 0;
  current_player_index = some starting_player_index;
  play_order_inverted = false;
  end_turn_num = none;
  cards_played_or_discarded_this_turn = 0;
  cards_discarded_this_turn = 0;
  clues_given_this_turn = 0;
}

-- The loop of `getInitialCardStatusMap`, over the identities suit by suit.
unfoldable pub statuses_of :
    Variant → Stacks → List SuitRankTuple → Result (ℕ → ℕ → Option CardStatus)
statuses_of variant stacks [] = ok (λ i r. none)
statuses_of variant stacks ((suit_index, rank) ∷ rest) = do
  status ← get_card_status suit_index rank [] stacks variant
  statuses ← statuses_of variant stacks rest
  ok (λ i r. if i == suit_index && r == rank then some status else statuses i r)

abbrev pub get_initial_card_status_map : Variant → Stacks → Result (ℕ → ℕ → Option CardStatus)
get_initial_card_status_map variant stacks = statuses_of variant stacks (all_identities variant)

-- The stacks before the first card.
abbrev pub initial_stacks : Variant → Stacks
initial_stacks variant = record {
  play_stacks = replicate (length variant.suits) [];
  play_stack_directions =
      map (λ (suit_index : ℕ). get_stack_direction suit_index [] [] variant) (keys variant.suits);
  play_stack_starts = replicate (length variant.suits) none;
}

unfoldable pub get_initial_game_state : GameMetadata → Result GameState
unfolding statuses_of all_identities
get_initial_game_state metadata = do
  let options = metadata.options
  let variant = metadata.variant
  let stacks = initial_stacks variant
  total ← get_total_cards_in_deck variant
  statuses ← get_initial_card_status_map variant stacks
  let clue_tokens = pos (get_adjusted_clue_tokens max_clue_num variant)
  let maxima = replicate (length variant.suits) variant.stack_size
  deck_size ← get_starting_deck_size options.num_players (get_cards_per_hand options) variant
  end_game_length ← get_end_game_length options metadata.character_assignments
  let pace = get_starting_pace deck_size variant.max_score end_game_length
  let scores = map (λ (stack : List ℕ). length stack) stacks.play_stacks
  usable ←
      get_clues_still_usable_not_rounded (sum_array scores) scores maxima variant.stack_size
        deck_size end_game_length (get_discard_clue_token_value variant)
        (get_suit_complete_clue_token_value variant)
        (get_unadjusted_clue_tokens clue_tokens variant)
  ok (record {
    turn = get_initial_turn_state options.starting_player;
    log = [];
    deck = [];
    cards_remaining_in_the_deck = pos total;
    card_status = statuses;
    score = 0;
    clue_tokens = clue_tokens;
    strikes = [];
    hands = replicate (to_number options.num_players) [];
    play_stacks = stacks.play_stacks;
    play_stack_directions = stacks.play_stack_directions;
    play_stack_starts = stacks.play_stack_starts;
    hole = [];
    discard_stacks = replicate (length variant.suits) [];
    clues = [];
    stats = record {
      max_score = variant.max_score;
      max_score_per_stack = maxima;
      pace = some pace;
      pace_risk = get_pace_risk (some pace) options.num_players;
      final_round_effectively_started = false;
      cards_gotten = 0;
      cards_gotten_by_notes = some (pos 0);
      potential_clues_lost = 0;
      clues_still_usable = floor_option usable;
      clues_still_usable_not_rounded = usable;
      double_discard_card = none;
      num_subsequent_blind_plays = 0;
      num_subsequent_misplays = 0;
      num_attempted_cards_played = 0;
    };
  })

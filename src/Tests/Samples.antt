-- ===== src/Tests/Samples.antt =====
-- A game of "No Variant" for two players, late in the game, with four cards in sight.
use hanabi_live.Prelude.{ℕ, true, false, none, some, List, [], ◌∷◌, replicate}
use hanabi_live.Prelude.Int.{pos}
use hanabi_live.Result.{Result, ok, throw}
use hanabi_live.Types.Variant.{Color, Suit, Variant}
use hanabi_live.Types.Card.{CardState, SuitRankTuple, player}
use hanabi_live.Types.Action.{GameAction, play, ActionClue, msg_rank}
use hanabi_live.Types.Game.{
  GameMetadata, GameState, TurnState, StatsState, NumPlayers, StackDirection, low,
}
use hanabi_live.Reducers.Stats.{Perspective}

abbrev pub red : Color
red = record { name = "Red" }

abbrev yellow : Color
yellow = record { name = "Yellow" }

abbrev pub plain_suit : Color → Suit
plain_suit color = record {
  one_of_each = false;
  clue_colors = color ∷ [];
  all_clue_colors = false;
  no_clue_colors = false;
  all_clue_ranks = false;
  no_clue_ranks = false;
  prism = false;
  inverted = false;
  reversed = false;
}

abbrev pub sample_variant : Variant
sample_variant = record {
  suits = plain_suit red ∷ plain_suit yellow ∷ [];
  clue_colors = red ∷ yellow ∷ [];
  clue_ranks = 1 ∷ 2 ∷ 3 ∷ 4 ∷ 5 ∷ [];
  ranks = 1 ∷ 2 ∷ 3 ∷ 4 ∷ 5 ∷ [];
  stack_size = 5;
  max_score = 10;
  special_rank = none;
  special_rank_all_clue_colors = false;
  special_rank_all_clue_ranks = false;
  special_rank_no_clue_colors = false;
  special_rank_no_clue_ranks = false;
  special_rank_deceptive = false;
  critical_rank = none;
  scarce_ones = false;
  clue_starved = false;
  color_clues_touch_nothing = false;
  rank_clues_touch_nothing = false;
  cow_and_pig = false;
  duck = false;
  odds_and_evens = false;
  synesthesia = false;
  up_or_down = false;
  throw_it_in_a_hole = false;
  funnels = false;
  chimneys = false;
  sudoku = false;
}

abbrev pub sample_metadata : GameMetadata
sample_metadata = record {
  options = record {
    num_players = NumPlayers.two;
    starting_player = 0;
    timed = false;
    card_cycle = true;
    deck_plays = true;
    one_extra_card = false;
    one_less_card = false;
    detrimental_characters = false;
  };
  variant = sample_variant;
  our_player_index = 0;
  our_username = "Alice";
  character_assignments = none ∷ none ∷ [];
}

-- A card whose identity everybody knows.
abbrev pub known_card : ℕ → ℕ → SuitRankTuple → CardState
known_card order holder p = record {
  order = order;
  location = player holder;
  suit_index = some p.0;
  rank = some p.1;
  possible_cards_from_clues = p ∷ [];
  possible_cards = p ∷ [];
  possible_cards_for_empathy = p ∷ [];
  revealed_to_player = replicate 6 true;
  positive_color_clues = [];
  positive_rank_clues = [];
  suit_determined = true;
  rank_determined = true;
  has_clue_applied = false;
  num_positive_clues = 0;
  segment_first_clued = none;
  segment_drawn = some 0;
  segment_discarded = none;
  segment_played = none;
  in_double_discard = false;
  is_known_trash_from_empathy = false;
  is_misplayed = false;
  dealt_to_starting_hand = true;
  first_clued_while_on_chop = none;
}

abbrev pub sample_deck : List CardState
sample_deck =
    known_card 0 0 (0, 1)
    ∷ known_card 1 0 (0, 2)
    ∷ known_card 2 1 (1, 1)
    ∷ known_card 3 1 (1, 2)
    ∷ []

abbrev pub sample_turn : TurnState
sample_turn = record {
  segment = some 1;
  turn_num = 1;
  current_player_index = some 0;
  play_order_inverted = false;
  end_turn_num = none;
  cards_played_or_discarded_this_turn = 0;
  cards_discarded_this_turn = 0;
  clues_given_this_turn = 0;
}

abbrev sample_stats : StatsState
sample_stats = record {
  max_score = 10;
  max_score_per_stack = 5 ∷ 5 ∷ [];
  pace = none;
  pace_risk = low;
  final_round_effectively_started = false;
  cards_gotten = 0;
  potential_clues_lost = 0;
  clues_still_usable = none;
  clues_still_usable_not_rounded = none;
  cards_gotten_by_notes = none;
  double_discard_card = none;
  num_subsequent_blind_plays = 0;
  num_subsequent_misplays = 0;
  num_attempted_cards_played = 0;
}

abbrev pub sample_state : GameState
sample_state = record {
  turn = sample_turn;
  log = [];
  deck = sample_deck;
  cards_remaining_in_the_deck = pos 10;
  card_status = λ suit_index rank. none;
  score = 0;
  clue_tokens = pos 7;
  strikes = [];
  hands = (0 ∷ 1 ∷ []) ∷ (2 ∷ 3 ∷ []) ∷ [];
  play_stacks = [] ∷ [] ∷ [];
  play_stack_directions = StackDirection.up ∷ StackDirection.up ∷ [];
  play_stack_starts = none ∷ none ∷ [];
  hole = [];
  discard_stacks = [] ∷ [] ∷ [];
  clues = [];
  stats = sample_stats;
}

abbrev pub sample_view : Perspective
sample_view = record {
  playing = true;
  shadowing = false;
  finished = false;
  hypothetical = false;
  our_notes = none;
}

-- Player 0 plays the red 1, its oldest card.
abbrev pub sample_play : GameAction
sample_play = play (record { player_index = 0; order = 0; suit_index = some 0; rank = some 1 })

-- Player 0 clues player 1 about the 2s.
abbrev pub sample_clue : ActionClue
sample_clue = record {
  clue = msg_rank 2;
  giver = 0;
  list = 3 ∷ [];
  target = 1;
  ignore_negative = false;
}

abbrev pub from_ok {ℓ} : {A : Type ℓ} → A → Result A → A
from_ok a (ok b) = b
from_ok a (throw e) = a

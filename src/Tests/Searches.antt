-- ===== src/Tests/Searches.antt =====
-- The search of the deductions, and the possibilities of a card.
use hanabi_live.Prelude.{
  ◌≡◌, ◌↔◌, refl, true, false, some, none, [], ◌∷◌, arith, length, ◌*◌, ◌==◌, ◌&&◌, if◌then◌else◌,
}
use hanabi_live.Prelude.Int.{pos}
use hanabi_live.Result.{ok}
use hanabi_live.Types.Action.{draw, ActionDraw}
use hanabi_live.Types.Game.{GameState, GameMetadata, to_number}
use hanabi_live.Types.Variant.{Variant}
use hanabi_live.Rules.Deck.{get_total_cards_in_deck}
use hanabi_live.Rules.Hand.{get_cards_per_hand}
use hanabi_live.Reducers.Deduction.Search.{Counts, filter_card_possibilities, rotate}
use hanabi_live.Reducers.Deduction.Search.Combination.{Among, CanBe, Within}
use hanabi_live.Reducers.Deduction.Search.Order.{Among-rotate_iff}
use hanabi_live.Reducers.Deduction.Search.Sound.{filter_card_possibilities-Among_iff}
use hanabi_live.Reducers.Cards.Reducer.{skips_deduction}
use hanabi_live.Reducers.Cards.Reducer.InitialDeal.{skips_deduction-starting_hands}
use hanabi_live.Prelude.{◌≤◌}
use hanabi_live.Rules.Deck.{get_total_cards_in_suit}
use hanabi_live.Rules.Deck.{is_all_discarded}
use hanabi_live.Rules.Card.{Stacks}
use hanabi_live.Rules.CardsGotten.{get_cards_gotten}
use hanabi_live.Rules.CardsGotten.Bounds.{get_cards_gotten-bounds}
use hanabi_live.Tests.Samples.{
  sample_variant, sample_metadata, sample_state, sample_deck, sample_turn, plain_suit, red,
}

-- One copy of the red 5 and two of the red 4 are left.
abbrev few_left : Counts
few_left s r = if s == 0 && r == 5 then pos 1 else if s == 0 && r == 4 then pos 2 else pos 0

few_left-Within : Within few_left []
few_left-Within s r = ground arith

-- The other card must be the red 5, so that this one cannot be.
one_is_five :
    filter_card_possibilities ((0, 5) ∷ (0, 4) ∷ []) (((0, 5) ∷ []) ∷ []) few_left ≡ (0, 4) ∷ []
unfolding filter_card_possibilities
one_is_five = refl

filter_card_possibilities-Among_iff_example :
    Among (0, 4) (filter_card_possibilities ((0, 5) ∷ (0, 4) ∷ []) (((0, 5) ∷ []) ∷ []) few_left)
    ↔ Among (0, 4) ((0, 5) ∷ (0, 4) ∷ []) × CanBe few_left (0, 4) (((0, 5) ∷ []) ∷ [])
filter_card_possibilities-Among_iff_example =
    filter_card_possibilities-Among_iff ((0, 5) ∷ (0, 4) ∷ []) (((0, 5) ∷ []) ∷ []) few_left
      few_left-Within (0, 4)

Among-rotate_iff_example :
    Among (0, 1) (rotate 2 ((0, 1) ∷ (0, 2) ∷ (0, 3) ∷ []))
    ↔ Among (0, 1) ((0, 1) ∷ (0, 2) ∷ (0, 3) ∷ [])
Among-rotate_iff_example = Among-rotate_iff 2 ((0, 1) ∷ (0, 2) ∷ (0, 3) ∷ []) (0, 1)

-- The first turn of a game with five suits: four of the ten cards of the starting hands are drawn.
abbrev five_suits : Variant
five_suits = record sample_variant {
  suits = plain_suit red ∷ plain_suit red ∷ plain_suit red ∷ plain_suit red ∷ plain_suit red ∷ [];
}

abbrev five_suit_metadata : GameMetadata
five_suit_metadata = record sample_metadata { variant = five_suits }

abbrev dealing_state : GameState
dealing_state = record sample_state { turn = record sample_turn { turn_num = 0; segment = none } }

abbrev sample_draw : ActionDraw
sample_draw = record { player_index = 1; order = 3; suit_index = some 1; rank = some 2 }

five_suit_cards : get_total_cards_in_deck five_suits ≡ ok 50
unfolding get_total_cards_in_deck hanabi_live.Rules.Deck.get_total_cards_in_suit
    hanabi_live.Rules.Deck.get_num_copies_of_card
five_suit_cards = refl

starting_hands :
    10
    ≡ to_number five_suit_metadata.options.num_players
      * get_cards_per_hand five_suit_metadata.options
unfolding get_cards_per_hand
starting_hands = refl

skips_deduction-starting_hands_example :
    skips_deduction sample_deck (draw sample_draw) dealing_state five_suit_metadata ≡ ok true
skips_deduction-starting_hands_example =
    skips_deduction-starting_hands sample_deck sample_draw dealing_state five_suit_metadata 50 10
      refl five_suit_cards starting_hands (omega arith) (omega arith)

abbrev no_stacks : Stacks
no_stacks = record {
  play_stacks = [] ∷ [] ∷ [];
  play_stack_directions = [];
  play_stack_starts = [];
}

nothing_gotten : get_cards_gotten sample_deck no_stacks true false 10 sample_variant ≡ ok 0
unfolding get_cards_gotten
nothing_gotten = refl

get_cards_gotten-bounds_example : (0 ≤ 10) × (0 ≤ length sample_deck)
get_cards_gotten-bounds_example =
    get_cards_gotten-bounds sample_deck no_stacks true false sample_variant 10 0 nothing_gotten

-- ===== src/Rules/CardState.antt =====
-- rules/cardState.ts, rules/variants/variantIdentity.ts
use hanabi_live.Prelude.{Bool, true, false, ◌||◌, any, ltb, leb, length, ◌==◌}
use hanabi_live.Types.Variant.{Variant, Suit}
use hanabi_live.Types.Card.{CardState, Location}

abbrev pub is_player : Location → Bool
is_player (Location.player i) = true
is_player _ = false

abbrev pub is_play_stack : Location → Bool
is_play_stack Location.play_stack = true
is_play_stack _ = false

abbrev pub is_discard : Location → Bool
is_discard Location.discard = true
is_discard _ = false

abbrev pub is_card_clued : CardState → Bool
is_card_clued card = ltb 0 card.num_positive_clues

abbrev pub is_card_played : CardState → Bool
is_card_played card = is_play_stack card.location

abbrev pub is_card_discarded : CardState → Bool
is_card_discarded card = is_discard card.location

abbrev pub is_card_in_player_hand : CardState → Bool
is_card_in_player_hand card = is_player card.location

unfoldable pub is_dual_color : Variant → Bool
is_dual_color variant = any (λ (s : Suit). leb 2 (length s.clue_colors)) variant.suits

unfoldable pub is_color_mute : Variant → Bool
is_color_mute variant = length variant.clue_colors == 0

unfoldable pub is_number_mute : Variant → Bool
is_number_mute variant = length variant.clue_ranks == 0

unfoldable pub has_reversed_suits : Variant → Bool
has_reversed_suits variant = variant.up_or_down || any (λ (s : Suit). s.reversed) variant.suits

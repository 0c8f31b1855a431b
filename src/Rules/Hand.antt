-- ===== src/Rules/Hand.antt =====
-- rules/hand.ts. An index of -1 is `none`.
pub mod Chop
use hanabi_live.Prelude.{
  ℕ, ◌+◌, ◌-◌, suc, Bool, false, not, Option, none, some, List, [], ◌∷◌, option_eq, get_elem?,
  length, index_of, all, if◌then◌else◌,
}
use hanabi_live.Types.Card.{CardState}
use hanabi_live.Types.Game.{NumPlayers, two, three, four, five, six, Options}
use hanabi_live.Rules.CardState.{is_card_clued}

unfoldable pub get_cards_per_hand_natural : NumPlayers → ℕ
get_cards_per_hand_natural two = 5
get_cards_per_hand_natural three = 5
get_cards_per_hand_natural four = 4
get_cards_per_hand_natural five = 4
get_cards_per_hand_natural six = 3

-- At least 3 is left of, so that the subtraction is exact.
unfoldable pub get_cards_per_hand : Options → ℕ
unfolding get_cards_per_hand_natural
get_cards_per_hand options =
    get_cards_per_hand_natural options.num_players
    + (if options.one_extra_card then 1 else 0)
    - (if options.one_less_card then 1 else 0)

unfoldable pub get_card_slot : ℕ → List ℕ → Option ℕ
get_card_slot order hand = elim (index_of hand order) [
  | none ↦ none
  | some index ↦ some (length hand - index)
]

unfoldable pub is_hand_locked : List ℕ → List CardState → Bool
is_hand_locked hand deck =
    all (λ order. elim (get_elem? deck order) [ none ↦ false | some card ↦ is_card_clued card ])
      hand

unfoldable pub is_unclued_at : List CardState → ℕ → Bool
is_unclued_at deck order = elim (get_elem? deck order) [
  | none ↦ false
  | some card ↦ not (is_card_clued card)
]

-- `hand.length - 1`
abbrev pub last_index : List ℕ → Option ℕ
last_index [] = none
last_index (x ∷ xs) = some (length xs)

-- The first index whose card is there and has no clue.
unfoldable pub find_unclued : List ℕ → List CardState → Option ℕ
unfolding is_unclued_at
find_unclued [] deck = none
find_unclued (order ∷ rest) deck =
    let later = find_unclued rest deck in
    if is_unclued_at deck order then some 0 else elim later [ none ↦ none | some i ↦ some (suc i) ]

unfoldable pub get_chop_index : List ℕ → List CardState → Option ℕ
unfolding find_unclued
get_chop_index hand deck = elim (find_unclued hand deck) [
  | none ↦ last_index hand
  | some i ↦ some i
]

unfoldable pub is_card_on_chop : List ℕ → List CardState → CardState → Bool
unfolding get_chop_index
is_card_on_chop hand deck card = option_eq (index_of hand card.order) (get_chop_index hand deck)

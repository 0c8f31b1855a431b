-- ===== src/Rules/Deck.antt =====
-- rules/deck.ts
use hanabi_live.Prelude.{
  ℕ, suc, ◌+◌, ◌*◌, Bool, ◌&&◌, ◌||◌, none, some, List, [], ◌∷◌, option_eq, ◌==◌, get_elem?,
  sum_array, if◌then◌else◌,
}
use hanabi_live.Prelude.Int.{ℤ, pos, ◌-ℤ◌, eq_ℤ}
use hanabi_live.Result.{Result, ok, throw, start_card, map_result, filter_result, ◌>>=◌}
use hanabi_live.Types.Variant.{Variant, Suit}
use hanabi_live.Types.Card.{CardState}
use hanabi_live.Types.Game.{GameMetadata, to_number}
use hanabi_live.Rules.CardState.{is_card_discarded}
use hanabi_live.Rules.Hand.{get_cards_per_hand}

-- The `switch` on the rank. The last case is `START_CARD_RANK`, the one rank that is left.
unfoldable pub copies_by_rank : Suit → ℕ → Variant → Result ℕ
copies_by_rank suit rank variant =
    if rank == 1
    then ok
        (if variant.up_or_down || suit.reversed then 1 else if variant.scarce_ones then 2 else 3)
    else if rank == 2
    then ok 2
    else if rank == 3
    then ok 2
    else if rank == 4
    then ok 2
    else if rank == 5
    then ok (if suit.reversed then 3 else 1)
    else if variant.up_or_down
    then ok 1
    else throw start_card

unfoldable pub get_num_copies_of_card : Suit → ℕ → Variant → Result ℕ
unfolding copies_by_rank
get_num_copies_of_card suit rank variant =
    if suit.one_of_each || option_eq variant.critical_rank (some rank)
    then ok 1
    else if variant.sudoku
    then ok 2
    else copies_by_rank suit rank variant

unfoldable pub get_total_cards_in_suit : Variant → Suit → Result ℕ
get_total_cards_in_suit variant suit = do
  counts ← map_result (λ rank. get_num_copies_of_card suit rank variant) variant.ranks
  ok (sum_array counts)

unfoldable pub get_total_cards_in_deck : Variant → Result ℕ
get_total_cards_in_deck variant = do
  counts ← map_result (get_total_cards_in_suit variant) variant.suits
  ok (sum_array counts)

abbrev pub is_identity : CardState → ℕ → ℕ → Bool
is_identity card suit_index rank =
    option_eq card.suit_index (some suit_index) && option_eq card.rank (some rank)

unfoldable pub get_num_discarded_copies_of_card : List CardState → ℕ → ℕ → ℕ
get_num_discarded_copies_of_card [] suit_index rank = 0
get_num_discarded_copies_of_card (card ∷ deck) suit_index rank =
    let rest = get_num_discarded_copies_of_card deck suit_index rank in
    if is_identity card suit_index rank && is_card_discarded card then suc rest else rest

unfoldable pub is_initial_deal_finished : ℤ → GameMetadata → Result Bool
is_initial_deal_finished current_deck_size metadata = do
  total ← get_total_cards_in_deck metadata.variant
  let drawn = to_number metadata.options.num_players * get_cards_per_hand metadata.options
  ok (eq_ℤ current_deck_size (pos total -ℤ pos drawn))

-- `total` of `getDiscardHelpers`
unfoldable pub total : Variant → ℕ → ℕ → Result ℕ
total variant suit_index rank = elim (get_elem? variant.suits suit_index) [
  | none ↦ ok 0
  | some suit ↦ get_num_copies_of_card suit rank variant
]

unfoldable pub is_last_copy : Variant → List CardState → ℕ → ℕ → Result Bool
is_last_copy variant deck suit_index rank = do
  t ← total variant suit_index rank
  ok (t == get_num_discarded_copies_of_card deck suit_index rank + 1)

unfoldable pub is_all_discarded : Variant → List CardState → ℕ → ℕ → Result Bool
is_all_discarded variant deck suit_index rank = do
  t ← total variant suit_index rank
  ok (t == get_num_discarded_copies_of_card deck suit_index rank)

unfoldable pub get_all_discarded_set_for_suit : Variant → List CardState → ℕ → Result (List ℕ)
get_all_discarded_set_for_suit variant deck suit_index =
    filter_result (is_all_discarded variant deck suit_index) variant.ranks

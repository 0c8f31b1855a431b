-- ===== src/Rules/Card.antt =====
-- rules/card.ts
pub mod Needed
use hanabi_live.Prelude.{
  ℕ, ◌+◌, Bool, true, false, not, ◌&&◌, ◌||◌, Option, none, some, List, option_eq, is_none, ◌==◌,
  get_elem?, any, includes, e_range, if◌then◌else◌,
}
use hanabi_live.Result.{Result, ok, any_result, all_result, ◌>>=◌}
use hanabi_live.Types.Variant.{Variant}
use hanabi_live.Types.Card.{
  CardState, CardStatus, needs_to_be_played, critical, trash, SuitRankTuple,
}
use hanabi_live.Types.Game.{StackDirection}
use hanabi_live.Rules.CardState.{has_reversed_suits}
use hanabi_live.Rules.Deck.{
  get_num_copies_of_card, get_num_discarded_copies_of_card, is_all_discarded,
}
use hanabi_live.Rules.PlayStacks.{get_next_playable_ranks}
use hanabi_live.Rules.Reversible.{
  reversible_is_card_needed_for_max_score, reversible_is_card_critical,
}
use hanabi_live.Rules.Sudoku.Walk.{sudoku_is_card_needed_for_max_score}

-- Whether a card of the stack has the rank. Orders that are not in the deck are passed over.
abbrev pub is_rank_played : List ℕ → List CardState → ℕ → Bool
is_rank_played play_stack deck rank =
    any
      (λ order. elim (get_elem? deck order) [
        | none ↦ false
        | some card ↦ option_eq card.rank (some rank)
      ])
      play_stack

unfoldable pub needed_by_order : ℕ → ℕ → List CardState → Variant → Result Bool
needed_by_order suit_index rank deck variant = do
  dead ← any_result (is_all_discarded variant deck suit_index) (e_range 1 rank)
  ok (not dead)

-- The play area, which the rules on cards read: the three fields are passed side by side.
pub record Stacks : Type 0 where
  pub play_stacks : List (List ℕ)
  pub play_stack_directions : List StackDirection
  pub play_stack_starts : List (Option ℕ)

abbrev pub needed_on_stack :
    Option (List ℕ) → ℕ → ℕ → List CardState → Stacks → Variant → Result Bool
needed_on_stack none suit_index rank deck stacks variant = ok false
needed_on_stack (some play_stack) suit_index rank deck stacks variant =
    if is_rank_played play_stack deck rank
    then ok false
    else if has_reversed_suits variant
    then reversible_is_card_needed_for_max_score suit_index rank deck stacks.play_stacks
        stacks.play_stack_directions variant
    else if variant.sudoku
    then sudoku_is_card_needed_for_max_score suit_index rank deck stacks.play_stack_starts variant
    else needed_by_order suit_index rank deck variant

unfoldable pub is_card_needed_for_max_score :
    Option ℕ → Option ℕ → List CardState → Stacks → Variant → Result Bool
unfolding needed_by_order
is_card_needed_for_max_score none rank deck stacks variant = ok false
is_card_needed_for_max_score (some suit_index) none deck stacks variant = ok false
is_card_needed_for_max_score (some suit_index) (some rank) deck stacks variant =
    needed_on_stack (get_elem? stacks.play_stacks suit_index) suit_index rank deck stacks variant

abbrev critical_in_suit : ℕ → ℕ → List CardState → Variant → Result Bool
critical_in_suit suit_index rank deck variant = elim (get_elem? variant.suits suit_index) [
  | none ↦ ok false
  | some suit ↦ do
    num_total ← get_num_copies_of_card suit rank variant
    ok (num_total == get_num_discarded_copies_of_card deck suit_index rank + 1)
]

unfoldable pub is_card_critical :
    Option ℕ → Option ℕ → List CardState → List StackDirection → Variant → Result Bool
is_card_critical none rank deck directions variant = ok false
is_card_critical (some suit_index) none deck directions variant = ok false
is_card_critical (some suit_index) (some rank) deck directions variant =
    if has_reversed_suits variant
    then reversible_is_card_critical suit_index rank deck directions variant
    else critical_in_suit suit_index rank deck variant

unfoldable pub get_card_status : ℕ → ℕ → List CardState → Stacks → Variant → Result CardStatus
get_card_status suit_index rank deck stacks variant = do
  needed ← is_card_needed_for_max_score (some suit_index) (some rank) deck stacks variant
  if needed
      then (do
        is_critical ←
            is_card_critical (some suit_index) (some rank) deck stacks.play_stack_directions variant
        ok (if is_critical then critical else needs_to_be_played))
      else ok trash

abbrev is_inverted : Variant → ℕ → Bool
is_inverted variant suit_index = elim (get_elem? variant.suits suit_index) [
  | none ↦ false
  | some suit ↦ suit.inverted
]

abbrev playable_on :
    Option (List ℕ) → Option StackDirection → ℕ → ℕ → List CardState → Stacks → Variant → Bool
playable_on none direction suit_index rank deck stacks variant = false
playable_on (some play_stack) none suit_index rank deck stacks variant = false
playable_on (some play_stack) (some direction) suit_index rank deck stacks variant =
    includes
      (get_next_playable_ranks suit_index play_stack direction stacks.play_stack_starts variant
        deck)
      rank

unfoldable pub is_possibility_playable : SuitRankTuple → List CardState → Stacks → Variant → Bool
is_possibility_playable (suit_index, rank) deck stacks variant =
    is_inverted variant suit_index
    || playable_on (get_elem? stacks.play_stacks suit_index)
        (get_elem? stacks.play_stack_directions suit_index) suit_index rank deck stacks variant

unfoldable pub is_card_potentially_playable : CardState → List CardState → Stacks → Variant → Bool
unfolding is_possibility_playable
is_card_potentially_playable card deck stacks variant =
    any (λ p. is_possibility_playable p deck stacks variant) card.possible_cards

-- A known suit or rank has to agree; `null` agrees with all.
abbrev pub agrees : Option ℕ → ℕ → Bool
agrees none a = true
agrees (some b) a = b == a

abbrev can_be_among : List SuitRankTuple → Option ℕ → Option ℕ → Bool
can_be_among possibilities suit_index rank =
    if is_none suit_index && is_none rank
    then true
    else any (λ p. agrees suit_index p.0 && agrees rank p.1) possibilities

unfoldable pub can_card_possibly_be_from_clues_only : CardState → Option ℕ → Option ℕ → Bool
can_card_possibly_be_from_clues_only card = can_be_among card.possible_cards_from_clues

unfoldable pub can_card_possibly_be_from_empathy : CardState → Option ℕ → Option ℕ → Bool
can_card_possibly_be_from_empathy card = can_be_among card.possible_cards_for_empathy

abbrev pub is_trash : List CardState → Stacks → Variant → SuitRankTuple → Result Bool
is_trash deck stacks variant (suit_index, rank) = do
  needed ← is_card_needed_for_max_score (some suit_index) (some rank) deck stacks variant
  ok (not needed)

abbrev trash_by_identity :
    Option ℕ → Option ℕ → CardState → List CardState → Stacks → Variant → Result Bool
trash_by_identity (some suit_index) (some rank) card deck stacks variant =
    is_trash deck stacks variant (suit_index, rank)
trash_by_identity _ _ card deck stacks variant =
    all_result (is_trash deck stacks variant) card.possible_cards

unfoldable pub is_all_card_possibilities_trash :
    CardState → List CardState → Stacks → Variant → Bool → Result Bool
is_all_card_possibilities_trash card deck stacks variant empathy =
    if empathy
    then all_result (is_trash deck stacks variant) card.possible_cards_for_empathy
    else trash_by_identity card.suit_index card.rank card deck stacks variant

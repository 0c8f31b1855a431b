-- ===== src/Rules/DoubleDiscard.antt =====
-- rules/stats.ts: the double discard situation
use hanabi_live.Prelude.{
  ℕ, ◌+◌, ◌%◌, Bool, false, not, ◌&&◌, Option, none, some, option_eq, ◌==◌, get_elem?, length, any,
  if◌then◌else◌,
}
use hanabi_live.Result.{Result, ok, ◌>>=◌}
use hanabi_live.Types.Variant.{Variant}
use hanabi_live.Types.Card.{CardState}
use hanabi_live.Types.Game.{GameState}
use hanabi_live.Rules.CardState.{is_card_in_player_hand}
use hanabi_live.Rules.Deck.{get_num_copies_of_card, get_num_discarded_copies_of_card}
use hanabi_live.Rules.Hand.{is_hand_locked}
use hanabi_live.Rules.Card.{Stacks, is_card_needed_for_max_score}

-- The three fields of the state that the rules on cards read.
abbrev pub stacks_of : GameState → Stacks
stacks_of s = record {
  play_stacks = s.play_stacks;
  play_stack_directions = s.play_stack_directions;
  play_stack_starts = s.play_stack_starts;
}

abbrev pub next_player_locked : GameState → ℕ → Bool
next_player_locked s current = elim (get_elem? s.hands ((current + 1) % length s.hands)) [
  | none ↦ false
  | some hand ↦ is_hand_locked hand s.deck
]

-- Another copy in a player's hand that is filled in by clues.
abbrev pub is_filled_in_copy : CardState → CardState → Bool
is_filled_in_copy discarded card =
    not (card.order == discarded.order)
    && option_eq card.suit_index discarded.suit_index
    && option_eq card.rank discarded.rank
    && is_card_in_player_hand card
    && length card.possible_cards_from_clues == 1

abbrev last_copy_of : ℕ → ℕ → ℕ → GameState → Variant → Result (Option ℕ)
last_copy_of order suit_index rank s variant = elim (get_elem? variant.suits suit_index) [
  | none ↦ ok none
  | some suit ↦ do
    num_total ← get_num_copies_of_card suit rank variant
    ok (
        if num_total == get_num_discarded_copies_of_card s.deck suit_index rank + 1
        then some order
        else none)
]

abbrev pub double_discard_of :
    ℕ → CardState → Option ℕ → Option ℕ → GameState → Variant → Result (Option ℕ)
double_discard_of order card none rank s variant = ok none
double_discard_of order card (some suit_index) none s variant = ok none
double_discard_of order card (some suit_index) (some rank) s variant = do
  needed ← is_card_needed_for_max_score (some suit_index) (some rank) s.deck (stacks_of s) variant
  if not needed
      then ok none
      else if any (is_filled_in_copy card) s.deck
      then ok none
      else last_copy_of order suit_index rank s variant

abbrev pub double_discard_at :
    ℕ → Option CardState → Option ℕ → GameState → Variant → Result (Option ℕ)
double_discard_at order none current s variant = ok none
double_discard_at order (some card) none s variant = ok none
double_discard_at order (some card) (some current) s variant =
    if next_player_locked s current
    then ok none
    else double_discard_of order card card.suit_index card.rank s variant

unfoldable pub get_double_discard_card : ℕ → GameState → Variant → Result (Option ℕ)
get_double_discard_card order s variant =
    double_discard_at order (get_elem? s.deck order) s.turn.current_player_index s variant

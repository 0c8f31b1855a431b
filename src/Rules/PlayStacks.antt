-- ===== src/Rules/PlayStacks.antt =====
-- rules/playStacks.ts
use hanabi_live.Prelude.{
  ℕ, ◌+◌, ◌-◌, ◌%◌, Bool, not, Option, none, some, List, [], ◌∷◌, option_eq, ◌==◌, get_elem?, last?,
  length, any, filter, if◌then◌else◌,
}
use hanabi_live.Types.Variant.{Variant, start_card_rank}
use hanabi_live.Types.Card.{CardState}
use hanabi_live.Types.Game.{StackDirection, undecided, up, down, finished}
use hanabi_live.Rules.CardState.{has_reversed_suits}

-- The rank of the card with this order, `null` if the card or its rank is unknown.
abbrev pub rank_of : List CardState → Option ℕ → Option ℕ
rank_of deck none = none
rank_of deck (some order) = elim (get_elem? deck order) [ none ↦ none | some card ↦ card.rank ]

unfoldable pub get_last_played_rank : List ℕ → List CardState → Option ℕ
get_last_played_rank play_stack deck = rank_of deck (last? play_stack)

unfoldable pub get_stack_start_rank : List ℕ → List CardState → Option ℕ
get_stack_start_rank play_stack deck = rank_of deck (get_elem? play_stack 0)

abbrev pub is_stack_start : List (Option ℕ) → ℕ → Bool
is_stack_start play_stack_starts rank = any (λ start. option_eq start (some rank)) play_stack_starts

-- `sudokuGetUnusedStackStartRanks` of rules/variants/sudoku.ts is the same filter.
unfoldable pub get_unused_stack_start_ranks : List (Option ℕ) → Variant → List ℕ
get_unused_stack_start_ranks play_stack_starts variant =
    filter (λ rank. not (is_stack_start play_stack_starts rank)) variant.ranks

-- The stack of a Sudoku suit with no card on it.
abbrev first_sudoku_ranks : Option (Option ℕ) → List (Option ℕ) → Variant → List ℕ
first_sudoku_ranks (some (some start)) starts variant = start ∷ []
first_sudoku_ranks _ starts variant = get_unused_stack_start_ranks starts variant

abbrev sudoku_ranks : Option ℕ → ℕ → List (Option ℕ) → Variant → List ℕ
sudoku_ranks none suit_index starts variant =
    first_sudoku_ranks (get_elem? starts suit_index) starts variant
sudoku_ranks (some played) suit_index starts variant = (played % variant.stack_size + 1) ∷ []

abbrev ranks_above : Option ℕ → List ℕ
ranks_above none = 1 ∷ []
ranks_above (some played) = (played + 1) ∷ []

abbrev ranks_below : Option ℕ → List ℕ
ranks_below none = 5 ∷ []
ranks_below (some played) = (played - 1) ∷ []

abbrev next_ranks : StackDirection → Option ℕ → ℕ → List (Option ℕ) → Variant → List ℕ
next_ranks undecided played suit_index starts variant =
    if option_eq played (some start_card_rank) then 2 ∷ 4 ∷ [] else 1 ∷ 5 ∷ start_card_rank ∷ []
next_ranks up played suit_index starts variant =
    if not variant.sudoku then ranks_above played else sudoku_ranks played suit_index starts variant
next_ranks down played suit_index starts variant = ranks_below played
next_ranks finished played suit_index starts variant = []

unfoldable pub get_next_playable_ranks :
    ℕ → List ℕ → StackDirection → List (Option ℕ) → Variant → List CardState → List ℕ
unfolding get_last_played_rank get_unused_stack_start_ranks
get_next_playable_ranks suit_index play_stack direction play_stack_starts variant deck =
    next_ranks direction (get_last_played_rank play_stack deck) suit_index play_stack_starts variant

-- Which way a "Reversed" suit goes.
abbrev suit_direction : ℕ → Variant → StackDirection
suit_direction suit_index variant = elim (get_elem? variant.suits suit_index) [
  | none ↦ up
  | some suit ↦ if suit.reversed then down else up
]

-- The top is 3 and there are three cards: the second card tells.
abbrev direction_of_second : Option ℕ → List CardState → StackDirection
direction_of_second none deck = up
direction_of_second (some second) deck = elim (get_elem? deck second) [
  | none ↦ up
  | some card ↦ if option_eq card.rank (some 2) then up else down
]

abbrev up_or_down_direction : Option ℕ → List ℕ → List CardState → StackDirection
up_or_down_direction none play_stack deck = undecided
up_or_down_direction (some top) play_stack deck =
    if top == start_card_rank
    then undecided
    else if not (top == length play_stack)
    then down
    else if not (top == 3)
    then up
    else direction_of_second (get_elem? play_stack 1) deck

unfoldable pub get_stack_direction : ℕ → List ℕ → List CardState → Variant → StackDirection
unfolding get_last_played_rank has_reversed_suits
get_stack_direction suit_index play_stack deck variant =
    if length play_stack == variant.stack_size
    then finished
    else if not (has_reversed_suits variant)
    then up
    else if not variant.up_or_down
    then suit_direction suit_index variant
    else up_or_down_direction (get_last_played_rank play_stack deck) play_stack deck

-- ===== src/Reducers/Deduction/Sources.antt =====
-- reducers/cardDeductionReducer.ts: the cards that a deduction is drawn from
use hanabi_live.Prelude.{
  ℕ, ◌+◌, Bool, true, false, not, ◌&&◌, ◌||◌, Option, none, some, List, [], ◌∷◌, ◌==◌, get_elem?,
  length, leb, if◌then◌else◌,
}
use hanabi_live.Prelude.Int.{ℤ, pos, ltb_ℤ}
use hanabi_live.Result.{Result, ok, map_result, ◌>>=◌}
use hanabi_live.Types.Variant.{Variant, Suit}
use hanabi_live.Types.Card.{CardState, SuitRankTuple}
use hanabi_live.Rules.Deck.{get_num_copies_of_card}
use hanabi_live.Reducers.Marks.{is_at}
use hanabi_live.Reducers.Deduction.Search.{Counts, decrement, left}

abbrev count_of : List (ℕ × ℕ) → ℕ → ℤ
count_of [] rank = pos 0
count_of ((r, n) ∷ row) rank = let later = count_of row rank in if r == rank then pos n else later

-- The table as an array indexed by suit, then rank.
abbrev table_counts : List (List (ℕ × ℕ)) → Counts
table_counts table suit_index rank = elim (get_elem? table suit_index) [
  | none ↦ pos 0
  | some row ↦ count_of row rank
]

-- The cache by variant identifier returns a copy of what it has computed before, so it is left out.
unfoldable pub get_card_count_map : Variant → Result Counts
get_card_count_map variant = do
  table ←
      map_result
        (λ (suit : Suit).
          map_result (λ (rank : ℕ). do n ← get_num_copies_of_card suit rank variant; ok (rank, n))
            variant.ranks)
        variant.suits
  ok (table_counts table)

abbrev pub is_revealed_to : CardState → ℕ → Bool
is_revealed_to card player = elim (get_elem? card.revealed_to_player player) [
  | none ↦ false
  | some b ↦ b
]

abbrev known_identity : Option ℕ → Option ℕ → Option SuitRankTuple
known_identity (some suit_index) (some rank) = some (suit_index, rank)
known_identity _ _ = none

-- A card that is not in the player's hand.
abbrev pub possibilities_elsewhere : CardState → ℕ → ℕ → List SuitRankTuple
possibilities_elsewhere card player our_player =
    let revealed = is_revealed_to card player in
    let best =
      if player == our_player || revealed
      then card.possible_cards
      else card.possible_cards_from_clues in
    elim (known_identity card.suit_index card.rank) [
      | none ↦ best
      | some identity ↦ if revealed then identity ∷ [] else best
    ]

unfoldable pub get_card_possibilities_for_player : Option CardState → ℕ → ℕ → List SuitRankTuple
get_card_possibilities_for_player none player our_player = []
get_card_possibilities_for_player (some card) player our_player =
    if is_at card.location player
    then card.possible_cards_for_empathy
    else possibilities_elsewhere card player our_player

unfoldable pub can_be_used_to_disprove_possibility : Option CardState → ℕ → ℕ → Bool
can_be_used_to_disprove_possibility none exclude player = false
can_be_used_to_disprove_possibility (some card) exclude player =
    not (card.order == exclude) && (is_revealed_to card player || card.has_clue_applied)

-- `sort((a, b) => a.length - b.length)`, which is stable.
abbrev pub insert_by_length :
    List SuitRankTuple → List (List SuitRankTuple) → List (List SuitRankTuple)
insert_by_length a [] = a ∷ []
insert_by_length a (x ∷ xs) =
    let rest = insert_by_length a xs in if leb (length a) (length x) then a ∷ x ∷ xs else x ∷ rest

abbrev pub sort_by_length : List (List SuitRankTuple) → List (List SuitRankTuple)
sort_by_length [] = []
sort_by_length (x ∷ xs) = insert_by_length x (sort_by_length xs)

-- `isPossibleCard`: the answer, and the counts after it.
unfoldable pub is_possible_card : List SuitRankTuple → Counts → Bool × Counts
is_possible_card (p ∷ []) counts =
    let counts' = decrement counts p in (not (ltb_ℤ (left counts' p) (pos 0)), counts')
is_possible_card possibilities counts = (true, counts)

unfoldable pub keep_possible : List (List SuitRankTuple) → Counts → List (List SuitRankTuple)
unfolding is_possible_card
keep_possible [] counts = []
keep_possible (possibilities ∷ rest) counts =
    let (possible, counts') = is_possible_card possibilities counts in
    let later = keep_possible rest counts' in if possible then possibilities ∷ later else later

-- The loop over the deck.
unfoldable pub collect_possibilities : ℕ → List CardState → ℕ → ℕ → List (List SuitRankTuple)
unfolding get_card_possibilities_for_player can_be_used_to_disprove_possibility
collect_possibilities exclude [] player our_player = []
collect_possibilities exclude (card ∷ deck) player our_player =
    let rest = collect_possibilities exclude deck player our_player in
    if can_be_used_to_disprove_possibility (some card) exclude player
    then get_card_possibilities_for_player (some card) player our_player ∷ rest
    else rest

unfoldable pub generate_deck_possibilities :
    ℕ → List CardState → ℕ → ℕ → Counts → List (List SuitRankTuple)
unfolding collect_possibilities keep_possible
generate_deck_possibilities exclude deck player our_player counts =
    keep_possible (sort_by_length (collect_possibilities exclude deck player our_player)) counts

abbrev differs : Bool → Bool → Bool
differs true b = not b
differs false b = b

-- The loop of `deckPossibilitiesDifferent` from an order on.
unfoldable pub possibilities_differ_from : ℕ → ℕ → List CardState → List CardState → ℕ → ℕ → Bool
unfolding get_card_possibilities_for_player can_be_used_to_disprove_possibility
possibilities_differ_from order exclude [] old_deck player our_player = false
possibilities_differ_from order exclude (card ∷ deck) old_deck player our_player =
    let later = possibilities_differ_from (order + 1) exclude deck old_deck player our_player in
    let old_card = get_elem? old_deck order in
    let used = can_be_used_to_disprove_possibility (some card) exclude player in
    differs (can_be_used_to_disprove_possibility old_card exclude player) used
    || (used
        && not (
            length (get_card_possibilities_for_player old_card player our_player)
            == length (get_card_possibilities_for_player (some card) player our_player)))
    || later

unfoldable pub deck_possibilities_different : ℕ → List CardState → List CardState → ℕ → ℕ → Bool
unfolding possibilities_differ_from
deck_possibilities_different = possibilities_differ_from 0

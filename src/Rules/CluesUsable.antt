-- ===== src/Rules/CluesUsable.antt =====
-- rules/stats.ts: the clues that can still be spent. Amounts of clues are counted in half clues, since
-- the values of a discard and of a suit are 0.5 or 1.
use hanabi_live.Prelude.{
  ℕ, suc, ◌+◌, ◌-◌, ◌*◌, ◌/◌, not, ◌&&◌, Option, none, some, List, [], ◌∷◌, ◌==◌, ltb, leb, length,
  replicate, sum_array, if◌then◌else◌,
}
use hanabi_live.Prelude.Int.{ℤ, pos, negsuc, sub_ℕ, ◌+ℤ◌, ◌-ℤ◌, ltb_ℤ, leb_ℤ}
use hanabi_live.Result.{
  Result, ok, throw, assert_defined, stacks_differ, discard_value_too_low, no_starting_clues, ◌>>=◌,
}
use hanabi_live.Types.Variant.{Variant, max_clue_num}
use hanabi_live.Rules.ClueTokens.{get_discard_clue_token_value, get_suit_complete_clue_token_value}
use hanabi_live.Rules.Pace.{
  get_max_discards_before_final_round, get_max_plays_during_final_round, get_max_plays,
}

-- `sort((a, b) => a - b)`
abbrev pub insert : ℕ → List ℕ → List ℕ
insert a [] = a ∷ []
insert a (x ∷ xs) = let rest = insert a xs in if leb a x then a ∷ x ∷ xs else x ∷ rest

abbrev pub sort : List ℕ → List ℕ
sort [] = []
sort (x ∷ xs) = insert x (sort xs)

-- The loop that fills `missingCardsPerCompletableSuit`; the two lists have the same length.
unfoldable pub missing_per_completable_suit : ℕ → List ℕ → List ℕ → List ℕ
missing_per_completable_suit stack_size [] maxima = []
missing_per_completable_suit stack_size (score ∷ scores) [] = []
missing_per_completable_suit stack_size (score ∷ scores) (stack_max ∷ maxima) =
    let rest = missing_per_completable_suit stack_size scores maxima in
    if stack_max == stack_size && ltb score stack_size then (stack_max - score) ∷ rest else rest

-- The loop over the sorted suits, with the cards that were played so far.
unfoldable pub suits_completed : ℤ → ℕ → List ℕ → ℕ
suits_completed min_plays cards_played [] = 0
suits_completed min_plays cards_played (missing ∷ rest) =
    let more = suits_completed min_plays (cards_played + missing) rest in
    if ltb_ℤ min_plays (pos (cards_played + missing)) then 0 else suc more

-- A number of times an integer.
abbrev pub times : ℕ → ℤ → ℤ
times n (pos a) = pos (n * a)
times n (negsuc a) = sub_ℕ 0 (n * suc a)

unfoldable pub clues_from_suits : ℤ → ℤ → ℕ → List ℕ → List ℕ → ℕ → ℕ → ℕ
unfolding suits_completed missing_per_completable_suit get_max_plays
    get_max_plays_during_final_round
clues_from_suits missing_score deck_size end_game_length scores maxima stack_size suit_value =
    let min_plays =
      get_max_plays missing_score deck_size end_game_length
      -ℤ get_max_plays_during_final_round missing_score end_game_length in
    if ltb 0 suit_value
    then suits_completed min_plays 0 (sort (missing_per_completable_suit stack_size scores maxima))
      * suit_value
    else 0

unfoldable pub get_clues_still_usable_not_rounded :
    ℕ → List ℕ → List ℕ → ℕ → ℤ → ℕ → ℕ → ℕ → ℤ → Result (Option ℤ)
unfolding clues_from_suits get_max_discards_before_final_round
get_clues_still_usable_not_rounded score scores maxima stack_size deck_size end_game_length
      discard_value suit_value current_clues =
    let missing_score = pos (sum_array maxima) -ℤ pos score in
    let discards = get_max_discards_before_final_round missing_score deck_size end_game_length in
    let from_suits =
      clues_from_suits missing_score deck_size end_game_length scores maxima stack_size
        suit_value in
    if not (length scores == length maxima)
    then throw stacks_differ
    else if ltb discard_value suit_value
    then throw discard_value_too_low
    else if leb_ℤ deck_size (pos 0)
    then ok none
    else ok (some (times discard_value discards +ℤ pos from_suits +ℤ current_clues))

-- `Math.floor` of a number of half clues
abbrev pub floor_half : ℤ → ℤ
floor_half (pos n) = pos (n / 2)
floor_half (negsuc n) = negsuc (n / 2)

abbrev pub floor_option : Option ℤ → Option ℤ
floor_option none = none
floor_option (some h) = some (floor_half h)

-- The result is in whole clues.
unfoldable pub get_clues_still_usable :
    ℕ → List ℕ → List ℕ → ℕ → ℤ → ℕ → ℕ → ℕ → ℤ → Result (Option ℤ)
get_clues_still_usable score scores maxima stack_size deck_size end_game_length discard_value
      suit_value current_clues =
    do
      result ←
          get_clues_still_usable_not_rounded score scores maxima stack_size deck_size
            end_game_length discard_value suit_value current_clues
      ok (floor_option result)

unfoldable pub get_starting_clues_usable : ℕ → ℤ → Variant → Result ℤ
get_starting_clues_usable end_game_length deck_size variant = do
  let n = length variant.suits
  usable ←
      get_clues_still_usable 0 (replicate n 0) (replicate n variant.stack_size) variant.stack_size
        deck_size end_game_length (get_discard_clue_token_value variant)
        (get_suit_complete_clue_token_value variant) (pos (max_clue_num * 2))
  assert_defined no_starting_clues usable

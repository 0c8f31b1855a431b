-- ===== src/Tests/Tables.antt =====
-- Pace, clue tokens, clues and assignments at concrete numbers.
use hanabi_live.Prelude.{
  ℕ, zero, suc, ◌-◌, ◌≤◌, ◌≡◌, ◌≢◌, ◌↔◌, refl, Bool, true, false, some, List, [], ◌∷◌, arith,
  sum_array, count,
}
use hanabi_live.Prelude.Int.{pos, negsuc, ◌≤ℤ◌}
use hanabi_live.Result.{ok, throw, five_stack_index}
use hanabi_live.Types.Variant.{max_clue_num}
use hanabi_live.Types.Action.{discarded, ActionDiscard}
use hanabi_live.Types.Game.{NumPlayers}
use hanabi_live.Rules.ClueTokens.{get_adjusted_clue_tokens, get_new_clue_tokens_after_action}
use hanabi_live.Rules.ClueTokens.Bounds.{get_new_clue_tokens_after_action-le-max}
use hanabi_live.Rules.Pace.{get_pace, get_pace_risk, get_max_plays}
use hanabi_live.Rules.Pace.Risk.{severity, severity-get_pace_risk_antitone, get_pace-get_max_plays}
use hanabi_live.Rules.Sudoku.Assignment.{
  PartialScores, is_assignment_better, is_taken, first_free, solve, initial_search,
}
use hanabi_live.Rules.Sudoku.Assignment.Indexes.{first_free_throws, solve_throws}
use hanabi_live.Rules.Sudoku.MaxScore.{search_fuel}
use hanabi_live.Rules.Sudoku.Assignment.Fuel.{is_spent, solve_terminates}
use hanabi_live.Rules.Sudoku.Assignment.Order.{is_assignment_better_both_ways}
use hanabi_live.Reducers.Game.Piles.{card_cycle}
use hanabi_live.Reducers.Game.Piles.Conservation.{count-card_cycle}
use hanabi_live.Tests.Samples.{sample_variant, sample_metadata, sample_deck}

abbrev a_discard : ActionDiscard
a_discard = record {
  player_index = 0;
  order = 0;
  suit_index = some 0;
  rank = some 1;
  failed = false;
}

max_of_sample : pos 8 ≤ℤ pos (get_adjusted_clue_tokens max_clue_num sample_variant)
unfolding get_adjusted_clue_tokens
max_of_sample = omega arith

get_new_clue_tokens_after_action-le-max_example :
    get_new_clue_tokens_after_action (discarded a_discard) (pos 8) sample_variant false
    ≤ℤ pos (get_adjusted_clue_tokens max_clue_num sample_variant)
get_new_clue_tokens_after_action-le-max_example =
    get_new_clue_tokens_after_action-le-max (discarded a_discard) (pos 8) sample_variant false
      max_of_sample

severity-get_pace_risk_antitone_example :
    severity (get_pace_risk (some (pos 2)) NumPlayers.four)
    ≤ severity (get_pace_risk (some (negsuc 0)) NumPlayers.four)
severity-get_pace_risk_antitone_example =
    severity-get_pace_risk_antitone (negsuc 0) (pos 2) NumPlayers.four (omega arith)

pace_is_negative : get_pace 20 (pos 2) 25 2 false ≡ some (negsuc 0)
unfolding get_pace
pace_is_negative = refl

get_pace-get_max_plays_example :
    (pos 0 ≤ℤ negsuc 0) ↔ (get_max_plays (pos (25 - 20)) (pos 2) 2 ≡ pos (25 - 20))
get_pace-get_max_plays_example =
    get_pace-get_max_plays 20 25 2 (pos 2) (negsuc 0) (omega arith) pace_is_negative

abbrev one_way : List ℕ
one_way = 3 ∷ 4 ∷ []

abbrev other_way : List ℕ
other_way = 4 ∷ 3 ∷ []

different : one_way ≢ other_way
different e = cc

is_assignment_better_both_ways_example :
    (is_assignment_better (sum_array one_way) one_way (sum_array other_way) other_way ≡ ok true)
    × (is_assignment_better (sum_array other_way) other_way (sum_array one_way) one_way ≡ ok true)
is_assignment_better_both_ways_example =
    is_assignment_better_both_ways one_way other_way refl refl different

-- The starts 3 and 4 of five are taken.
abbrev taken_starts : List Bool
taken_starts = false ∷ false ∷ false ∷ true ∷ true ∷ []

late_starts_taken : (i : ℕ) → 3 ≤ i → i ≤ 4 → is_taken taken_starts i ≡ true
late_starts_taken zero h k = absurd (omega arith)
late_starts_taken (suc zero) h k = absurd (omega arith)
late_starts_taken (suc (suc zero)) h k = absurd (omega arith)
late_starts_taken (suc (suc (suc zero))) h k = refl
late_starts_taken (suc (suc (suc (suc zero)))) h k = refl
late_starts_taken (suc (suc (suc (suc (suc i))))) h k = absurd (omega arith)

first_free_throws_example : first_free taken_starts 5 3 1 ≡ throw five_stack_index
first_free_throws_example = first_free_throws taken_starts 1 3 refl late_starts_taken

abbrev no_partial : PartialScores
no_partial suit = some (λ start. some 3)

solve_throws_example :
    solve (0 ∷ 1 ∷ 2 ∷ 3 ∷ 4 ∷ []) (1 ∷ 2 ∷ 3 ∷ 4 ∷ 5 ∷ []) no_partial 2 initial_search
    ≡ throw five_stack_index
solve_throws_example =
    solve_throws (0 ∷ 1 ∷ 2 ∷ 3 ∷ 4 ∷ []) (1 ∷ 2 ∷ 3 ∷ 4 ∷ 5 ∷ []) no_partial 1 refl (omega arith)

count-card_cycle_example :
    count 1 (card_cycle (0 ∷ 1 ∷ []) sample_deck sample_metadata) ≡ count 1 (0 ∷ 1 ∷ [])
count-card_cycle_example = count-card_cycle 1 (0 ∷ 1 ∷ []) sample_deck sample_metadata

solve_terminates_example :
    is_spent (solve (0 ∷ 2 ∷ []) (1 ∷ 3 ∷ 4 ∷ []) no_partial search_fuel initial_search) ≡ false
solve_terminates_example =
    solve_terminates (0 ∷ 2 ∷ []) (1 ∷ 3 ∷ 4 ∷ []) no_partial (omega arith) (omega arith)

-- ===== src/Rules/Sudoku/MaxScore.antt =====
-- `sudokuGetMaxScorePerStack` of rules/variants/sudoku.ts
use hanabi_live.Prelude.{
  ℕ, ◌+◌, ◌-◌, Option, none, some, List, [], ◌∷◌, ◌++◌, ◌==◌, get_elem?, length, keys,
  if◌then◌else◌,
}
use hanabi_live.Result.{Result, ok, assert_defined, no_score, map_result, ◌>>=◌}
use hanabi_live.Types.Variant.{Variant}
use hanabi_live.Types.Card.{CardState}
use hanabi_live.Rules.Deck.{get_all_discarded_set_for_suit}
use hanabi_live.Rules.PlayStacks.{get_unused_stack_start_ranks}
use hanabi_live.Rules.Sudoku.Walk.{Scores, write, sudoku_walk_up_all}
use hanabi_live.Rules.Sudoku.Assignment.{PartialScores, initial_search, solve}

-- What the first loop has built.
pub record Parts : Type 0 where
  pub independent : Scores
  pub partial : PartialScores
  pub unassigned_suits : List ℕ

abbrev no_parts : Parts
no_parts = record { independent = λ i. none; partial = λ i. none; unassigned_suits = [] }

abbrev with_independent : Parts → ℕ → Option ℕ → Parts
with_independent parts suit_index score = record parts {
  independent = write parts.independent suit_index score;
}

abbrev classify_start : Option ℕ → Scores → ℕ → Parts → Result Parts
classify_start (some start) scores suit_index parts = do
  score ← assert_defined no_score (scores (start - 1))
  ok (with_independent parts suit_index (some score))
classify_start none scores suit_index parts = ok (record parts {
  partial = λ i. if i == suit_index then some scores else parts.partial i;
  unassigned_suits = parts.unassigned_suits ++ suit_index ∷ [];
})

unfoldable pub classify_suit : List CardState → Variant → Option ℕ → ℕ → Parts → Result Parts
classify_suit deck variant start suit_index parts = do
  dead ← get_all_discarded_set_for_suit variant deck suit_index
  let walked = sudoku_walk_up_all dead variant
  if walked.0
      then ok (with_independent parts suit_index (some variant.stack_size))
      else classify_start start walked.1 suit_index parts

-- The first loop, from a suit index on.
unfoldable pub classify_suits :
    List CardState → Variant → ℕ → List (Option ℕ) → Parts → Result Parts
unfolding classify_suit
classify_suits deck variant suit_index [] parts = ok parts
classify_suits deck variant suit_index (start ∷ starts) parts = do
  next ← classify_suit deck variant start suit_index parts
  classify_suits deck variant (suit_index + 1) starts next

-- The last loop: a suit without a value in the best assignment gets 0.
unfoldable pub fill_in : Scores → ℕ → List ℕ → List ℕ → Scores
fill_in scores i best [] = scores
fill_in scores i best (suit ∷ suits) =
    fill_in (write scores suit (some (elim (get_elem? best i) [ none ↦ 0 | some value ↦ value ])))
      (i + 1) best suits

abbrev read_all : Scores → List ℕ → Result (List ℕ)
read_all scores indexes = map_result (λ i. assert_defined no_score (scores i)) indexes

-- More rounds than the search over five suits and five starts can take.
abbrev pub search_fuel : ℕ
search_fuel = 14407

unfoldable pub sudoku_get_max_score_per_stack :
    List CardState → List (Option ℕ) → Variant → Result (List ℕ)
unfolding classify_suits fill_in
sudoku_get_max_score_per_stack deck play_stack_starts variant = do
  parts ← classify_suits deck variant 0 play_stack_starts no_parts
  if length parts.unassigned_suits == 0
      then read_all parts.independent (keys play_stack_starts)
      else do
        found ←
            solve parts.unassigned_suits (get_unused_stack_start_ranks play_stack_starts variant)
              parts.partial search_fuel initial_search
        read_all (fill_in parts.independent 0 found.best parts.unassigned_suits)
            (keys play_stack_starts)

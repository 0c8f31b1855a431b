-- ===== src/Rules/Sudoku/Walk.antt =====
-- rules/variants/sudoku.ts. An array that is written by index is a function of the index, `none`
-- where nothing was written.

use Prim.Native.Nat.{min}
use hanabi_live.Prelude.{
  ℕ, ◌+◌, ◌-◌, ◌%◌, Bool, true, false, Option, none, some, List, [], ◌∷◌, ◌==◌, ltb, get_elem?,
  length, includes, e_range, i_range, if◌then◌else◌,
}
use hanabi_live.Result.{Result, ok, assert_defined, any_result, no_stack_start, no_score, ◌>>=◌}
use hanabi_live.Types.Variant.{Variant}
use hanabi_live.Types.Card.{CardState}
use hanabi_live.Rules.Deck.{get_all_discarded_set_for_suit}
use hanabi_live.Rules.PlayStacks.{get_unused_stack_start_ranks}

abbrev pub Scores : Type 0
Scores = ℕ → Option ℕ

abbrev pub write : Scores → ℕ → Option ℕ → Scores
write scores i v j = if j == i then v else scores j

-- `newArray(n, v)`
abbrev pub new_scores : ℕ → ℕ → Scores
new_scores n v i = if ltb i n then some v else none

-- One `for` loop that writes `score(writeRank)` at `writeRank - 1`.
abbrev pub write_ranks : Scores → List ℕ → (ℕ → Option ℕ) → Scores
write_ranks scores [] score = scores
write_ranks scores (rank ∷ ranks) score =
    write_ranks (write scores (rank - 1) (score rank)) ranks score

-- The first loop: the scores and `lastDead` after the ranks.
unfoldable pub walk_dead : List ℕ → List ℕ → Scores → ℕ → Scores × ℕ
walk_dead dead [] scores last_dead = (scores, last_dead)
walk_dead dead (rank ∷ ranks) scores last_dead =
    let below = write_ranks scores (e_range (last_dead + 1) rank) (λ r. some (rank - r)) in
    let hit = includes dead rank in
    walk_dead dead ranks (if hit then write below (rank - 1) (some 0) else scores)
      (if hit then rank else last_dead)

-- The score of a start above the last dead rank, with the wrap-around to 1.
abbrev wrapped : Scores → ℕ → ℕ → Option ℕ
wrapped scores stack_size rank = elim (scores 0) [
  | none ↦ none
  | some s ↦ some (min (s + (stack_size + 1 - rank)) stack_size)
]

unfoldable pub sudoku_walk_up_all : List ℕ → Variant → Bool × Scores
unfolding walk_dead
sudoku_walk_up_all dead variant =
    let n = variant.stack_size in
    let (scores, last_dead) =
      walk_dead dead variant.ranks (new_scores (length variant.suits) n) 0 in
    if last_dead == 0
    then (true, scores)
    else if last_dead == 5
    then (false, scores)
    else (false, write_ranks scores (i_range (last_dead + 1) n) (wrapped scores n))

-- Whether a card is played from this start.
unfoldable pub reaches : Scores → ℕ → Variant → ℕ → Result Bool
reaches scores rank variant start = do
  score ← assert_defined no_score (scores (start - 1))
  ok (ltb ((rank + variant.stack_size - start) % variant.stack_size) score)

abbrev possible_starts : Option ℕ → List (Option ℕ) → Variant → List ℕ
possible_starts none starts variant = get_unused_stack_start_ranks starts variant
possible_starts (some start) starts variant = start ∷ []

unfoldable pub sudoku_is_card_needed_for_max_score :
    ℕ → ℕ → List CardState → List (Option ℕ) → Variant → Result Bool
unfolding reaches
sudoku_is_card_needed_for_max_score suit_index rank deck play_stack_starts variant = do
  dead ← get_all_discarded_set_for_suit variant deck suit_index
  start ← assert_defined no_stack_start (get_elem? play_stack_starts suit_index)
  let scores = (sudoku_walk_up_all dead variant).1
  any_result (reaches scores rank variant) (possible_starts start play_stack_starts variant)

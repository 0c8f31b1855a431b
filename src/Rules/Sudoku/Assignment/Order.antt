-- ===== src/Rules/Sudoku/Assignment/Order.antt =====
-- `isAssignmentBetter` of rules/variants/sudoku.ts, whose comment asks for the lexicographically
-- smaller of two assignments with the same value.
use hanabi_live.Prelude.{
  ℕ, ◌≤◌, ◌≡◌, ◌≢◌, refl, true, List, [], ◌∷◌, arith, length, sum_array, ltb, Bool-cases, inl, inr,
  ap,
}
use hanabi_live.Result.{ok}
use hanabi_live.Rules.Sudoku.Assignment.{has_smaller_entry, is_assignment_better}

has_smaller_entry_of_le :
    (xs ys : List ℕ)
    → length xs ≡ length ys
    → sum_array xs ≤ sum_array ys
    → xs ≢ ys
    → has_smaller_entry xs ys ≡ ok true
unfolding has_smaller_entry
has_smaller_entry_of_le [] [] l h ne = absurd (ne refl)
has_smaller_entry_of_le [] (y ∷ ys) l h ne = absurd (omega arith)
has_smaller_entry_of_le (x ∷ xs) [] l h ne = absurd (omega arith)
has_smaller_entry_of_le (x ∷ xs) (y ∷ ys) l h ne = elim (Bool-cases (ltb x y)) [
  | inl less ↦ rw less
  | inr not_less ↦ rw not_less (
      has_smaller_entry_of_le xs ys (omega arith) (ground arith)
        (λ same. ne (ground (arith, same, ap sum_array same))))
]

-- Of two different assignments of the same length and the same value each counts as better than
-- the other.
pub is_assignment_better_both_ways :
    (xs ys : List ℕ)
    → length xs ≡ length ys
    → sum_array xs ≡ sum_array ys
    → xs ≢ ys
    → (is_assignment_better (sum_array xs) xs (sum_array ys) ys ≡ ok true)
      × (is_assignment_better (sum_array ys) ys (sum_array xs) xs ≡ ok true)
unfolding is_assignment_better
is_assignment_better_both_ways xs ys l e ne = (
  ground (arith, has_smaller_entry_of_le xs ys l (omega arith) ne),
  ground (arith, has_smaller_entry_of_le ys xs (omega arith) (omega arith) (λ same. ne (cc))),
)

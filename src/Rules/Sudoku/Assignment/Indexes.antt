-- ===== src/Rules/Sudoku/Assignment/Indexes.antt =====
-- The checked indexes of rules/variants/sudoku.ts: where the generator `eRange5` throws.
use hanabi_live.Prelude.{
  ℕ, zero, suc, ◌+◌, ◌<◌, ◌≤◌, ◌≡◌, Bool, true, Option, none, some, List, arith, Bool-cases, lt→ltb,
  inl, inr, length, ltb,
}
use hanabi_live.Result.{ok, throw, five_stack_index}
use hanabi_live.Rules.Sudoku.Assignment.{
  Search, is_taken, first_free, reset_higher, PartialScores, advance, solve, initial_search,
}

-- With as many rounds as there are starts from `cur` on, the loop over at most four starts ends with
-- an answer.
pub first_free_total :
    (assigned : List Bool) (end left cur : ℕ)
    → end ≤ cur + left
    → (o : Option ℕ) × (first_free assigned end cur left ≡ ok o)
unfolding first_free
first_free_total assigned end zero cur h = (none, ground arith)
first_free_total assigned end (suc left) cur h = elim (Bool-cases (ltb cur end)) [
  | inr past ↦ (none, rw past)
  | inl inside ↦ elim (Bool-cases (is_taken assigned cur)) [
    | inr free ↦ (some cur, rw (inside, free))
    | inl taken ↦
        let (o, e) = first_free_total assigned end left (cur + 1) (omega arith) in
        (o, rw (inside, taken) e)
  ]
]

-- If the starts from `cur`, which is at most 4, to 4 are taken, the loop over five starts throws,
-- since it asks for an index after 4.
pub first_free_throws :
    (assigned : List Bool) (left cur : ℕ)
    → cur + left ≡ 4
    → ((i : ℕ) → cur ≤ i → i ≤ 4 → is_taken assigned i ≡ true)
    → first_free assigned 5 cur left ≡ throw five_stack_index
unfolding first_free
first_free_throws assigned zero cur e taken = ground (arith, taken cur)
first_free_throws assigned (suc left) cur e taken = ground (
  arith,
  taken cur,
  first_free_throws assigned left (cur + 1) (omega arith) (λ i h k. taken i (omega arith) k),
)

-- Resetting the higher suits up to the fifth throws, wherever it starts.
pub reset_higher_throws :
    (left cur : ℕ) (s : Search)
    → cur + left ≡ 4
    → reset_higher 5 cur left s ≡ throw five_stack_index
unfolding reset_higher
reset_higher_throws zero cur s e = ground arith
reset_higher_throws (suc left) cur s e =
    rw (lt→ltb cur 5 (omega arith)) (reset_higher_throws left (cur + 1) _ (omega arith))

module _ (unassigned_suits starts : List ℕ) (partial : PartialScores) where
  -- With five unassigned suits no search step goes past the first suit.
  advance_throws :
      (s : Search)
      → length unassigned_suits ≡ 5
      → s.local_suit_index ≡ 0
      → advance unassigned_suits starts partial s ≡ throw five_stack_index
  unfolding advance
  advance_throws s e l = rw (e, l)

  -- With five unassigned suits and at least one start the search throws in its first round, if it
  -- has fuel for one.
  pub solve_throws :
      (fuel : ℕ)
      → length unassigned_suits ≡ 5
      → 0 < length starts
      → solve unassigned_suits starts partial (suc fuel) initial_search ≡ throw five_stack_index
  unfolding solve
  solve_throws fuel e h = rw (lt→ltb 0 (length starts) h) (rw e)

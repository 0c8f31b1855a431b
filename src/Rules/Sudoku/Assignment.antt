-- ===== src/Rules/Sudoku/Assignment.antt =====
-- rules/variants/sudoku.ts: the assignment of stack starts to suits, by backtracking. A
-- `FiveStackIndex` is a number whose increment is checked; `undefined` is `none`.
pub mod Indexes
pub mod Order
pub mod Measure
pub mod Progress
pub mod Rounds
pub mod Fuel
use hanabi_live.Prelude.{
  ℕ, zero, suc, ◌+◌, ◌-◌, Bool, true, false, ◌||◌, Option, none, some, List, [], ◌∷◌, option_eq,
  ◌==◌, ltb, get_elem?, set, length, replicate, if◌then◌else◌,
}
use hanabi_live.Result.{
  Result, ok, throw, assert_defined, five_stack_index, no_assigned_suit, no_start_at_index,
  no_partial_scores, no_score, no_assignment_entry, out_of_fuel, ◌>>=◌,
}
use hanabi_live.Rules.CluesUsable.{sort}

unfoldable pub increment_five_stack_index : ℕ → Result ℕ
increment_five_stack_index i = if ltb i 4 then ok (i + 1) else throw five_stack_index

unfoldable pub decrement_five_stack_index : ℕ → Result ℕ
decrement_five_stack_index i = if i == 0 then throw five_stack_index else ok (i - 1)

-- `maxPartialScores[suit][start - 1]`, where an unwritten entry is `none`.
abbrev pub PartialScores : Type 0
PartialScores = ℕ → Option (ℕ → Option ℕ)

-- The value of one suit's assigned start.
unfoldable pub value_of : ℕ → ℕ → List ℕ → List ℕ → PartialScores → Result ℕ
value_of local_suit_index start_index unassigned_suits starts partial = do
  suit ← assert_defined no_assigned_suit (get_elem? unassigned_suits local_suit_index)
  start ← assert_defined no_start_at_index (get_elem? starts start_index)
  scores ← assert_defined no_partial_scores (partial suit)
  assert_defined no_score (scores (start - 1))

-- The loop of `evaluateAssignment` from a local suit index on: the sum and the values.
unfoldable pub evaluate_from :
    ℕ → List (Option ℕ) → List ℕ → List ℕ → PartialScores → Result (ℕ × List ℕ)
unfolding value_of
evaluate_from i [] unassigned_suits starts partial = ok (0, [])
evaluate_from i (none ∷ rest) unassigned_suits starts partial =
    evaluate_from (i + 1) rest unassigned_suits starts partial
evaluate_from i (some start_index ∷ rest) unassigned_suits starts partial = do
  value ← value_of i start_index unassigned_suits starts partial
  later ← evaluate_from (i + 1) rest unassigned_suits starts partial
  ok (value + later.0, value ∷ later.1)

unfoldable pub evaluate_assignment :
    List (Option ℕ) → List ℕ → List ℕ → PartialScores → Result (ℕ × List ℕ)
unfolding evaluate_from
evaluate_assignment = evaluate_from 0

-- The loop of `isAssignmentBetter` over the two sorted assignments.
unfoldable pub has_smaller_entry : List ℕ → List ℕ → Result Bool
has_smaller_entry [] best = ok false
has_smaller_entry (value ∷ values) [] = throw no_assignment_entry
has_smaller_entry (value ∷ values) (best ∷ rest) =
    let later = has_smaller_entry values rest in if ltb value best then ok true else later

unfoldable pub is_assignment_better : ℕ → List ℕ → ℕ → List ℕ → Result Bool
unfolding has_smaller_entry
is_assignment_better value sorted best_sum best_sorted =
    if ltb best_sum value || length best_sorted == 0
    then ok true
    else if value == best_sum
    then has_smaller_entry sorted best_sorted
    else ok false

abbrev pub is_taken : List Bool → ℕ → Bool
is_taken assigned i = elim (get_elem? assigned i) [ none ↦ false | some b ↦ b ]

-- The loop over `eRange5(cur, end)`, `left` increments before 4: the generator increments `cur` when
-- it is asked to go on, and the increment of 4 throws.
unfoldable pub first_free : List Bool → ℕ → ℕ → ℕ → Result (Option ℕ)
first_free assigned end cur zero =
    if ltb cur end
    then (if is_taken assigned cur then throw five_stack_index else ok (some cur))
    else ok none
first_free assigned end cur (suc left) =
    let rest = first_free assigned end (cur + 1) left in
    if ltb cur end then (if is_taken assigned cur then rest else ok (some cur)) else ok none

abbrev pub first_to_try : Option ℕ → Result ℕ
first_to_try none = ok 0
first_to_try (some i) = increment_five_stack_index i

unfoldable pub find_next_assignment : Option ℕ → List ℕ → List Bool → Result (Option ℕ)
unfolding increment_five_stack_index first_free
find_next_assignment current starts assigned =
    if option_eq current (some 4)
    then ok none
    else do first ← first_to_try current; first_free assigned (length starts) first (4 - first)

pub record Search : Type 0 where
  pub cur_assignment : List (Option ℕ)
  pub assigned : List Bool
  pub local_suit_index : ℕ
  pub best_sum : ℕ
  pub best : List ℕ
  pub best_sorted : List ℕ

abbrev pub initial_search : Search
initial_search = record {
  cur_assignment = replicate 5 none;
  assigned = replicate 5 false;
  local_suit_index = 0;
  best_sum = 0;
  best = [];
  best_sorted = [];
}

-- `assigned[i] = false`, if `i` is defined
abbrev pub release : Option (Option ℕ) → List Bool → List Bool
release (some (some i)) assigned = set assigned i false
release _ assigned = assigned

-- The loop over the higher suits, with the increments of `eRange5`.
unfoldable pub reset_higher : ℕ → ℕ → ℕ → Search → Result Search
reset_higher end cur zero s = if ltb cur end then throw five_stack_index else ok s
reset_higher end cur (suc left) s =
    let s' = record s {
      cur_assignment = set s.cur_assignment cur none;
      assigned = release (get_elem? s.cur_assignment cur) s.assigned;
    } in
    let rest = reset_higher end (cur + 1) left s' in if ltb cur end then rest else ok s

module _ (unassigned_suits starts : List ℕ) (partial : PartialScores) where
  -- A full assignment is kept if it is better.
  unfoldable pub consider : Search → Result Search
  unfolding is_assignment_better evaluate_assignment
  consider s = do
    evaluated ← evaluate_assignment s.cur_assignment unassigned_suits starts partial
    let sorted = sort evaluated.1
    better ← is_assignment_better evaluated.0 sorted s.best_sum s.best_sorted
    ok (
        if better
        then record s { best_sum = evaluated.0; best = evaluated.1; best_sorted = sorted }
        else s)

  -- The two `if`s on the local suit index after an assignment was found. The first runs at the last
  -- suit, the second at all others.
  unfoldable pub advance : Search → Result Search
  unfolding consider reset_higher increment_five_stack_index
  advance s =
      if s.local_suit_index + 1 == length unassigned_suits
      then consider s
      else if ltb (s.local_suit_index + 1) (length unassigned_suits)
      then (do
        next ← increment_five_stack_index s.local_suit_index
        t ← reset_higher (length unassigned_suits) next (4 - next) s
        ok (record t { local_suit_index = next }))
      else ok s

  abbrev pub move : Option ℕ → Search → Result (Bool × Search)
  move (some next) s = do
    t ← advance (record s {
      cur_assignment = set s.cur_assignment s.local_suit_index (some next);
      assigned = set s.assigned next true;
    })
    ok (true, t)
  move none s =
      if ltb 0 s.local_suit_index
      then (do
        previous ← decrement_five_stack_index s.local_suit_index
        ok (true, record s { local_suit_index = previous }))
      else ok (false, s)

  -- One round of the `while` loop; `false` is its `break`.
  unfoldable pub round : Search → Result (Bool × Search)
  unfolding find_next_assignment advance decrement_five_stack_index
  round s = do
    let current = get_elem? s.cur_assignment s.local_suit_index
    let assigned = release current s.assigned
    next ← find_next_assignment (elim current [ none ↦ none | some c ↦ c ]) starts assigned
    move next (record s { assigned = assigned })

  -- The `while` loop on fuel.
  unfoldable pub solve : ℕ → Search → Result Search
  unfolding round
  solve zero s = throw out_of_fuel
  solve (suc fuel) s = do r ← round s; elim r.0 [ true ↦ solve fuel r.1 | false ↦ ok r.1 ]

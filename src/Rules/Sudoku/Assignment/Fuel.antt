-- ===== src/Rules/Sudoku/Assignment/Fuel.antt =====
-- The fuel of the `while` loop of rules/variants/sudoku.ts.
use hanabi_live.Prelude.{
  ℕ, zero, suc, ◌+◌, ◌-◌, ◌*◌, ◌≤◌, ◌<◌, ◌≡◌, refl, arith, Bool, true, false, Option, none, some,
  List, [], ◌∷◌, length, get_elem?, if◌then◌else◌,
}
use hanabi_live.Result.{
  Result, ok, throw, Failure, assert_defined, out_of_fuel, no_assigned_suit, no_start_at_index,
  no_partial_scores, no_score, ◌>>=◌,
}
use hanabi_live.Rules.CluesUsable.{sort}
use hanabi_live.Rules.Sudoku.MaxScore.{search_fuel}
use hanabi_live.Rules.Sudoku.Assignment.{
  Search, PartialScores, value_of, evaluate_from, evaluate_assignment, has_smaller_entry,
  is_assignment_better, first_to_try, first_free, find_next_assignment, increment_five_stack_index,
  decrement_five_stack_index, release, reset_higher, consider, advance, move, round, solve,
  initial_search,
}
use hanabi_live.Rules.Sudoku.Assignment.Measure.{pow7}
use hanabi_live.Rules.Sudoku.Assignment.Rounds.{IsSearch, rounds_left, round-rounds_left}

abbrev is_fuel : Failure → Bool
is_fuel out_of_fuel = true
is_fuel _ = false

-- The fuel of the model ran out.
abbrev pub is_spent {ℓ} : {A : Type ℓ} → Result A → Bool
is_spent (ok a) = false
is_spent (throw e) = is_fuel e

-- Code that does not run out of the fuel of the model, whatever else it does.
record NotSpent {ℓ} {A : Type ℓ} (r : Result A) : Type 0 where
  not_spent : is_spent r ≡ false

module _ {ℓ κ} {A : Type ℓ} {B : Type κ} where
  NotSpent->>= :
      (m : Result A) (f : A → Result B)
      → NotSpent m
      → ((a : A) → NotSpent (f a))
      → NotSpent (m >>= f)
  NotSpent->>= (ok a) f h k = k a
  NotSpent->>= (throw e) f h k = record { not_spent = h.not_spent }

  NotSpent->>=-eq :
      (m : Result A) (f : A → Result B)
      → NotSpent m
      → ((a : A) → m ≡ ok a → NotSpent (f a))
      → NotSpent (m >>= f)
  NotSpent->>=-eq (ok a) f h k = k a refl
  NotSpent->>=-eq (throw e) f h k = record { not_spent = h.not_spent }

module _ {ℓ} {A : Type ℓ} where
  NotSpent-defined :
      (e : Failure) (o : Option A) → is_fuel e ≡ false → NotSpent (assert_defined e o)
  NotSpent-defined e none h = record { not_spent = h }
  NotSpent-defined e (some a) h = record { not_spent = refl }

  NotSpent-ok : {a : A} → NotSpent (ok a)
  NotSpent-ok = record { not_spent = refl }

  NotSpent-if :
      (b : Bool) {x y : Result A} → NotSpent x → NotSpent y → NotSpent (if b then x else y)
  NotSpent-if true h k = h
  NotSpent-if false h k = k

  NotSpent-throw : {e : Failure} → is_fuel e ≡ false → NotSpent {A = A} (throw e)
  NotSpent-throw h = record { not_spent = h }

NotSpent-increment : (i : ℕ) → NotSpent (increment_five_stack_index i)
unfolding increment_five_stack_index
NotSpent-increment i = NotSpent-if _ NotSpent-ok (NotSpent-throw refl)

NotSpent-decrement : (i : ℕ) → NotSpent (decrement_five_stack_index i)
unfolding decrement_five_stack_index
NotSpent-decrement i = NotSpent-if _ (NotSpent-throw refl) NotSpent-ok

NotSpent-first_to_try : (current : Option ℕ) → NotSpent (first_to_try current)
NotSpent-first_to_try none = NotSpent-ok
NotSpent-first_to_try (some i) = NotSpent-increment i

NotSpent-first_free :
    (assigned : List Bool) (end left cur : ℕ) → NotSpent (first_free assigned end cur left)
unfolding first_free
NotSpent-first_free assigned end zero cur =
    NotSpent-if _ (NotSpent-if _ (NotSpent-throw refl) NotSpent-ok) NotSpent-ok
NotSpent-first_free assigned end (suc left) cur =
    NotSpent-if _ (NotSpent-if _ (NotSpent-first_free assigned end left (cur + 1)) NotSpent-ok)
      NotSpent-ok

NotSpent-find_next_assignment :
    (current : Option ℕ) (starts : List ℕ) (assigned : List Bool)
    → NotSpent (find_next_assignment current starts assigned)
unfolding find_next_assignment
NotSpent-find_next_assignment current starts assigned = NotSpent-if _ NotSpent-ok (
    NotSpent->>= _ _ (NotSpent-first_to_try current)
      (λ first. NotSpent-first_free assigned (length starts) (4 - first) first))

NotSpent-value_of :
    (i start_index : ℕ) (suits starts : List ℕ) (partial : PartialScores)
    → NotSpent (value_of i start_index suits starts partial)
unfolding value_of
NotSpent-value_of i start_index suits starts partial =
    NotSpent->>= (assert_defined no_assigned_suit (get_elem? suits i)) _ (NotSpent-defined _ _ refl)
      (λ suit.
        NotSpent->>= (assert_defined no_start_at_index (get_elem? starts start_index)) _
          (NotSpent-defined _ _ refl)
          (λ start.
            NotSpent->>= (assert_defined no_partial_scores (partial suit)) _
              (NotSpent-defined _ _ refl)
              (λ scores. NotSpent-defined no_score (scores (start - 1)) refl)))

NotSpent-evaluate_from :
    (assignment : List (Option ℕ)) (i : ℕ) (suits starts : List ℕ) (partial : PartialScores)
    → NotSpent (evaluate_from i assignment suits starts partial)
unfolding evaluate_from
NotSpent-evaluate_from [] i suits starts partial = NotSpent-ok
NotSpent-evaluate_from (none ∷ rest) i suits starts partial =
    NotSpent-evaluate_from rest (i + 1) suits starts partial
NotSpent-evaluate_from (some s ∷ rest) i suits starts partial =
    NotSpent->>= _ _ (NotSpent-value_of i s suits starts partial) (λ value.
      NotSpent->>= _ _ (NotSpent-evaluate_from rest (i + 1) suits starts partial)
        (λ later. NotSpent-ok))

NotSpent-has_smaller_entry : (values best : List ℕ) → NotSpent (has_smaller_entry values best)
unfolding has_smaller_entry
NotSpent-has_smaller_entry [] best = NotSpent-ok
NotSpent-has_smaller_entry (value ∷ values) [] = NotSpent-throw refl
NotSpent-has_smaller_entry (value ∷ values) (b ∷ best) =
    NotSpent-if _ NotSpent-ok (NotSpent-has_smaller_entry values best)

NotSpent-is_assignment_better :
    (value best_sum : ℕ) (sorted best : List ℕ)
    → NotSpent (is_assignment_better value sorted best_sum best)
unfolding is_assignment_better
NotSpent-is_assignment_better value best_sum sorted best =
    NotSpent-if _ NotSpent-ok (NotSpent-if _ (NotSpent-has_smaller_entry sorted best) NotSpent-ok)

NotSpent-reset_higher : (end left cur : ℕ) (s : Search) → NotSpent (reset_higher end cur left s)
unfolding reset_higher
NotSpent-reset_higher end zero cur s = NotSpent-if _ (NotSpent-throw refl) NotSpent-ok
NotSpent-reset_higher end (suc left) cur s =
    NotSpent-if _ (NotSpent-reset_higher end left (cur + 1) _) NotSpent-ok

pow7_bound : (k : ℕ) → k ≤ 4 → 6 * pow7 k < 14407
unfolding pow7
pow7_bound zero h = omega arith
pow7_bound (suc zero) h = omega arith
pow7_bound (suc (suc zero)) h = omega arith
pow7_bound (suc (suc (suc zero))) h = omega arith
pow7_bound (suc (suc (suc (suc zero)))) h = omega arith
pow7_bound (suc (suc (suc (suc (suc k))))) h = omega arith

module _ (unassigned_suits starts : List ℕ) (partial : PartialScores) where
  NotSpent-consider : (s : Search) → NotSpent (consider unassigned_suits starts partial s)
  unfolding consider evaluate_assignment
  NotSpent-consider s =
      NotSpent->>= _ _ (NotSpent-evaluate_from s.cur_assignment 0 unassigned_suits starts partial)
        (λ evaluated.
          NotSpent->>= _ _
            (NotSpent-is_assignment_better evaluated.0 s.best_sum (sort evaluated.1) s.best_sorted)
            (λ better. NotSpent-ok))

  NotSpent-advance : (s : Search) → NotSpent (advance unassigned_suits starts partial s)
  unfolding advance
  NotSpent-advance s = NotSpent-if _ (NotSpent-consider s) (
      NotSpent-if _
        (NotSpent->>= _ _ (NotSpent-increment s.local_suit_index) (λ next.
          NotSpent->>= _ _ (NotSpent-reset_higher (length unassigned_suits) (4 - next) next s)
            (λ t. NotSpent-ok)))
        NotSpent-ok)

  NotSpent-move :
      (next : Option ℕ) (s : Search) → NotSpent (move unassigned_suits starts partial next s)
  NotSpent-move (some next) s = NotSpent->>= _ _ (NotSpent-advance _) (λ t. NotSpent-ok)
  NotSpent-move none s =
      NotSpent-if _
        (NotSpent->>= _ _ (NotSpent-decrement s.local_suit_index) (λ previous. NotSpent-ok))
        NotSpent-ok

  NotSpent-round : (s : Search) → NotSpent (round unassigned_suits starts partial s)
  unfolding round
  NotSpent-round s =
      let current = get_elem? s.cur_assignment s.local_suit_index in
      let assigned = release current s.assigned in
      NotSpent->>=
        (find_next_assignment (elim current [ none ↦ none | some c ↦ c ]) starts assigned) _
        (NotSpent-find_next_assignment (elim current [ none ↦ none | some c ↦ c ]) starts assigned)
        (λ next. NotSpent-move next (record s { assigned = assigned }))

  -- The loop goes on or breaks; `later` is the rest of the loop.
  go_on :
      (s : Search) (fuel : ℕ) (goes_on : Bool) (t : Search)
      → length unassigned_suits ≤ 5
      → IsSearch unassigned_suits starts partial s
      → rounds_left unassigned_suits starts partial s < suc fuel
      → round unassigned_suits starts partial s ≡ ok (goes_on, t)
      → (IsSearch unassigned_suits starts partial t
          → rounds_left unassigned_suits starts partial t < fuel
          → NotSpent (solve unassigned_suits starts partial fuel t))
      → NotSpent
          (elim goes_on [ true ↦ solve unassigned_suits starts partial fuel t | false ↦ ok t ])
  go_on s fuel true t small valid h e later =
      let (valid', less) = round-rounds_left unassigned_suits starts partial s t small valid e in
      later valid' (omega (arith, less))
  go_on s fuel false t small valid h e later = NotSpent-ok

  solve-NotSpent :
      (fuel : ℕ) (s : Search)
      → length unassigned_suits ≤ 5
      → IsSearch unassigned_suits starts partial s
      → rounds_left unassigned_suits starts partial s < fuel
      → NotSpent (solve unassigned_suits starts partial fuel s)
  unfolding solve
  solve-NotSpent zero s small valid h = elim h [ ]
  solve-NotSpent (suc fuel) s small valid h =
      NotSpent->>=-eq (round unassigned_suits starts partial s) _ (NotSpent-round s)
        (λ r e. go_on s fuel r.0 r.1 small valid h e (solve-NotSpent fuel r.1 small))

  -- For one to five unassigned suits, the rounds that the model allows are enough: the search ends in
  -- an assignment or with an exception of the code, and never because its fuel is spent.
  pub solve_terminates :
      1 ≤ length unassigned_suits
      → length unassigned_suits ≤ 5
      → is_spent (solve unassigned_suits starts partial search_fuel initial_search) ≡ false
  solve_terminates h small =
      (solve-NotSpent search_fuel initial_search small
        (record { indexes = refl; five = refl; inside = h })
        (omega (arith, pow7_bound (length unassigned_suits - 1) (omega arith)))).not_spent

-- ===== src/Rules/Sudoku/Assignment/Rounds.antt =====
-- A round of the `while` loop of rules/variants/sudoku.ts, which takes from the rounds left.
use hanabi_live.Prelude.{
  ℕ, zero, suc, ◌+◌, ◌-◌, ◌*◌, ◌≤◌, ◌<◌, ◌≡◌, ◌∙◌, refl, sym, ap, arith, Bool, true, false, Option,
  none, some, List, [], ◌∷◌, Bool-cases, Option-cases, inl, inr, ltb, ◌==◌, get_elem?, set, length,
  all, length-set, ltb→lt,
}
use mathlib.Core.Path.{subst}
use hanabi_live.Result.{Result, ok, throw, >>=-eq-ok}
use hanabi_live.Rules.CluesUsable.{sort}
use hanabi_live.Rules.Sudoku.Assignment.{
  Search, PartialScores, find_next_assignment, increment_five_stack_index,
  decrement_five_stack_index, release, reset_higher, consider, advance, move, round,
  is_assignment_better, evaluate_assignment,
}
use hanabi_live.Rules.Sudoku.Assignment.Measure.{
  digit, is_index, pow7, pow7_pos, measure, measure-set, measure-none, measure-back, all-set,
}
use hanabi_live.Rules.Sudoku.Assignment.Progress.{
  find_next_assignment-bounds, reset_higher-Reset, reset_higher-none,
}

pow7-down : (k l : ℕ) → suc l ≤ k → 6 * pow7 (k - suc l) + 1 ≤ pow7 (k - l)
unfolding pow7
pow7-down k l h = omega (
  arith,
  ap pow7 (let step : k - l ≡ suc (k - suc l) = omega arith in step),
  pow7_pos (k - suc l),
)

missing : (xs : List (Option ℕ)) (i : ℕ) → get_elem? xs i ≡ none → ¬ (i < length xs)
missing [] i e h = omega arith
missing (x ∷ xs) zero e h = cc
missing (x ∷ xs) (suc i) e h = missing xs i e (omega arith)

module _ (unassigned_suits starts : List ℕ) (partial : PartialScores) where
  pub record IsSearch (s : Search) : Type 0 where
    pub indexes : all is_index s.cur_assignment ≡ true
    pub five : length s.cur_assignment ≡ 5
    pub inside : s.local_suit_index < length unassigned_suits

  abbrev pub rounds_left : Search → ℕ
  rounds_left s = measure (length unassigned_suits - 1) s.cur_assignment s.local_suit_index

  consider-same :
      (s t : Search)
      → consider unassigned_suits starts partial s ≡ ok t
      → (t.cur_assignment ≡ s.cur_assignment) × (t.local_suit_index ≡ s.local_suit_index)
  unfolding consider
  consider-same s t h =
      let (evaluated, _, h₁) =
        >>=-eq-ok (evaluate_assignment s.cur_assignment unassigned_suits starts partial) _ h in
      let (better, _, h₂) =
        >>=-eq-ok (is_assignment_better evaluated.0 (sort evaluated.1) s.best_sum s.best_sorted) _
          h₁ in
      elim (Bool-cases better) [
        | inl improves ↦ of-ok _ t (rw improves at h₂)
        | inr worse ↦ of-ok s t (rw worse at h₂)
      ]
    where
      of-ok :
          (x y : Search)
          → ok x ≡ ok y
          → (y.cur_assignment ≡ x.cur_assignment) × (y.local_suit_index ≡ x.local_suit_index)
      of-ok x y e =
          let same : y ≡ x = cc in
          (ap (λ (z : Search). z.cur_assignment) same, ap (λ (z : Search). z.local_suit_index) same)

  IsSearch-same :
      (s t : Search)
      → t.cur_assignment ≡ s.cur_assignment
      → t.local_suit_index ≡ s.local_suit_index
      → IsSearch s
      → IsSearch t
  IsSearch-same s t e e' valid = record {
    indexes = ap (all is_index) e ∙ valid.indexes;
    five = ap length e ∙ valid.five;
    inside = omega (arith, e', valid.inside);
  }

  -- The step to the next suit, after the higher ones are reset.
  stepped :
      (s t u : Search) (next : ℕ)
      → length unassigned_suits ≤ 5
      → IsSearch s
      → next ≡ suc s.local_suit_index
      → s.local_suit_index + 1 < length unassigned_suits
      → reset_higher (length unassigned_suits) next (4 - next) s ≡ ok u
      → ok (record u { local_suit_index = next }) ≡ ok t
      → IsSearch t
        × (rounds_left t + 1
            ≤ rounds_left s + pow7 (length unassigned_suits - 1 - s.local_suit_index))
  stepped s t u next small valid is_next room e h =
      let k = length unassigned_suits - 1 in
      let l = s.local_suit_index in
      let r =
        reset_higher-Reset (length unassigned_suits) (4 - next) next s u k l l (omega arith)
          (omega arith) e in
      let none_next =
        reset_higher-none (length unassigned_suits) (4 - next) next s u (omega arith)
          (omega (arith, valid.five)) e in
      let cur : t.cur_assignment ≡ u.cur_assignment =
        ap (λ (x : Search). x.cur_assignment) (same-ok h) in
      let local : t.local_suit_index ≡ suc l =
        ap (λ (x : Search). x.local_suit_index) (same-ok h) ∙ is_next in
      (
        record {
          indexes = ap (all is_index) cur ∙ r.indexes valid.indexes;
          five = ap length cur ∙ r.length_same ∙ valid.five;
          inside = omega (arith, local);
        },
        omega (
          arith,
          ap (λ (xs : List (Option ℕ)). measure k xs t.local_suit_index) cur,
          ap (measure k u.cur_assignment) local,
          measure-none k u.cur_assignment l
              (ap (get_elem? u.cur_assignment) (sym is_next) ∙ none_next),
          r.measured,
          pow7-down k l (omega arith),
        ),
      )
    where
      same-ok : {x y : Search} → ok x ≡ ok y → y ≡ x
      same-ok f = cc

  advance-rounds_left :
      (s t : Search)
      → length unassigned_suits ≤ 5
      → IsSearch s
      → advance unassigned_suits starts partial s ≡ ok t
      → IsSearch t
        × (rounds_left t + 1
            ≤ rounds_left s + pow7 (length unassigned_suits - 1 - s.local_suit_index))
  unfolding advance increment_five_stack_index
  advance-rounds_left s t small valid h =
      elim (Bool-cases (s.local_suit_index + 1 == length unassigned_suits)) [
        | inl at_end ↦
            let (e, e') = consider-same s t (rw at_end at h) in
            (
              IsSearch-same s t e e' valid,
              omega (
                arith,
                ap
                    (λ (xs : List (Option ℕ)).
                      measure (length unassigned_suits - 1) xs t.local_suit_index)
                    e,
                ap (measure (length unassigned_suits - 1) s.cur_assignment) e',
                pow7_pos (length unassigned_suits - 1 - s.local_suit_index),
              ),
            )
        | inr before ↦ elim (Bool-cases (ltb (s.local_suit_index + 1) (length unassigned_suits))) [
          | inr past ↦ ground (arith, valid.inside)
          | inl room ↦
              let (next, e, h₁) =
                >>=-eq-ok (increment_five_stack_index s.local_suit_index) _
                  (rw room at (rw before at h)) in
              let (u, e', h₂) =
                >>=-eq-ok (reset_higher (length unassigned_suits) next (4 - next) s) _ h₁ in
              let is_next : next ≡ suc s.local_suit_index = ground (arith, e) in
              stepped s t u next small valid is_next (ltb→lt _ _ room) e' h₂
        ]
      ]

  IsSearch-set :
      (s : Search) (next : ℕ) (assigned : List Bool)
      → IsSearch s
      → next ≤ 4
      → IsSearch (record s {
        cur_assignment = set s.cur_assignment s.local_suit_index (some next);
        assigned = assigned;
      })
  IsSearch-set s next assigned valid h = record {
    indexes = all-set s.cur_assignment s.local_suit_index (some next) valid.indexes (ground arith);
    five = length-set s.cur_assignment s.local_suit_index (some next) ∙ valid.five;
    inside = valid.inside;
  }

  is_index-get_elem? :
      (xs : List (Option ℕ)) (i : ℕ) (x : Option ℕ)
      → all is_index xs ≡ true
      → get_elem? xs i ≡ some x
      → is_index x ≡ true
  is_index-get_elem? [] i x h e = cc
  is_index-get_elem? (y ∷ xs) zero x h e =
      let same : y ≡ x = cc in ap is_index (sym same) ∙ ground arith
  is_index-get_elem? (y ∷ xs) (suc i) x h e = is_index-get_elem? xs i x (ground arith) e

  second : Search → Result (Bool × Search) → Search
  second s (ok (b, v)) = v
  second s (throw e) = s

  move-rounds_left :
      (s : Search) (assigned : List Bool) (x next : Option ℕ) (t : Search)
      → length unassigned_suits ≤ 5
      → IsSearch s
      → get_elem? s.cur_assignment s.local_suit_index ≡ some x
      → ((i : ℕ) → next ≡ some i → (digit x ≤ i) × (i ≤ 4))
      → move unassigned_suits starts partial next (record s { assigned = assigned }) ≡ ok (true, t)
      → IsSearch t × (rounds_left t + 1 ≤ rounds_left s)
  unfolding decrement_five_stack_index second
  move-rounds_left s assigned x (some i) t small valid e bounds h =
      let (u, e', h₁) = >>=-eq-ok (advance unassigned_suits starts partial _) _ h in
      let same : u ≡ t = ap (second s) h₁ in
      let (valid', less) =
        advance-rounds_left _ u small
          (IsSearch-set s i (set assigned i true) valid (bounds i refl).1) e' in
      subst (λ (v : Search). IsSearch v × (rounds_left v + 1 ≤ rounds_left s)) same
        (
          valid',
          omega (
            arith,
            less,
            measure-set (length unassigned_suits - 1) s.cur_assignment s.local_suit_index x (some i)
                e (omega (arith, (bounds i refl).0)) (omega (arith, (bounds i refl).1)),
          ),
        )
  move-rounds_left s assigned x none t small valid e bounds h =
      elim (Bool-cases (ltb 0 s.local_suit_index)) [
        | inr first ↦ let e' : ok (false, _) ≡ ok (true, t) = rw first at h in cc
        | inl later ↦
            let (previous, e', h₁) =
              >>=-eq-ok (decrement_five_stack_index s.local_suit_index) _ (rw later at h) in
            let is_previous : s.local_suit_index ≡ suc previous = ground (arith, e') in
            let same : record s { assigned = assigned; local_suit_index = previous } ≡ t =
              ap (second s) h₁ in
            subst (λ (v : Search). IsSearch v × (rounds_left v + 1 ≤ rounds_left s)) same
              (
                record {
                  indexes = valid.indexes;
                  five = valid.five;
                  inside = omega (arith, valid.inside);
                },
                omega (
                  arith,
                  ap (measure (length unassigned_suits - 1) s.cur_assignment) is_previous,
                  measure-back (length unassigned_suits - 1) s.cur_assignment previous valid.indexes
                      (omega (arith, valid.five, valid.inside)),
                ),
              )
      ]

  -- A round that goes on keeps the indexes in their ranges, and fewer rounds are left after it.
  pub round-rounds_left :
      (s t : Search)
      → length unassigned_suits ≤ 5
      → IsSearch s
      → round unassigned_suits starts partial s ≡ ok (true, t)
      → IsSearch t × (rounds_left t + 1 ≤ rounds_left s)
  unfolding round
  round-rounds_left s t small valid h =
      elim (Option-cases (get_elem? s.cur_assignment s.local_suit_index)) [
        | inl e ↦ absurd (
            missing s.cur_assignment s.local_suit_index e (omega (arith, valid.five, valid.inside)))
        | inr (x, e) ↦
            let (next, e', h₁) =
              >>=-eq-ok (find_next_assignment x starts (release (some x) s.assigned)) _
                (rw e at h) in
            move-rounds_left s (release (some x) s.assigned) x next t small valid e
              (λ i is_next.
                find_next_assignment-bounds x starts (release (some x) s.assigned) i
                  (is_index-get_elem? s.cur_assignment s.local_suit_index x valid.indexes e)
                  (e' ∙ ap ok is_next))
              h₁
      ]

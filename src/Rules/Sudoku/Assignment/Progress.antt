-- ===== src/Rules/Sudoku/Assignment/Progress.antt =====
-- One round of the search of rules/variants/sudoku.ts against the measure of the rounds left.
use hanabi_live.Prelude.{
  ℕ, zero, suc, ◌+◌, ◌-◌, ◌≤◌, ◌<◌, ◌≡◌, ◌∙◌, refl, arith, Bool, true, false, Option, none, some,
  List, Bool-cases, inl, inr, option_eq, ltb, get_elem?, set, length, all, length-set,
  get_elem?-set_self, lt→ltb,
}
use mathlib.Core.Path.{subst}
use hanabi_live.Result.{ok, throw, >>=-eq-ok}
use hanabi_live.Rules.Sudoku.Assignment.{
  Search, is_taken, first_free, first_to_try, find_next_assignment, increment_five_stack_index,
  release, reset_higher,
}
use hanabi_live.Rules.Sudoku.Assignment.Measure.{
  digit, is_index, measure, measure-set_after, all-set, get_elem?-set_other,
}

first_free-bounds :
    (assigned : List Bool) (end left cur : ℕ) (i : ℕ)
    → first_free assigned end cur left ≡ ok (some i)
    → (cur ≤ i) × (i ≤ cur + left)
unfolding first_free
first_free-bounds assigned end zero cur i h = ground arith
first_free-bounds assigned end (suc left) cur i h = elim (Bool-cases (ltb cur end)) [
  | inr past ↦ let e : ok none ≡ ok (some i) = rw past at h in cc
  | inl inside ↦ elim (Bool-cases (is_taken assigned cur)) [
    | inl taken ↦
        omega
          (arith, first_free-bounds assigned end left (cur + 1) i (rw taken at (rw inside at h)))
    | inr free ↦
        let e : ok (some cur) ≡ ok (some i) = rw free at (rw inside at h) in ground (arith, e)
  ]
]

first_to_try-digit :
    (current : Option ℕ) (first : ℕ)
    → is_index current ≡ true
    → option_eq current (some 4) ≡ false
    → first_to_try current ≡ ok first
    → (first ≡ digit current) × (first ≤ 4)
unfolding increment_five_stack_index
first_to_try-digit none first valid more h = ground arith
first_to_try-digit (some i) first valid more h = ground arith

-- The next start of a suit is a later one, and one of five.
pub find_next_assignment-bounds :
    (current : Option ℕ) (starts : List ℕ) (assigned : List Bool) (i : ℕ)
    → is_index current ≡ true
    → find_next_assignment current starts assigned ≡ ok (some i)
    → (digit current ≤ i) × (i ≤ 4)
unfolding find_next_assignment increment_five_stack_index
find_next_assignment-bounds current starts assigned i valid h =
    elim (Bool-cases (option_eq current (some 4))) [
      | inl full ↦ let e : ok none ≡ ok (some i) = rw full at h in cc
      | inr more ↦
          let (first, e, h') = >>=-eq-ok (first_to_try current) _ (rw more at h) in
          let (is_first, below) = first_to_try-digit current first valid more e in
          let bounds = first_free-bounds assigned (length starts) (4 - first) first i h' in
          omega (arith, is_first, below, bounds)
    ]

-- The search with one suit reset.
reset_one : ℕ → Search → Search
reset_one cur s = record s {
  cur_assignment = set s.cur_assignment cur none;
  assigned = release (get_elem? s.cur_assignment cur) s.assigned;
}

-- What holds from the start of a reset to its end: `last` and `j` are before all that is reset.
pub record Reset (k last j : ℕ) (s t : Search) : Type 0 where
  pub measured : measure k t.cur_assignment last ≡ measure k s.cur_assignment last
  pub indexes : all is_index s.cur_assignment ≡ true → all is_index t.cur_assignment ≡ true
  pub length_same : length t.cur_assignment ≡ length s.cur_assignment
  pub entry : get_elem? t.cur_assignment j ≡ get_elem? s.cur_assignment j

Reset-refl : (k last j : ℕ) (s : Search) → Reset k last j s s
Reset-refl k last j s = record {
  measured = refl;
  indexes = λ e. e;
  length_same = refl;
  entry = refl;
}

reset_one-Reset :
    (k last j cur : ℕ) (s t : Search)
    → last < cur
    → j < cur
    → Reset k last j (reset_one cur s) t
    → Reset k last j s t
unfolding reset_one
reset_one-Reset k last j cur s t before before' r = record {
  measured = r.measured ∙ measure-set_after k s.cur_assignment last cur none before;
  indexes = λ e. r.indexes (all-set s.cur_assignment cur none e refl);
  length_same = r.length_same ∙ length-set s.cur_assignment cur none;
  entry = r.entry ∙ get_elem?-set_other s.cur_assignment cur j none before';
}

ok-Reset : (k last j : ℕ) (s t : Search) → ok s ≡ ok t → Reset k last j s t
ok-Reset k last j s t e =
    let same : s ≡ t = cc in subst (λ (x : Search). Reset k last j s x) same (Reset-refl k last j s)

pub reset_higher-Reset :
    (end left cur : ℕ) (s t : Search) (k last j : ℕ)
    → last < cur
    → j < cur
    → reset_higher end cur left s ≡ ok t
    → Reset k last j s t
unfolding reset_higher reset_one
reset_higher-Reset end zero cur s t k last j before before' h = elim (Bool-cases (ltb cur end)) [
  | inl inside ↦ let e : throw _ ≡ ok t = rw inside at h in cc
  | inr past ↦ ok-Reset k last j s t (rw past at h)
]
reset_higher-Reset end (suc left) cur s t k last j before before' h =
    elim (Bool-cases (ltb cur end)) [
      | inl inside ↦ reset_one-Reset k last j cur s t before before' (
          reset_higher-Reset end left (cur + 1) (reset_one cur s) t k last j (omega arith)
            (omega arith) (rw inside at h))
      | inr past ↦ ok-Reset k last j s t (rw past at h)
    ]

-- The first suit that is reset has no start.
pub reset_higher-none :
    (end left cur : ℕ) (s t : Search)
    → cur < end
    → cur < length s.cur_assignment
    → reset_higher end cur left s ≡ ok t
    → get_elem? t.cur_assignment cur ≡ some none
unfolding reset_higher reset_one
reset_higher-none end zero cur s t before inside h =
    let e : throw _ ≡ ok t = rw (lt→ltb cur end before) at h in cc
reset_higher-none end (suc left) cur s t before inside h =
    (reset_higher-Reset end left (cur + 1) (reset_one cur s) t 0 cur cur (omega arith) (omega arith)
      (rw (lt→ltb cur end before) at h)).entry
    ∙ get_elem?-set_self s.cur_assignment cur none inside

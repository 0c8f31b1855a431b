-- ===== src/Rules/Sudoku/Assignment/Measure.antt =====
-- A measure of the rounds that the search of rules/variants/sudoku.ts has left: the entries up to
-- the current suit as the digits of a number, counted down.
use hanabi_live.Prelude.{
  ℕ, zero, suc, ◌+◌, ◌-◌, ◌*◌, ◌≤◌, ◌<◌, ◌≡◌, refl, ap, arith, Bool, true, Option, none, some, List,
  [], ◌∷◌, leb, get_elem?, set, length, all,
}

abbrev pub digit : Option ℕ → ℕ
digit none = 0
digit (some i) = suc i

abbrev pub is_index : Option ℕ → Bool
is_index none = true
is_index (some i) = leb i 4

unfoldable pub pow7 : ℕ → ℕ
pow7 zero = 1
pow7 (suc k) = 7 * pow7 k

pub pow7_pos : (k : ℕ) → 1 ≤ pow7 k
unfolding pow7
pow7_pos zero = omega arith
pow7_pos (suc k) = omega (arith, pow7_pos k)

-- The entries up to `last`, the first of them with the weight `7 ^ k`.
abbrev pub measure : ℕ → List (Option ℕ) → ℕ → ℕ
measure k [] last = 0
measure k (x ∷ xs) zero = (6 - digit x) * pow7 k
measure k (x ∷ xs) (suc last) = (6 - digit x) * pow7 k + measure (k - 1) xs last

pub digit_bound : (x : Option ℕ) → is_index x ≡ true → digit x ≤ 5
digit_bound none h = omega arith
digit_bound (some i) h = ground arith

product_below : (a b p : ℕ) → suc a ≤ b → a * p + p ≤ b * p
product_below a b p h = grind arith

-- A larger entry at the last place.
pub measure-set :
    (k : ℕ) (xs : List (Option ℕ)) (last : ℕ) (x y : Option ℕ)
    → get_elem? xs last ≡ some x
    → digit x < digit y
    → digit y ≤ 6
    → measure k (set xs last y) last + pow7 (k - last) ≤ measure k xs last
measure-set k [] last x y e h h' = cc
measure-set k (z ∷ xs) zero x y e h h' =
    let same : z ≡ x = cc in
    omega (
      arith,
      ap digit same,
      product_below (6 - digit y) (6 - digit z) (pow7 k) (omega (arith, ap digit same)),
      ap pow7 (let whole : k - 0 ≡ k = omega arith in whole),
    )
measure-set k (z ∷ xs) (suc last) x y e h h' = omega (
  arith,
  measure-set (k - 1) xs last x y e h h',
  ap pow7 (let same : k - 1 - last ≡ k - suc last = omega arith in same),
)

pub measure-none :
    (k : ℕ) (xs : List (Option ℕ)) (last : ℕ)
    → get_elem? xs (suc last) ≡ some none
    → measure k xs (suc last) ≡ measure k xs last + 6 * pow7 (k - suc last)
measure-none k [] last e = cc
measure-none k (x ∷ []) last e = cc
measure-none k (x ∷ z ∷ xs) zero e =
    let same : z ≡ none = cc in
    omega (arith, ap (λ (o : Option ℕ). (6 - digit o) * pow7 (k - 1)) same)
measure-none k (x ∷ z ∷ xs) (suc last) e = omega (
  arith,
  measure-none (k - 1) (z ∷ xs) last e,
  ap pow7 (let same : k - 1 - suc last ≡ k - suc (suc last) = omega arith in same),
)

pub measure-back :
    (k : ℕ) (xs : List (Option ℕ)) (last : ℕ)
    → all is_index xs ≡ true
    → suc last < length xs
    → measure k xs last + 1 ≤ measure k xs (suc last)
measure-back k [] last h lt = omega arith
measure-back k (x ∷ []) last h lt = omega arith
measure-back k (x ∷ z ∷ xs) zero h lt = omega (
  arith,
  digit_bound z (ground arith),
  product_below 0 (6 - digit z) (pow7 (k - 1)) (omega (arith, digit_bound z (ground arith))),
  pow7_pos (k - 1),
)
measure-back k (x ∷ z ∷ xs) (suc last) h lt =
    omega (arith, measure-back (k - 1) (z ∷ xs) last (ground arith) (omega arith))

-- Entries after the last one do not count.
pub measure-set_after :
    (k : ℕ) (xs : List (Option ℕ)) (last i : ℕ) (y : Option ℕ)
    → last < i
    → measure k (set xs i y) last ≡ measure k xs last
measure-set_after k [] last i y h = refl
measure-set_after k (x ∷ xs) last zero y h = omega arith
measure-set_after k (x ∷ xs) zero (suc i) y h = refl
measure-set_after k (x ∷ xs) (suc last) (suc i) y h =
    ap (λ (m : ℕ). (6 - digit x) * pow7 k + m) (measure-set_after (k - 1) xs last i y (omega arith))

pub all-set :
    (xs : List (Option ℕ)) (i : ℕ) (y : Option ℕ)
    → all is_index xs ≡ true
    → is_index y ≡ true
    → all is_index (set xs i y) ≡ true
all-set [] i y h e = refl
all-set (x ∷ xs) zero y h e = ground arith
all-set (x ∷ xs) (suc i) y h e = ground (arith, all-set xs i y (ground arith) e)

pub get_elem?-set_other :
    (xs : List (Option ℕ)) (i j : ℕ) (y : Option ℕ)
    → j < i
    → get_elem? (set xs i y) j ≡ get_elem? xs j
get_elem?-set_other [] i j y h = refl
get_elem?-set_other (x ∷ xs) zero j y h = elim h [ ]
get_elem?-set_other (x ∷ xs) (suc i) zero y h = refl
get_elem?-set_other (x ∷ xs) (suc i) (suc j) y h = get_elem?-set_other xs i j y (omega arith)

-- ===== src/Reducers/Deduction/Search/Order.antt =====
-- The order in which reducers/cardDeductionReducer.ts tries the possibilities of a card.
use native.Mathlib.Nat.{mod-lt, add-mod-mod, add-mod_right, mod-eq_of_lt}
use mathlib.Core.Path.{subst}
use hanabi_live.Prelude.{
  ℕ, zero, suc, ◌+◌, ◌-◌, ◌%◌, ◌<◌, ◌≤◌, ◌≡◌, ◌↔◌, refl, sym, ap, ◌∙◌, Option, none, some, List, [],
  ◌∷◌, get_elem?, length, keys, range_from, arith, ◌⊎◌, inl, inr, Bool-cases, ltb, ltb→lt,
}
use hanabi_live.Types.Card.{SuitRankTuple}
use hanabi_live.Reducers.Deduction.Search.{pick_all, rotated_indexes, rotate}
use hanabi_live.Reducers.Deduction.Search.Combination.{Among}

abbrev InRange : ℕ → List ℕ → Type 0
InRange i [] = ⊥
InRange i (j ∷ js) = (i ≡ j) ⊎ InRange i js

Among-get_elem? :
    (xs : List SuitRankTuple) (i : ℕ) (q : SuitRankTuple) → get_elem? xs i ≡ some q → Among q xs
Among-get_elem? [] i q e = cc
Among-get_elem? (x ∷ xs) zero q e = inl (cc)
Among-get_elem? (x ∷ xs) (suc i) q e = inr (Among-get_elem? xs i q e)

get_elem?-Among :
    (xs : List SuitRankTuple) (q : SuitRankTuple)
    → Among q xs
    → (i : ℕ) × (get_elem? xs i ≡ some q) × (i < length xs)
get_elem?-Among [] q h = elim h [ ]
get_elem?-Among (x ∷ xs) q (inl e) = (0, ap some (sym e), omega arith)
get_elem?-Among (x ∷ xs) q (inr h) =
    let (i, e, lt) = get_elem?-Among xs q h in (suc i, e, omega arith)

Among-pick_all :
    (xs : List SuitRankTuple) (is : List ℕ) (q : SuitRankTuple)
    → Among q (pick_all xs is)
    → Among q xs
Among-pick_all xs [] q h = elim h [ ]
Among-pick_all xs (i ∷ is) q h = go (λ k. Among-pick_all xs is q k) (get_elem? xs i) refl h
  where
    go :
        (Among q (pick_all xs is) → Among q xs)
        → (o : Option SuitRankTuple) → get_elem? xs i ≡ o
        → Among q (elim o as (λ _. List SuitRankTuple) [
          | none ↦ pick_all xs is
          | some x ↦ x ∷ pick_all xs is
        ])
        → Among q xs
    go later none e k = later k
    go later (some x) e (inl same) = Among-get_elem? xs i q (e ∙ ap some (sym same))
    go later (some x) e (inr k) = later k

pick_all-Among :
    (xs : List SuitRankTuple) (is : List ℕ) (i : ℕ) (q : SuitRankTuple)
    → InRange i is
    → get_elem? xs i ≡ some q
    → Among q (pick_all xs is)
pick_all-Among xs [] i q k h = elim k [ ]
pick_all-Among xs (j ∷ is) i q (inl e) h =
    subst
      (λ o. Among q (elim o as (λ _. List SuitRankTuple) [
        | none ↦ pick_all xs is
        | some x ↦ x ∷ pick_all xs is
      ]))
      (sym (ap (get_elem? xs) (sym e) ∙ h)) (inl refl)
pick_all-Among xs (j ∷ is) i q (inr k) h = go (pick_all-Among xs is i q k h) (get_elem? xs j)
  where
    go :
        Among q (pick_all xs is)
        → (o : Option SuitRankTuple)
        → Among q (elim o as (λ _. List SuitRankTuple) [
          | none ↦ pick_all xs is
          | some x ↦ x ∷ pick_all xs is
        ])
    go later none = later
    go later (some x) = inr later

rotated_indexes-InRange :
    (index n j : ℕ) (is : List ℕ)
    → InRange j is
    → InRange ((j + index) % n) (rotated_indexes index n is)
rotated_indexes-InRange index n j [] h = elim h [ ]
rotated_indexes-InRange index n j (i ∷ is) (inl e) = inl (ap (λ (k : ℕ). (k + index) % n) e)
rotated_indexes-InRange index n j (i ∷ is) (inr h) = inr (rotated_indexes-InRange index n j is h)

InRange-range_from : (a n i : ℕ) → a ≤ i → i < a + n → InRange i (range_from a n)
InRange-range_from a zero i h k = absurd (omega arith)
InRange-range_from a (suc n) i h k = elim (Bool-cases (ltb a i)) [
  | inl less ↦ inr (InRange-range_from (a + 1) n i (omega (arith, ltb→lt a i less)) (omega arith))
  | inr same ↦ inl (ground arith)
]

-- The position from which the loop comes to `k`.
position_before : (index n k : ℕ) → k < n → (j : ℕ) × (j < n) × ((j + index) % n ≡ k)
position_before index n k h = elim (Bool-cases (ltb k (index % n))) [
  | inl less ↦ (
    k + n - index % n,
    ground (arith, mod-lt index {m = n}),
    sym (add-mod-mod (k + n - index % n) index n)
        ∙ ap (λ (x : ℕ). x % n) (ground (arith, mod-lt index {m = n}))
        ∙ add-mod_right k n
        ∙ mod-eq_of_lt h,
  )
  | inr not_less ↦ (
    k - index % n,
    omega arith,
    sym (add-mod-mod (k - index % n) index n)
        ∙ ap (λ (x : ℕ). x % n) (ground arith)
        ∙ mod-eq_of_lt h,
  )
]

-- Wherever it starts, the loop tries exactly the possibilities of the card.
pub Among-rotate_iff :
    (index : ℕ) (xs : List SuitRankTuple) (q : SuitRankTuple)
    → Among q (rotate index xs) ↔ Among q xs
unfolding rotate
Among-rotate_iff index xs q = (
  Among-pick_all xs (rotated_indexes index (length xs) (keys xs)) q,
  λ h.
      let (k, e, lt) = get_elem?-Among xs q h in
      let (j, j_lt, comes) = position_before index (length xs) k lt in
      pick_all-Among xs (rotated_indexes index (length xs) (keys xs)) k q
        (subst (λ i. InRange i (rotated_indexes index (length xs) (keys xs))) comes
          (rotated_indexes-InRange index (length xs) j (keys xs)
            (InRange-range_from 0 (length xs) j (omega arith) (omega arith))))
        e,
)

-- ===== src/Reducers/Deduction/Search/Outcome.antt =====
-- What one call of `possibilityValid` of reducers/cardDeductionReducer.ts does.
use hanabi_live.Prelude.{
  ℕ, ◌+◌, ◌≡◌, refl, sym, ap, ◌∙◌, Bool, true, false, List, [], ◌∷◌, arith, inl, inr, Bool-cases,
  ==_iff,
}
use mathlib.Core.Path.{subst}
use hanabi_live.Prelude.Int.{pos, ◌≤ℤ◌, leb_ℤ, ltb_ℤ}
use hanabi_live.Types.Card.{SuitRankTuple}
use hanabi_live.Reducers.Deduction.Search.{
  Counts, SearchState, decrement, increment, left, has_possibility,
  update_possibilities_to_validate, rotate, first_valid, leaf_valid, put_back, possibility_valid,
}
use hanabi_live.Reducers.Deduction.Search.Combination.{
  Among, Within, CanBe, Spare, increment-decrement, Within-decrement, decrement-Within, Within-swap,
  decrement-NonNegative, Within-left,
}
use hanabi_live.Reducers.Deduction.Search.Order.{Among-rotate_iff}

-- What one call does: it decides `Good`, puts the counts back, and removes from the possibilities to
-- validate only those with a spare copy.
pub record Outcome (Good : Type 0) (HasSpare : SuitRankTuple → Type 0) (s : SearchState)
    (result : Bool × SearchState) : Type 0 where
  pub counts : result.1.counts ≡ s.counts
  pub found : result.0 ≡ true → Good
  pub not_found : result.0 ≡ false → ¬ Good
  pub dropped :
      (q : SuitRankTuple)
      → has_possibility s.to_validate q ≡ true
      → has_possibility result.1.to_validate q ≡ false
      → HasSpare q

update_possibilities_to_validate-left :
    (counts : Counts) (ps : List SuitRankTuple) (q : SuitRankTuple)
    → has_possibility ps q ≡ true
    → has_possibility (update_possibilities_to_validate counts ps) q ≡ false
    → leb_ℤ (left counts q) (pos 0) ≡ false
unfolding update_possibilities_to_validate
update_possibilities_to_validate-left counts [] q h k = absurd (cc)
update_possibilities_to_validate-left counts ((s, r) ∷ ps) (s', r') h k = ground (
  arith,
  update_possibilities_to_validate-left counts ps (s', r'),
  ==_iff s s',
  ==_iff r r',
  ap (λ i. counts i r'),
  ap (counts s),
)

Within-one :
    (counts : Counts) (p : SuitRankTuple)
    → Within counts []
    → pos 1 ≤ℤ left counts p
    → Within counts (p ∷ [])
Within-one counts (ps, pr) nonneg h i r =
    ground (arith, nonneg i r, ==_iff i ps, ==_iff r pr, ap (λ j. counts j r), ap (counts ps))

leaf_valid-Outcome :
    (p : SuitRankTuple) (s : SearchState)
    → Within s.counts []
    → Outcome (CanBe s.counts p []) (Spare s.counts p []) s (leaf_valid p s)
unfolding leaf_valid
leaf_valid-Outcome p s nonneg = elim (Bool-cases (ltb_ℤ (pos 0) (left s.counts p))) [
  | inl is_left ↦ rw is_left (record {
    counts = increment-decrement s.counts p;
    found = λ e. ([], tt, Within-one s.counts p nonneg (ground arith));
    not_found = λ e. absurd (cc);
    dropped = λ q h k.
        let positive =
          update_possibilities_to_validate-left (decrement s.counts p) s.to_validate q h k in
        let taken = decrement-NonNegative s.counts p nonneg (last_copy p is_left) in
        (
          [],
          tt,
          Within-swap s.counts p q [] (
              Within-decrement s.counts p (q ∷ [])
                (Within-one (decrement s.counts p) q taken (ground arith))),
        );
  })
  | inr none_left ↦ rw none_left (record {
    counts = refl;
    found = λ e. absurd (cc);
    not_found = λ e good.
        let (qs, _, within) = good in
        last_copy_false p none_left (Within-left s.counts p qs within);
    dropped = λ q h k. absurd (cc);
  })
]
  where
    last_copy :
        (p : SuitRankTuple)
        → ltb_ℤ (pos 0) (left s.counts p) ≡ true
        → leb_ℤ (pos 0) (left (decrement s.counts p) p) ≡ true
    last_copy (ps, pr) h = ground arith

    last_copy_false :
        (p : SuitRankTuple)
        → ltb_ℤ (pos 0) (left s.counts p) ≡ false
        → ¬ (leb_ℤ (pos 0) (left (decrement s.counts p) p) ≡ true)
    last_copy_false (ps, pr) h = ground arith

-- One of the possibilities of the next card fits.
abbrev OneOf : (SuitRankTuple → Type 0) → List SuitRankTuple → Type 0
OneOf Good tuples = (q : SuitRankTuple) × Among q tuples × Good q

module _ (Good : SuitRankTuple → Type 0) (HasSpare : SuitRankTuple → SuitRankTuple → Type 0)
    (valid : SuitRankTuple → SearchState → Bool × SearchState) (counts : Counts)
    (valid-Outcome : (q : SuitRankTuple) (t : SearchState)
      → t.counts ≡ counts
      → Outcome (Good q) (HasSpare q) t (valid q t)) where
  first_valid-Outcome :
      (tuples : List SuitRankTuple) (t : SearchState)
      → t.counts ≡ counts
      → Outcome
          (OneOf Good tuples)
          (λ x. OneOf (λ q. HasSpare q x) tuples)
          t
          (first_valid valid tuples t)
  unfolding first_valid
  first_valid-Outcome [] t same = record {
    counts = refl;
    found = λ e. absurd (cc);
    not_found = λ e good. good.1;
    dropped = λ q h k. absurd (cc);
  }
  first_valid-Outcome (p ∷ ps) t same =
      go (valid p t).0 refl
        (first_valid-Outcome ps (valid p t).1 ((valid-Outcome p t same).counts ∙ same))
    where
      one : Outcome (Good p) (HasSpare p) t (valid p t)
      one = valid-Outcome p t same

      go :
          (b : Bool)
          → (valid p t).0 ≡ b
          → Outcome
              (OneOf Good ps)
              (λ x. OneOf (λ q. HasSpare q x) ps)
              (valid p t).1
              (first_valid valid ps (valid p t).1)
          → Outcome
              (OneOf Good (p ∷ ps))
              (λ x. OneOf (λ q. HasSpare q x) (p ∷ ps))
              t
              (elim b as (λ _. Bool × SearchState) [
                | true ↦ (true, (valid p t).1)
                | false ↦ first_valid valid ps (valid p t).1
              ])
      go true e later = record {
        counts = one.counts;
        found = λ _. (p, inl refl, one.found e);
        not_found = λ k. absurd (cc);
        dropped = λ q h k. (p, inl refl, one.dropped q h k);
      }
      go false e later = record {
        counts = later.counts ∙ one.counts;
        found = λ k. let (q, among, good) = later.found k in (q, inr among, good);
        not_found = λ k good. refuted k good;
        dropped = λ q h k. elim (Bool-cases (has_possibility (valid p t).1.to_validate q)) [
          | inl kept ↦ let (x, among, spare) = later.dropped q kept k in (x, inr among, spare)
          | inr gone ↦ (p, inl refl, one.dropped q h gone)
        ];
      }
        where
          refuted : (first_valid valid ps (valid p t).1).0 ≡ false → ¬ OneOf Good (p ∷ ps)
          refuted k (q, inl same_q, good) = one.not_found e (subst Good same_q good)
          refuted k (q, inr among, good) = later.not_found k (q, among, good)

-- The call for one card, from what the calls for the next card do.
module _ (p : SuitRankTuple) (tuples : List SuitRankTuple) (rest : List (List SuitRankTuple))
    (index : ℕ) (s : SearchState) where
  abbrev taken : SearchState
  taken = record s { counts = decrement s.counts p }

  abbrev FirstOutcome : Bool × SearchState → Type 0
  FirstOutcome =
      Outcome (OneOf (λ q. CanBe taken.counts q rest) (rotate index tuples))
        (λ x. OneOf (λ q. Spare taken.counts q rest x) (rotate index tuples)) taken

  CanBe-cons :
      OneOf (λ q. CanBe taken.counts q rest) (rotate index tuples)
      → CanBe s.counts p (tuples ∷ rest)
  CanBe-cons (q, among, (qs, chosen, within)) = (
    q ∷ qs,
    ((Among-rotate_iff index tuples q).0 among, chosen),
    Within-decrement s.counts p (q ∷ qs) within,
  )

  CanBe-uncons :
      CanBe s.counts p (tuples ∷ rest)
      → OneOf (λ q. CanBe taken.counts q rest) (rotate index tuples)
  CanBe-uncons ([], chosen, within) = absurd chosen
  CanBe-uncons (q ∷ qs, (among, chosen), within) = (
    q,
    (Among-rotate_iff index tuples q).1 among,
    (qs, chosen, decrement-Within s.counts p (q ∷ qs) within),
  )

  Spare-cons :
      (x : SuitRankTuple)
      → OneOf (λ q. Spare taken.counts q rest x) (rotate index tuples)
      → Spare s.counts p (tuples ∷ rest) x
  Spare-cons x (q, among, (qs, chosen, within)) = (
    q ∷ qs,
    ((Among-rotate_iff index tuples q).0 among, chosen),
    Within-swap s.counts p x (q ∷ qs) (Within-decrement s.counts p (x ∷ q ∷ qs) within),
  )

  put_back-Outcome :
      (result : Bool × SearchState)
      → FirstOutcome result
      → Outcome
          (CanBe s.counts p (tuples ∷ rest))
          (Spare s.counts p (tuples ∷ rest))
          s
          (put_back p result)
  put_back-Outcome (b, t) o = record {
    counts = ap (λ (c : Counts). increment c p) o.counts ∙ increment-decrement s.counts p;
    found = λ e. CanBe-cons (o.found e);
    not_found = λ e good. o.not_found e (CanBe-uncons good);
    dropped = λ x h k. Spare-cons x (o.dropped x h k);
  }

pub possibility_valid-Outcome :
    (dp : List (List SuitRankTuple)) (p : SuitRankTuple) (index : ℕ) (s : SearchState)
    → Within s.counts []
    → Outcome (CanBe s.counts p dp) (Spare s.counts p dp) s (possibility_valid p dp index s)
unfolding possibility_valid
possibility_valid-Outcome [] p index s nonneg = leaf_valid-Outcome p s nonneg
possibility_valid-Outcome (tuples ∷ rest) p index s nonneg =
    elim (Bool-cases (leb_ℤ (pos 0) (left (decrement s.counts p) p))) [
      | inl is_left ↦ rw is_left (
          put_back-Outcome p tuples rest index s _ (
            first_valid-Outcome (λ q. CanBe (decrement s.counts p) q rest)
              (λ q x. Spare (decrement s.counts p) q rest x)
              (λ q t. possibility_valid q rest (index + 1) t) (decrement s.counts p)
              (λ q t same.
                subst
                  (λ (c : Counts).
                    Outcome (CanBe c q rest) (λ x. Spare c q rest x) t
                      (possibility_valid q rest (index + 1) t))
                  same
                  (possibility_valid-Outcome rest q (index + 1) t (
                    subst (λ (c : Counts). Within c []) (sym same)
                      (decrement-NonNegative s.counts p nonneg is_left))))
              (rotate index tuples) (record s { counts = decrement s.counts p }) refl))
      | inr none_left ↦ rw none_left (record {
        counts = increment-decrement s.counts p;
        found = λ e. absurd (cc);
        not_found = λ e good.
            let (qs, _, within) = good in
            absurd (ground (arith, none_left, Within-left s.counts p qs within));
        dropped = λ q h k. absurd (cc);
      })
    ]

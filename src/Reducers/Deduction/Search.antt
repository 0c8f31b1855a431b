-- ===== src/Reducers/Deduction/Search.antt =====
-- reducers/cardDeductionReducer.ts: the search for a combination of identities. The two arrays that
-- it mutates, the counts and the possibilities to validate, are passed along as one state.
pub mod Combination
pub mod Order
pub mod Outcome
pub mod Sound
use hanabi_live.Prelude.{
  ℕ, ◌+◌, ◌%◌, Bool, true, false, not, ◌&&◌, none, some, List, [], ◌∷◌, ◌==◌, get_elem?, length,
  any, filter, keys, if◌then◌else◌,
}
use hanabi_live.Prelude.Int.{ℤ, pos, ◌+ℤ◌, ◌-ℤ◌, leb_ℤ, ltb_ℤ}
use hanabi_live.Types.Card.{SuitRankTuple}

-- `cardCountMap[suitIndex][rank]`: how many copies are left. It is 0 outside of the variant.
abbrev pub Counts : Type 0
Counts = ℕ → ℕ → ℤ

abbrev pub same_identity : SuitRankTuple → SuitRankTuple → Bool
same_identity (s, r) (s', r') = s == s' && r == r'

-- `cardCountMap[suitIndex][rank]--`
abbrev pub decrement : Counts → SuitRankTuple → Counts
decrement counts (s, r) s' r' = if s' == s && r' == r then counts s' r' -ℤ pos 1 else counts s' r'

-- `cardCountMap[suitIndex][rank]++`
abbrev pub increment : Counts → SuitRankTuple → Counts
increment counts (s, r) s' r' = if s' == s && r' == r then counts s' r' +ℤ pos 1 else counts s' r'

abbrev pub left : Counts → SuitRankTuple → ℤ
left counts (s, r) = counts s r

pub record SearchState : Type 0 where
  pub counts : Counts
  pub to_validate : List SuitRankTuple

abbrev pub has_possibility : List SuitRankTuple → SuitRankTuple → Bool
has_possibility to_validate p = any (λ q. same_identity q p) to_validate

-- What has a copy left no longer needs validation.
unfoldable pub update_possibilities_to_validate : Counts → List SuitRankTuple → List SuitRankTuple
update_possibilities_to_validate counts = filter (λ p. leb_ℤ (left counts p) (pos 0))

-- The elements from `index` on, round the end: the order in which the loop tries them.
abbrev pub pick_all {ℓ} : {A : Type ℓ} → List A → List ℕ → List A
pick_all xs [] = []
pick_all xs (i ∷ is) = elim (get_elem? xs i) [ none ↦ pick_all xs is | some x ↦ x ∷ pick_all xs is ]

abbrev pub rotated_indexes : ℕ → ℕ → List ℕ → List ℕ
rotated_indexes index n [] = []
rotated_indexes index n (i ∷ is) = ((i + index) % n) ∷ rotated_indexes index n is

unfoldable pub rotate : ℕ → List SuitRankTuple → List SuitRankTuple
rotate index tuples = pick_all tuples (rotated_indexes index (length tuples) (keys tuples))

-- The loop over the possibilities of one card: stop at the first that is valid.
unfoldable pub first_valid :
    (SuitRankTuple → SearchState → Bool × SearchState)
    → List SuitRankTuple
    → SearchState
    → Bool × SearchState
first_valid valid [] s = (false, s)
first_valid valid (p ∷ ps) s =
    let (found, s') = valid p s in
    elim found [ true ↦ (true, s') | false ↦ first_valid valid ps s' ]

-- No card is left to choose for: the last copy must be there.
unfoldable pub leaf_valid : SuitRankTuple → SearchState → Bool × SearchState
unfolding update_possibilities_to_validate
leaf_valid p s =
    let counts = decrement s.counts p in
    let validated = record s {
      counts = increment counts p;
      to_validate = update_possibilities_to_validate counts s.to_validate;
    } in
    if ltb_ℤ (pos 0) (left s.counts p) then (true, validated) else (false, s)

-- Undo the decrement on the way out.
abbrev pub put_back : SuitRankTuple → Bool × SearchState → Bool × SearchState
put_back p (found, s) = (found, record s { counts = increment s.counts p })

unfoldable pub possibility_valid :
    SuitRankTuple → List (List SuitRankTuple) → ℕ → SearchState → Bool × SearchState
unfolding leaf_valid first_valid rotate
possibility_valid p [] index s = leaf_valid p s
possibility_valid p (tuples ∷ rest) index s =
    let taken = record s { counts = decrement s.counts p } in
    put_back p (elim (leb_ℤ (pos 0) (left taken.counts p)) [
      | true ↦
          first_valid (λ q t. possibility_valid q rest (index + 1) t) (rotate index tuples) taken
      | false ↦ (false, taken)
    ])

-- The callback of the filter: a possibility that is no longer to validate is valid.
unfoldable pub check_possibility :
    List (List SuitRankTuple) → SuitRankTuple → SearchState → Bool × SearchState
unfolding possibility_valid
check_possibility deck_possibilities p s =
    if not (has_possibility s.to_validate p)
    then (true, s)
    else possibility_valid p deck_possibilities 0 s

unfoldable pub filter_from :
    List (List SuitRankTuple) → List SuitRankTuple → SearchState → List SuitRankTuple
unfolding check_possibility
filter_from deck_possibilities [] s = []
filter_from deck_possibilities (p ∷ ps) s =
    let (valid, s') = check_possibility deck_possibilities p s in
    let rest = filter_from deck_possibilities ps s' in if valid then p ∷ rest else rest

unfoldable pub filter_card_possibilities :
    List SuitRankTuple → List (List SuitRankTuple) → Counts → List SuitRankTuple
unfolding filter_from
filter_card_possibilities card_possibilities deck_possibilities counts =
    filter_from deck_possibilities card_possibilities
      (record { counts = counts; to_validate = card_possibilities })

-- ===== src/Reducers/Deduction/Search/Combination.antt =====
-- What the search of reducers/cardDeductionReducer.ts looks for: an identity for every card, no more
-- copies of an identity than are left.
use hanabi_live.Prelude.{
  ℕ, suc, ◌≡◌, ap, fun_ext, true, ◌&&◌, List, [], ◌∷◌, ◌==◌, if◌then◌else◌, arith, ◌⊎◌, ==_iff,
}
use hanabi_live.Prelude.Int.{pos, ◌≤ℤ◌, leb_ℤ}
use hanabi_live.Types.Card.{SuitRankTuple}
use hanabi_live.Reducers.Deduction.Search.{Counts, decrement, increment, left}

abbrev pub Among : SuitRankTuple → List SuitRankTuple → Type 0
Among p [] = ⊥
Among p (q ∷ qs) = (p ≡ q) ⊎ Among p qs

-- How many of the cards have this identity.
abbrev pub copies : ℕ → ℕ → List SuitRankTuple → ℕ
copies s r [] = 0
copies s r ((s', r') ∷ ps) =
    let rest = copies s r ps in if s == s' && r == r' then suc rest else rest

abbrev pub Within : Counts → List SuitRankTuple → Type 0
Within counts ps = (s r : ℕ) → pos (copies s r ps) ≤ℤ counts s r

-- One identity for each card, of those that are possible for it.
abbrev pub Chosen : List SuitRankTuple → List (List SuitRankTuple) → Type 0
Chosen [] [] = Unit
Chosen [] (tuples ∷ rest) = ⊥
Chosen (q ∷ qs) [] = ⊥
Chosen (q ∷ qs) (tuples ∷ rest) = Among q tuples × Chosen qs rest

-- The card can be `p`: the other cards can be chosen so that all the copies exist.
abbrev pub CanBe : Counts → SuitRankTuple → List (List SuitRankTuple) → Type 0
CanBe counts p deck_possibilities =
    (qs : List SuitRankTuple) × Chosen qs deck_possibilities × Within counts (p ∷ qs)

-- The same with a copy of `q` left over.
abbrev pub Spare : Counts → SuitRankTuple → List (List SuitRankTuple) → SuitRankTuple → Type 0
Spare counts p deck_possibilities q =
    (qs : List SuitRankTuple) × Chosen qs deck_possibilities × Within counts (q ∷ p ∷ qs)

pub Spare-CanBe :
    (counts : Counts) (p q : SuitRankTuple) (dp : List (List SuitRankTuple))
    → Spare counts p dp q
    → CanBe counts q dp
Spare-CanBe counts (ps, pr) (qs, qr) dp (others, chosen, within) =
    (others, chosen, λ s r. ground (arith, within s r))

pub increment-decrement :
    (counts : Counts) (p : SuitRankTuple) → increment (decrement counts p) p ≡ counts
increment-decrement counts (ps, pr) = fun_ext (λ s. fun_ext (λ r. back s r))
  where
    back : (s r : ℕ) → increment (decrement counts (ps, pr)) (ps, pr) s r ≡ counts s r
    back s r = ground arith

pub Within-decrement :
    (counts : Counts) (p : SuitRankTuple) (qs : List SuitRankTuple)
    → Within (decrement counts p) qs
    → Within counts (p ∷ qs)
Within-decrement counts (ps, pr) qs h s r = ground (arith, h s r)

pub decrement-Within :
    (counts : Counts) (p : SuitRankTuple) (qs : List SuitRankTuple)
    → Within counts (p ∷ qs)
    → Within (decrement counts p) qs
decrement-Within counts (ps, pr) qs h s r = ground (arith, h s r)

pub Within-swap :
    (counts : Counts) (p q : SuitRankTuple) (qs : List SuitRankTuple)
    → Within counts (p ∷ q ∷ qs)
    → Within counts (q ∷ p ∷ qs)
Within-swap counts (ps, pr) (qs, qr) others h s r = ground (arith, h s r)

-- Taking a card that is left keeps every count at 0 or more.
pub decrement-NonNegative :
    (counts : Counts) (p : SuitRankTuple)
    → Within counts []
    → leb_ℤ (pos 0) (left (decrement counts p) p) ≡ true
    → Within (decrement counts p) []
decrement-NonNegative counts (ps, pr) h e s r =
    ground (arith, h s r, ==_iff s ps, ==_iff r pr, ap (λ i. counts i r), ap (counts ps))

-- A card of which no copy is left cannot be.
pub Within-left :
    (counts : Counts) (p : SuitRankTuple) (qs : List SuitRankTuple)
    → Within counts (p ∷ qs)
    → leb_ℤ (pos 0) (left (decrement counts p) p) ≡ true
Within-left counts (ps, pr) qs h = ground (arith, h ps pr)

-- ===== src/Rules/Hand/Chop.antt =====
-- The chop of rules/hand.ts.
use hanabi_live.Prelude.{
  ℕ, zero, suc, ◌≡◌, true, false, Option, none, some, List, [], ◌∷◌, Bool-cases, ◌⊎◌, inl, inr,
}
use mathlib.Core.Path.{subst}
use hanabi_live.Types.Card.{CardState}
use hanabi_live.Rules.Hand.{is_unclued_at, find_unclued, get_chop_index, last_index}

-- What `find_unclued` has found: the card at this index is unclued, and none before it is.
abbrev pub IsFirstUnclued : List ℕ → List CardState → ℕ → Type 0
IsFirstUnclued [] deck i = ⊥
IsFirstUnclued (order ∷ rest) deck zero = is_unclued_at deck order ≡ true
IsFirstUnclued (order ∷ rest) deck (suc i) =
    (is_unclued_at deck order ≡ false) × IsFirstUnclued rest deck i

abbrev pub AllClued : List ℕ → List CardState → Type 0
AllClued [] deck = Unit
AllClued (order ∷ rest) deck = (is_unclued_at deck order ≡ false) × AllClued rest deck

abbrev Found : List ℕ → List CardState → Option ℕ → Type 0
Found hand deck none = AllClued hand deck
Found hand deck (some i) = IsFirstUnclued hand deck i

abbrev later : Option ℕ → Option ℕ
later o = elim o [ none ↦ none | some i ↦ some (suc i) ]

Found-later :
    (order : ℕ) (rest : List ℕ) (deck : List CardState) (o : Option ℕ)
    → is_unclued_at deck order ≡ false
    → Found rest deck o
    → Found (order ∷ rest) deck (later o)
Found-later order rest deck none e h = (e, h)
Found-later order rest deck (some i) e h = (e, h)

find_unclued-Found :
    (hand : List ℕ) (deck : List CardState) → Found hand deck (find_unclued hand deck)
unfolding find_unclued
find_unclued-Found [] deck = tt
find_unclued-Found (order ∷ rest) deck = elim (Bool-cases (is_unclued_at deck order)) [
  | inl unclued ↦ rw unclued unclued
  | inr clued ↦ rw clued (Found-later order rest deck _ clued (find_unclued-Found rest deck))
]

-- If there is a chop, it is the first unclued card of the hand, or, if every card has a clue, the
-- last card.
pub get_chop_index_lem :
    (hand : List ℕ) (deck : List CardState) (i : ℕ)
    → get_chop_index hand deck ≡ some i
    → IsFirstUnclued hand deck i ⊎ AllClued hand deck × (last_index hand ≡ some i)
unfolding get_chop_index
get_chop_index_lem hand deck i h = go (find_unclued hand deck) (find_unclued-Found hand deck) h
  where
    go :
        (o : Option ℕ)
        → Found hand deck o
        → elim o as (λ _. Option ℕ) [ none ↦ last_index hand | some j ↦ some j ] ≡ some i
        → IsFirstUnclued hand deck i ⊎ AllClued hand deck × (last_index hand ≡ some i)
    go none f e = inr (f, e)
    go (some j) f e = inl (let q : j ≡ i = cc in subst (λ k. IsFirstUnclued hand deck k) q f)

-- ===== src/Rules/CardsGotten/Bounds.antt =====
-- How many cards rules/stats.ts can count as gotten.
use hanabi_live.Prelude.{ℕ, ◌≤◌, ◌≡◌, Bool, List, [], ◌∷◌, length, arith}
use hanabi_live.Result.{ok, >>=-eq-ok}
use hanabi_live.Types.Variant.{Variant}
use hanabi_live.Types.Card.{CardState}
use hanabi_live.Rules.Card.{Stacks}
use hanabi_live.Rules.CardsGotten.{is_gotten, count_gotten, get_cards_gotten}

module _ (deck : List CardState) (stacks : Stacks) (playing shadowing : Bool)
    (variant : Variant) where
  count_gotten-le-length :
      (cards : List CardState) (n : ℕ)
      → count_gotten cards deck stacks playing shadowing variant ≡ ok n
      → n ≤ length cards
  unfolding count_gotten
  count_gotten-le-length [] n h = ground arith
  count_gotten-le-length (card ∷ rest) n h =
      let (gotten, e₁, h₁) = >>=-eq-ok (is_gotten card deck stacks playing shadowing variant) _ h in
      let (m, e₂, h₂) = >>=-eq-ok (count_gotten rest deck stacks playing shadowing variant) _ h₁ in
      ground (arith, count_gotten-le-length rest m e₂)

  -- If the count of the cards gotten returns, it is at most the maximum score, and at most the
  -- number of cards seen.
  pub get_cards_gotten-bounds :
      (max_score n : ℕ)
      → get_cards_gotten deck stacks playing shadowing max_score variant ≡ ok n
      → (n ≤ max_score) × (n ≤ length deck)
  unfolding get_cards_gotten
  get_cards_gotten-bounds max_score n h =
      let (m, e, h₁) = >>=-eq-ok (count_gotten deck deck stacks playing shadowing variant) _ h in
      let bound = count_gotten-le-length deck m e in (ground arith, ground arith)

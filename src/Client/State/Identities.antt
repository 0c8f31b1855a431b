-- ===== src/Client/State/Identities.antt =====
-- stateReducer.ts: the identities of the cards and the actions that they fill in
use hanabi_live.Prelude.{
  ℕ, zero, suc, ◌≡◌, ◌∙◌, ◌⊎◌, ap, refl, sym, inl, inr, true, false, ◌||◌, Option, none, some, List,
  [], ◌∷◌, is_none, get_elem?, Bool-cases,
}
use mathlib.Core.Path.{subst}
use hanabi_live.Result.{ok, >>=-eq-ok, map_result, assert_defined, no_card_identity}
use hanabi_live.Types.Card.{CardIdentity, CardState}
use hanabi_live.Types.Action.{GameAction, discard, draw, play}
use hanabi_live.Client.State.Actions.{
  update_card_identities, rehydrate, known_or, rehydrate_scrubbed_actions, identity_at,
}

-- What is known of a card stays as it is.
abbrev pub Keeps : Option ℕ → Option ℕ → Type 0
Keeps none after = Unit
Keeps (some a) after = after ≡ some a

abbrev pub KeepsIdentity : CardIdentity → Option CardIdentity → Type 0
KeepsIdentity identity none = ⊥
KeepsIdentity identity (some after) =
    Keeps identity.suit_index after.suit_index × Keeps identity.rank after.rank

Keeps-self : (o : Option ℕ) → Keeps o o
Keeps-self none = tt
Keeps-self (some a) = refl

known_or-Keeps : (o other : Option ℕ) → Keeps o (known_or o other)
known_or-Keeps none other = tt
known_or-Keeps (some a) other = refl

-- Whatever the cards of the deck: no known identity is lost or changed.
pub update_card_identities-KeepsIdentity :
    (deck : List CardState) (identities : List CardIdentity) (i : ℕ) (identity : CardIdentity)
    → get_elem? identities i ≡ some identity
    → KeepsIdentity identity (get_elem? (update_card_identities deck identities) i)
unfolding update_card_identities
update_card_identities-KeepsIdentity [] identities i identity h =
    subst (KeepsIdentity identity) (sym h)
      (Keeps-self identity.suit_index, Keeps-self identity.rank)
update_card_identities-KeepsIdentity (card ∷ deck) [] i identity h = cc
update_card_identities-KeepsIdentity (card ∷ deck) (x ∷ identities) zero identity h =
    let same : x ≡ identity = cc in
    subst
      (λ (y : CardIdentity).
        KeepsIdentity y (get_elem? (update_card_identities (card ∷ deck) (x ∷ identities)) 0))
      same (known_or-Keeps x.suit_index card.suit_index, known_or-Keeps x.rank card.rank)
update_card_identities-KeepsIdentity (card ∷ deck) (x ∷ identities) (suc i) identity h =
    update_card_identities-KeepsIdentity deck identities i identity h

-- The identity that the server sent for a card, as a suit and a rank.
abbrev pub IsSent : List CardIdentity → ℕ → ℕ → ℕ → Type 0
IsSent identities order suit_index rank =
    get_elem? identities order ≡ some (record { suit_index = some suit_index; rank = some rank })

-- An action is as it was if it names the suit and the rank of its card; else these two, and nothing
-- else, are those that the server sent for its card. Actions of other kinds are as they were.
abbrev pub IsFilledIn : List CardIdentity → GameAction → GameAction → Type 0
IsFilledIn identities (play a) filled =
    (((is_none a.suit_index || is_none a.rank) ≡ false) × (filled ≡ play a))
    ⊎ ((suit_index : ℕ) × (rank : ℕ) × ((is_none a.suit_index || is_none a.rank) ≡ true)
        × IsSent identities a.order suit_index rank
        × (filled ≡ play (record a { suit_index = some suit_index; rank = some rank })))
IsFilledIn identities (discard a) filled =
    (((is_none a.suit_index || is_none a.rank) ≡ false) × (filled ≡ discard a))
    ⊎ ((suit_index : ℕ) × (rank : ℕ) × ((is_none a.suit_index || is_none a.rank) ≡ true)
        × IsSent identities a.order suit_index rank
        × (filled ≡ discard (record a { suit_index = some suit_index; rank = some rank })))
IsFilledIn identities (draw a) filled =
    (((is_none a.suit_index || is_none a.rank) ≡ false) × (filled ≡ draw a))
    ⊎ ((suit_index : ℕ) × (rank : ℕ) × ((is_none a.suit_index || is_none a.rank) ≡ true)
        × IsSent identities a.order suit_index rank
        × (filled ≡ draw (record a { suit_index = some suit_index; rank = some rank })))
IsFilledIn identities action filled = filled ≡ action

ok-eq : {x y : GameAction} → ok x ≡ ok y → y ≡ x
ok-eq h = cc

defined {ℓ} :
    {A : Type ℓ} (o : Option A) {x : A} → assert_defined no_card_identity o ≡ ok x → o ≡ some x
defined none h = cc
defined (some y) h = cc

identity_at-IsSent :
    (identities : List CardIdentity) (order : ℕ) (found : ℕ × ℕ)
    → identity_at identities order ≡ ok found
    → IsSent identities order found.0 found.1
identity_at-IsSent identities order found h =
    let (identity, e, h₁) =
      >>=-eq-ok (assert_defined no_card_identity (get_elem? identities order)) _ h in
    let (suit_index, e₁, h₂) =
      >>=-eq-ok (assert_defined no_card_identity identity.suit_index) _ h₁ in
    let (rank, e₂, h₃) = >>=-eq-ok (assert_defined no_card_identity identity.rank) _ h₂ in
    let same : (suit_index, rank) ≡ found = cc in
    defined (get_elem? identities order) e
    ∙ ap some (
        ap (λ (o : Option ℕ). of o identity.rank)
          (defined identity.suit_index e₁ ∙ ap (λ (p : ℕ × ℕ). some p.0) same)
        ∙ ap (of (some found.0)) (defined identity.rank e₂ ∙ ap (λ (p : ℕ × ℕ). some p.1) same))
  where
    of : Option ℕ → Option ℕ → CardIdentity
    of suit_index rank = record { suit_index = suit_index; rank = rank }

rehydrate-IsFilledIn :
    (identities : List CardIdentity) (action filled : GameAction)
    → rehydrate identities action ≡ ok filled
    → IsFilledIn identities action filled
rehydrate-IsFilledIn identities (play a) filled h =
    elim (Bool-cases (is_none a.suit_index || is_none a.rank)) [
      | inl unknown ↦
          let (found, e, h₁) = >>=-eq-ok (identity_at identities a.order) _ (rw unknown at h) in
          inr (found.0, found.1, unknown, identity_at-IsSent identities a.order found e, ok-eq h₁)
      | inr known ↦ inl (known, ok-eq (rw known at h))
    ]
rehydrate-IsFilledIn identities (discard a) filled h =
    elim (Bool-cases (is_none a.suit_index || is_none a.rank)) [
      | inl unknown ↦
          let (found, e, h₁) = >>=-eq-ok (identity_at identities a.order) _ (rw unknown at h) in
          inr (found.0, found.1, unknown, identity_at-IsSent identities a.order found e, ok-eq h₁)
      | inr known ↦ inl (known, ok-eq (rw known at h))
    ]
rehydrate-IsFilledIn identities (draw a) filled h =
    elim (Bool-cases (is_none a.suit_index || is_none a.rank)) [
      | inl unknown ↦
          let (found, e, h₁) = >>=-eq-ok (identity_at identities a.order) _ (rw unknown at h) in
          inr (found.0, found.1, unknown, identity_at-IsSent identities a.order found e, ok-eq h₁)
      | inr known ↦ inl (known, ok-eq (rw known at h))
    ]
rehydrate-IsFilledIn identities _ filled h = ok-eq h

-- The filled-in actions against those they come from, one for one.
abbrev pub AreFilledIn : List CardIdentity → List GameAction → List GameAction → Type 0
AreFilledIn identities [] filled = filled ≡ []
AreFilledIn identities (action ∷ actions) [] = ⊥
AreFilledIn identities (action ∷ actions) (f ∷ filled) =
    IsFilledIn identities action f × AreFilledIn identities actions filled

-- If filling in does not throw, there is one action for each action, in its place: a play, a discard or
-- a draw that does not name the suit and the rank of its card gets both from the identity that the
-- server sent for that card and is otherwise as it was; any other action is as it was.
pub rehydrate_scrubbed_actions-AreFilledIn :
    (actions : List GameAction) (identities : List CardIdentity) (filled : List GameAction)
    → rehydrate_scrubbed_actions actions identities ≡ ok filled
    → AreFilledIn identities actions filled
unfolding rehydrate_scrubbed_actions
rehydrate_scrubbed_actions-AreFilledIn [] identities filled h = let same : filled ≡ [] = cc in same
rehydrate_scrubbed_actions-AreFilledIn (action ∷ actions) identities filled h =
    let (f, e, h₁) = >>=-eq-ok (rehydrate identities action) _ h in
    let (rest, e₁, h₂) = >>=-eq-ok (map_result (rehydrate identities) actions) _ h₁ in
    subst (AreFilledIn identities (action ∷ actions)) (let same : f ∷ rest ≡ filled = cc in same) (
      rehydrate-IsFilledIn identities action f e,
      rehydrate_scrubbed_actions-AreFilledIn actions identities rest e₁,
    )

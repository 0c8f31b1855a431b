-- ===== src/Reducers/Planning/Shape.antt =====
-- packages/game/src/hypotheticalPlanning.ts: where the play or the discard of a plan stands
use hanabi_live.Prelude.{
  ℕ, ◌≡◌, ◌∙◌, ◌⊎◌, refl, sym, ap, Bool, true, false, not, Option, none, some, List, [], ◌∷◌, ◌++◌,
  length, All, Bool-cases, inl, inr, get_elem?, if◌then◌else◌,
}
use mathlib.Core.Path.{subst}
use hanabi_live.Result.{Result, ok, assert_defined, no_hand, >>=-eq-ok}
use hanabi_live.Types.Card.{CardIdentity}
use hanabi_live.Types.Action.{GameAction, ActionDraw, MsgClue, discard, draw, play, turn}
use hanabi_live.Reducers.Stats.{is_play_or_discard}
use hanabi_live.Reducers.Hypothetical.{is_held_by_another}
use hanabi_live.Reducers.PlannedCards.{get_hypothetical_touched_cards}
use hanabi_live.Reducers.Planning.{
  PlanHypotheticalActionContext, fits_stack, planned_moves, with_draw, add_draw, planned_strike,
  is_bottom_deck_action, is_suit_inverted, or_null, plan_card, plan_move, plan_clue, cards_at,
  card_at,
}

pub or_null-eq-some :
    {A B : Type 0} (o : Option A) (next : A → Result (Option B)) {r : B}
    → or_null o next ≡ ok (some r)
    → (x : A) × (o ≡ some x) × (next x ≡ ok (some r))
or_null-eq-some none next h = cc
or_null-eq-some (some x) next h = (x, refl, h)

-- A play or a discard by a player of a card.
abbrev pub IsMoveOf : ℕ → ℕ → GameAction → Type 0
IsMoveOf player order (play a) = (a.player_index ≡ player) × (a.order ≡ order)
IsMoveOf player order (discard a) = (a.player_index ≡ player) × (a.order ≡ order)
IsMoveOf player order _ = ⊥

abbrev pub NoMoves : List GameAction → Type 0
NoMoves actions = All (λ (action : GameAction). is_play_or_discard action ≡ false) actions

NoMoves-append : (xs ys : List GameAction) → NoMoves xs → NoMoves ys → NoMoves (xs ++ ys)
NoMoves-append [] ys h h' = h'
NoMoves-append (x ∷ xs) ys (p, h) h' = (p, NoMoves-append xs ys h h')

ok-eq : {xs ys : List GameAction} → ok xs ≡ ok ys → ys ≡ xs
ok-eq h = cc

some-eq : {xs ys : List GameAction} → ok (some xs) ≡ ok (some ys) → xs ≡ ys
some-eq h = cc

-- The move of a plan comes first, or right after the draw of the card.
abbrev pub Shape : ℕ → ℕ → List GameAction → Type 0
Shape player order actions =
    (move : GameAction) × (rest : List GameAction) × IsMoveOf player order move
    × NoMoves rest
    × ((actions ≡ move ∷ rest)
        ⊎ ((a : ActionDraw) × (a.player_index ≡ player) × (actions ≡ draw a ∷ move ∷ rest)))

pub NoMoves-absurd :
    (before after : List GameAction) (action : GameAction) (xs : List GameAction)
    → NoMoves xs
    → before ++ action ∷ after ≡ xs
    → ¬ (is_play_or_discard action ≡ true)
NoMoves-absurd [] after action [] none_moves e m = cc
NoMoves-absurd [] after action (x ∷ xs) (k, none_moves) e m =
    let same : action ≡ x = cc in
    let moves : false ≡ true = sym k ∙ ap is_play_or_discard (sym same) ∙ m in cc
NoMoves-absurd (b ∷ before) after action [] none_moves e m = cc
NoMoves-absurd (b ∷ before) after action (x ∷ xs) (k, none_moves) e m =
    NoMoves-absurd before after action xs none_moves
      (let same : before ++ action ∷ after ≡ xs = cc in same) m

module _ (context : PlanHypotheticalActionContext) (player order : ℕ) where
  add_draw-Shape :
      (move : GameAction) (rest : List GameAction) (next : Option CardIdentity)
      → IsMoveOf player order move
      → NoMoves rest
      → Shape player order (add_draw context player order (move ∷ rest) next ++ turn ∷ [])
  add_draw-Shape move rest none m n =
      (move, rest ++ turn ∷ [], m, NoMoves-append rest (turn ∷ []) n (refl, tt), inl refl)
  add_draw-Shape move rest (some next) m n =
      elim (Bool-cases (is_bottom_deck_action context order)) [
        | inl bottom ↦ (
          move,
          rest ++ turn ∷ [],
          m,
          NoMoves-append rest (turn ∷ []) n (refl, tt),
          inr (
            drawn,
            refl,
            ap
                (λ (b : Bool).
                  (if b then draw drawn ∷ move ∷ rest else (move ∷ rest) ++ draw drawn ∷ [])
                  ++ turn ∷ [])
                bottom,
          ),
        )
        | inr top ↦ (
          move,
          (rest ++ draw drawn ∷ []) ++ turn ∷ [],
          m,
          NoMoves-append (rest ++ draw drawn ∷ []) (turn ∷ [])
              (NoMoves-append rest (draw drawn ∷ []) n (refl, tt)) (refl, tt),
          inl (
              ap
                (λ (b : Bool).
                  (if b then draw drawn ∷ move ∷ rest else (move ∷ rest) ++ draw drawn ∷ [])
                  ++ turn ∷ [])
                top),
        )
      ]
    where
      drawn : ActionDraw
      drawn = record {
        player_index = player;
        order = length context.game_state.deck;
        suit_index = next.suit_index;
        rank = next.rank;
      }

  -- What `planned_moves` gives: a move, and after a misplay its strike.
  planned_moves-move :
      (plays : Bool) (suit_index rank : ℕ) (moves : List GameAction)
      → planned_moves context.game_state context.variant plays player order suit_index rank
        ≡ ok moves
      → (move : GameAction) × (rest : List GameAction) × IsMoveOf player order move
        × NoMoves rest
        × (moves ≡ move ∷ rest)
  planned_moves-move true suit_index rank moves h =
      let (fits, e, h') =
        >>=-eq-ok (fits_stack context.game_state context.variant suit_index rank) _ h in
      elim (Bool-cases fits) [
        | inl taken ↦ (_, [], (refl, refl), tt, ok-eq (rw taken at h'))
        | inr misplayed ↦ (
          _,
          planned_strike context.game_state order ∷ [],
          (refl, refl),
          (refl, tt),
          ok-eq (rw misplayed at h'),
        )
      ]
  planned_moves-move false suit_index rank moves h = (_, [], (refl, refl), tt, ok-eq h)

  plan_card-Shape :
      (plays : Bool) (suit_index rank : ℕ) (actions : List GameAction)
      → plan_card context plays player order suit_index rank ≡ ok (some actions)
      → Shape player order actions
  unfolding plan_card
  plan_card-Shape plays suit_index rank actions h =
      let flipped : Bool =
        if is_suit_inverted context.variant suit_index then not plays else plays in
      let (moves, e, h') =
        >>=-eq-ok
          (planned_moves context.game_state context.variant flipped player order suit_index rank)
          (λ (moves : List GameAction).
            ok (some (with_draw context player order moves ++ turn ∷ [])))
          h in
      let (move, rest, m, n, same) = planned_moves-move flipped suit_index rank moves e in
      let next = get_elem? context.card_identities (length context.game_state.deck) in
      subst (Shape player order)
        (ap (λ (xs : List GameAction). add_draw context player order xs next ++ turn ∷ [])
            (sym same)
          ∙ some-eq h')
        (add_draw-Shape move rest next m n)

  pub plan_move-Shape :
      (plays : Bool) (actions : List GameAction)
      → plan_move context plays player order ≡ ok (some actions)
      → (is_held_by_another 0 player order context.game_state.hands ≡ false)
        × Shape player order actions
  unfolding plan_move
  plan_move-Shape plays actions h =
      elim (Bool-cases (is_held_by_another 0 player order context.game_state.hands)) [
        | inl held ↦ let h' : ok none ≡ ok (some actions) = rw held at h in cc
        | inr free ↦
            let (card, e, h') = or_null-eq-some (card_at context order) _ (rw free at h) in
            let (suit_index, e', h'') = or_null-eq-some card.identity.suit_index _ h' in
            let (rank, e'', k) = or_null-eq-some card.identity.rank _ h'' in
            (free, plan_card-Shape plays suit_index rank actions k)
      ]

-- A plan for a clue has no play and no discard.
pub plan_clue-NoMoves :
    (context : PlanHypotheticalActionContext) (msg_clue : MsgClue) (player target : ℕ)
    (actions : List GameAction)
    → plan_clue context msg_clue player target ≡ ok (some actions)
    → NoMoves actions
unfolding plan_clue
plan_clue-NoMoves context msg_clue player target actions h =
    let (hand, e, h') =
      >>=-eq-ok (assert_defined no_hand (get_elem? context.game_state.hands target)) _ h in
    let (cards, e', h'') = or_null-eq-some (cards_at context hand) _ h' in
    let (touched, e'', k) =
      >>=-eq-ok (get_hypothetical_touched_cards cards msg_clue context.variant) _ h'' in
    subst NoMoves (some-eq k) (refl, (refl, tt))

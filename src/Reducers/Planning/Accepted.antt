-- ===== src/Reducers/Planning/Accepted.antt =====
-- What packages/game/src/hypotheticalPlanning.ts plans, run through the reducer of
-- packages/game/src/hypotheticalState.ts
use hanabi_live.Prelude.{
  ℕ, ◌≡◌, ◌∙◌, refl, sym, ap, Bool, true, false, some, List, [], ◌∷◌, ◌++◌, map, inl, inr,
}
use mathlib.Core.Path.{subst}
use hanabi_live.Result.{ok, ◌>>=◌, >>=-eq-ok}
use hanabi_live.Types.Action.{GameAction, discard, draw, play, msg_color, msg_rank}
use hanabi_live.Types.Game.{GameMetadata, GameState}
use hanabi_live.Reducers.Stats.{is_play_or_discard}
use hanabi_live.Reducers.Game.Reducer.{game_reducer}
use hanabi_live.Reducers.Hypothetical.{
  HypotheticalState, ActionIncludingHypothetical, including, game_action, is_held_by_another,
  is_dropped, apply_all, apply_game_action, hypothetical_state_reducer, hypothetical_view, store,
}
use hanabi_live.Reducers.Planning.{
  HypotheticalActionIntent, intend_play, intend_discard, intend_color_clue, intend_rank_clue,
  PlanHypotheticalActionContext, plan_move, plan_for, plan_hypothetical_action,
}
use hanabi_live.Reducers.Planning.Drawn.{drawn-free}
use hanabi_live.Reducers.Planning.Shape.{
  IsMoveOf, Shape, NoMoves-absurd, plan_move-Shape, plan_clue-NoMoves, or_null-eq-some,
}

-- An action of the game, as an action of a hypothetical.
abbrev pub taken : GameAction → ActionIncludingHypothetical
taken action = game_action action

-- A move that is not held by another is not dropped.
module _ (h : HypotheticalState) (player order : ℕ) (finished : Bool) (metadata : GameMetadata)
    (free : is_held_by_another 0 player order h.ongoing.hands ≡ false) where
  IsMoveOf-applied :
      (action : GameAction)
      → IsMoveOf player order action
      → hypothetical_state_reducer h (including (game_action action)) finished metadata ≡ (
          game_reducer h.ongoing action (hypothetical_view finished) metadata
          >>= (λ (next : GameState). ok (store h next)))
  unfolding hypothetical_state_reducer apply_game_action
  IsMoveOf-applied (play a) (e, e') =
      let kept : is_dropped (play a) h.ongoing ≡ false =
        ap (λ (p : ℕ). is_held_by_another 0 p a.order h.ongoing.hands) e
        ∙ ap (λ (o : ℕ). is_held_by_another 0 player o h.ongoing.hands) e'
        ∙ free in
      rw kept refl
  IsMoveOf-applied (discard a) (e, e') =
      let kept : is_dropped (discard a) h.ongoing ≡ false =
        ap (λ (p : ℕ). is_held_by_another 0 p a.order h.ongoing.hands) e
        ∙ ap (λ (o : ℕ). is_held_by_another 0 player o h.ongoing.hands) e'
        ∙ free in
      rw kept refl
  IsMoveOf-applied _ m = absurd m

module _ (player order : ℕ) (finished : Bool) (metadata : GameMetadata) where
  -- A move in a plan of this shape, in the state that the actions before it lead to.
  Shape-applied :
      (before after actions : List GameAction) (action : GameAction) (h h' : HypotheticalState)
      → is_held_by_another 0 player order h.ongoing.hands ≡ false
      → Shape player order actions
      → before ++ action ∷ after ≡ actions
      → is_play_or_discard action ≡ true
      → apply_all h (map taken before) finished metadata ≡ ok h'
      → hypothetical_state_reducer h' (including (taken action)) finished metadata ≡ (
          game_reducer h'.ongoing action (hypothetical_view finished) metadata
          >>= (λ (next : GameState). ok (store h' next)))
  unfolding apply_all
  Shape-applied [] after actions action h h' free (move, rest, m, n, inl e) e' is_move k =
      let same : h ≡ h' = cc in
      let moved : move ≡ action = cc in
      IsMoveOf-applied h' player order finished metadata
        (subst
          (λ (x : HypotheticalState). is_held_by_another 0 player order x.ongoing.hands ≡ false)
          same free)
        action (subst (IsMoveOf player order) moved m)
  Shape-applied [] after actions action h h' free (move, rest, m, n, inr (a, p, e)) e' is_move k =
      let drew : draw a ≡ action = cc in
      let not_a_move : false ≡ true = ap is_play_or_discard drew ∙ is_move in cc
  Shape-applied (b ∷ before) after actions action h h' free (move, rest, m, n, inl e) e' is_move k =
      absurd (
        NoMoves-absurd before after action rest n
          (let same : before ++ action ∷ after ≡ rest = cc in same) is_move)
  Shape-applied (b ∷ []) after actions action h h' free (move, rest, m, n, inr (a, p, e)) e' is_move
        k =
      let drew : draw a ≡ b = cc in
      let moved : move ≡ action = cc in
      let (next, k₁, k₂) =
        >>=-eq-ok (hypothetical_state_reducer h (including (taken b)) finished metadata) _ k in
      let same : next ≡ h' = cc in
      let drawn : hypothetical_state_reducer h (including (taken (draw a))) finished metadata
          ≡ ok h' =
        ap
          (λ (x : GameAction). hypothetical_state_reducer h (including (taken x)) finished metadata)
          drew
        ∙ k₁
        ∙ ap ok same in
      IsMoveOf-applied h' player order finished metadata
        (ap (λ (q : ℕ). is_held_by_another 0 q order h'.ongoing.hands) (sym p)
          ∙ drawn-free h h' a order finished metadata
              (ap (λ (q : ℕ). is_held_by_another 0 q order h.ongoing.hands) p ∙ free) drawn)
        action (subst (IsMoveOf player order) moved m)
  Shape-applied (b ∷ b' ∷ before) after actions action h h' free (move, rest, m, n, inr (a, p, e))
        e' is_move k =
      absurd (
        NoMoves-absurd before after action rest n
          (let same : before ++ action ∷ after ≡ rest = cc in same) is_move)

module _ (context : PlanHypotheticalActionContext) (finished : Bool)
    (before after : List GameAction) (action : GameAction) (h h' : HypotheticalState)
    (from_there : h.ongoing ≡ context.game_state) (is_move : is_play_or_discard action ≡ true)
    (led : apply_all h (map taken before) finished context.metadata ≡ ok h') where
  plan_move-applied :
      (player order : ℕ) (plays : Bool)
      → plan_move context plays player order ≡ ok (some (before ++ action ∷ after))
      → hypothetical_state_reducer h' (including (taken action)) finished context.metadata ≡ (
          game_reducer h'.ongoing action (hypothetical_view finished) context.metadata
          >>= (λ (next : GameState). ok (store h' next)))
  plan_move-applied player order plays e =
      let (free, shape) = plan_move-Shape context player order plays (before ++ action ∷ after) e in
      Shape-applied player order finished context.metadata before after (before ++ action ∷ after)
        action h h'
        (ap (λ (s : GameState). is_held_by_another 0 player order s.hands) from_there ∙ free) shape
        refl is_move led

  plan_for-applied :
      (intent : HypotheticalActionIntent) (player : ℕ)
      → plan_for intent context player ≡ ok (some (before ++ action ∷ after))
      → hypothetical_state_reducer h' (including (taken action)) finished context.metadata ≡ (
          game_reducer h'.ongoing action (hypothetical_view finished) context.metadata
          >>= (λ (next : GameState). ok (store h' next)))
  plan_for-applied (intend_play order) player e = plan_move-applied player order true e
  plan_for-applied (intend_discard order) player e = plan_move-applied player order false e
  plan_for-applied (intend_color_clue target value) player e = absurd (
      NoMoves-absurd before after action _
        (plan_clue-NoMoves context (msg_color value) player target (before ++ action ∷ after) e)
        refl is_move)
  plan_for-applied (intend_rank_clue target value) player e = absurd (
      NoMoves-absurd before after action _
        (plan_clue-NoMoves context (msg_rank value) player target (before ++ action ∷ after) e) refl
        is_move)

  -- From a hypothetical at the state that was planned for, let the reducer of the hypothetical take the
  -- actions of a plan up to a play or a discard, without throwing. Then it does not drop that play or
  -- discard: it runs the game reducer on it and stores the next state.
  pub plan_hypothetical_action-applied :
      (intent : HypotheticalActionIntent)
      → plan_hypothetical_action intent context ≡ ok (some (before ++ action ∷ after))
      → hypothetical_state_reducer h' (including (taken action)) finished context.metadata ≡ (
          game_reducer h'.ongoing action (hypothetical_view finished) context.metadata
          >>= (λ (next : GameState). ok (store h' next)))
  unfolding plan_hypothetical_action
  plan_hypothetical_action-applied intent e =
      let (player, _, e') =
        or_null-eq-some context.game_state.turn.current_player_index (plan_for intent context) e in
      plan_for-applied intent player e'

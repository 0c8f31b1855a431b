-- ===== src/Reducers/Turn/Moves.antt =====
-- How each action of reducers/turnReducer.ts moves a game on.
use hanabi_live.Prelude.{
  ℕ, suc, ◌+◌, ◌<◌, ◌≡◌, refl, ◌⊎◌, inl, inr, Bool, true, false, Option, none, some, arith, ltb,
  if◌then◌else◌, Bool-cases, Option-cases, ap, sym, ◌∙◌,
}
use mathlib.Core.Path.{subst}
use hanabi_live.Prelude.Int.{ℤ, pos, eq_ℤ}
use hanabi_live.Result.{ok, assert_defined, no_segment, >>=-eq-ok}
use hanabi_live.Types.Action.{ActionDiscard}
use hanabi_live.Types.Game.{
  GameMetadata, TurnState, GameState, CharacterName, NumPlayers, to_number,
}
use hanabi_live.Rules.Turn.{get_next_player_index}
use hanabi_live.Rules.Turn.Order.{get_next_player_index_bounds}
use hanabi_live.Reducers.Turn.{
  bump_segment, next_turn, end_turn_if, ends_after_draw, turn_after_play, turn_after_discard,
  turn_after_clue, turn_after_draw,
}

-- The current player, if the game is not over, is a player of the game.
abbrev pub IsPlayerValid : GameMetadata → TurnState → Type 0
IsPlayerValid metadata t =
    (p : ℕ) → t.current_player_index ≡ some p → p < to_number metadata.options.num_players

-- What one action may do to the turn.
pub record Moves (metadata : GameMetadata) (t t' : TurnState) : Type 0 where
  pub player : IsPlayerValid metadata t → IsPlayerValid metadata t'
  pub segment : (k : ℕ) → t.segment ≡ some k → (t'.segment ≡ some k) ⊎ (t'.segment ≡ some (suc k))
  pub turn_num : (t'.turn_num ≡ t.turn_num) ⊎ (t'.turn_num ≡ t.turn_num + 1)
  pub end_turn_num : (e : ℕ) → t.end_turn_num ≡ some e → t'.end_turn_num ≡ some e

next_index_valid :
    (c : Option ℕ) (n : NumPlayers) (inverted : Bool) (next : ℕ)
    → ((p : ℕ) → c ≡ some p → p < to_number n)
    → get_next_player_index c n inverted ≡ some next
    → next < to_number n
next_index_valid none n inverted next valid e = unfold get_next_player_index in cc e
next_index_valid (some c) n inverted next valid e =
    get_next_player_index_bounds c n inverted (valid c refl) e

-- What `nextTurn` does to the fields that `Moves` is about.
pub record Advances (metadata : GameMetadata) (t t' : TurnState) : Type 0 where
  pub segment : t'.segment ≡ t.segment
  pub turn_num : t'.turn_num ≡ t.turn_num + 1
  pub player :
      t'.current_player_index
      ≡ get_next_player_index t.current_player_index metadata.options.num_players
          t'.play_order_inverted
  pub end_turn_num : (e : ℕ) → t.end_turn_num ≡ some e → t'.end_turn_num ≡ some e

module _ (metadata : GameMetadata) (t : TurnState) where
  pub next_turn-Advances :
      (deck_size : ℤ) (name : CharacterName) (t' : TurnState)
      → next_turn t deck_size name metadata ≡ ok t'
      → Advances metadata t t'
  unfolding next_turn
  next_turn-Advances deck_size name t' h = record {
    segment = ground arith;
    turn_num = ground arith;
    player = ground arith;
    end_turn_num = λ e k. ground arith;
  }

  -- The same after the action has changed the segment and the counters of the turn.
  Advances-Moves :
      (u t' : TurnState)
      → Advances metadata u t'
      → (u.turn_num ≡ t.turn_num)
      → (u.current_player_index ≡ t.current_player_index)
      → (u.end_turn_num ≡ t.end_turn_num)
      → ((k : ℕ) → t.segment ≡ some k → (u.segment ≡ some k) ⊎ (u.segment ≡ some (suc k)))
      → Moves metadata t t'
  Advances-Moves u t' a n p e seg = record {
    player = λ valid next same.
        next_index_valid t.current_player_index metadata.options.num_players t'.play_order_inverted
          next valid (cc (a.player));
    segment = λ k q. elim (seg k q) [ inl r ↦ inl (a.segment ∙ r) | inr r ↦ inr (a.segment ∙ r) ];
    turn_num = inr (a.turn_num ∙ ap (λ (x : ℕ). x + 1) n);
    end_turn_num = λ x q. a.end_turn_num x (e ∙ q);
  }

  -- An action that ends no turn.
  pub Moves-same_turn :
      (t' : TurnState)
      → (t'.turn_num ≡ t.turn_num)
      → (t'.current_player_index ≡ t.current_player_index)
      → (t'.end_turn_num ≡ t.end_turn_num)
      → ((k : ℕ) → t.segment ≡ some k → (t'.segment ≡ some k) ⊎ (t'.segment ≡ some (suc k)))
      → Moves metadata t t'
  Moves-same_turn t' n p e seg = record {
    player = λ valid next same. valid next (sym p ∙ same);
    segment = seg;
    turn_num = inl n;
    end_turn_num = λ x q. e ∙ q;
  }

abbrev Bumped : Option ℕ → Option ℕ → Type 0
Bumped before after = (k : ℕ) → before ≡ some k → (after ≡ some k) ⊎ (after ≡ some (suc k))

Bumped-bump : (o : Option ℕ) → Bumped o (bump_segment o)
Bumped-bump o k e = inr (ap bump_segment e)

-- The turn after a draw of the game, which counts as a segment after a play or a discard.
abbrev bumped_by_draw : TurnState → ℕ → TurnState
bumped_by_draw t segment = record t {
  segment = some (if ltb 0 t.cards_played_or_discarded_this_turn then suc segment else segment);
}

module _ (metadata : GameMetadata) (t : TurnState) (name : CharacterName) (s : GameState) where
  -- `u` is the turn after the counters and the segment have changed.
  Moves-end_turn_if :
      (ends : Bool) (u t' : TurnState)
      → end_turn_if ends u s.cards_remaining_in_the_deck name metadata ≡ ok t'
      → (u.turn_num ≡ t.turn_num)
      → (u.current_player_index ≡ t.current_player_index)
      → (u.end_turn_num ≡ t.end_turn_num)
      → Bumped t.segment u.segment
      → Moves metadata t t'
  Moves-end_turn_if true u t' h n p e seg =
      Advances-Moves metadata t u t'
        (next_turn-Advances metadata u s.cards_remaining_in_the_deck name t' h) n p e seg
  Moves-end_turn_if false u t' h n p e seg =
      let same : u ≡ t' = cc in
      subst (λ v. Moves metadata t v) same (Moves-same_turn metadata t u n p e seg)

  pub turn_after_play-Moves :
      (t' : TurnState) → turn_after_play t name s metadata ≡ ok t' → Moves metadata t t'
  unfolding turn_after_play
  turn_after_play-Moves t' h = elim (Bool-cases (eq_ℤ s.cards_remaining_in_the_deck (pos 0))) [
    | inl empty ↦ Moves-end_turn_if true _ t' (rw empty at h) refl refl refl (Bumped-bump t.segment)
    | inr cards ↦ Moves-end_turn_if false _ t' (rw cards at h) refl refl refl (λ k e. inl e)
  ]

  pub turn_after_discard-Moves :
      (a : ActionDiscard) (t' : TurnState)
      → turn_after_discard a t name s metadata ≡ ok t'
      → Moves metadata t t'
  unfolding turn_after_discard
  turn_after_discard-Moves a t' h = elim (Bool-cases (eq_ℤ s.cards_remaining_in_the_deck (pos 0))) [
    | inl empty ↦ Moves-end_turn_if _ _ t' (rw empty at h) refl refl refl (Bumped-bump t.segment)
    | inr cards ↦ Moves-end_turn_if false _ t' (rw cards at h) refl refl refl (λ k e. inl e)
  ]

  pub turn_after_clue-Moves :
      (t' : TurnState) → turn_after_clue t name s metadata ≡ ok t' → Moves metadata t t'
  unfolding turn_after_clue
  turn_after_clue-Moves t' h =
      let (segment, e, rest) = >>=-eq-ok (assert_defined no_segment t.segment) _ h in
      Moves-end_turn_if _ _ t' rest refl refl refl (λ k q. ground arith)

  pub turn_after_draw-Moves :
      (t' : TurnState) → turn_after_draw t name s metadata ≡ ok t' → Moves metadata t t'
  unfolding turn_after_draw
  turn_after_draw-Moves t' h = elim (Option-cases t.segment) [
    | inl dealing ↦ record {
      player = λ valid p q. ground (arith, valid p);
      segment = λ k q. cc;
      turn_num = ground arith;
      end_turn_num = λ x q. ground arith;
    }
    | inr (segment, e) ↦
        Moves-end_turn_if (ends_after_draw t name s metadata) (bumped_by_draw t segment) t'
          (rw e at h) refl refl refl (λ k q. ground arith)
  ]

-- ===== src/Reducers/Turn/Deal.antt =====
-- reducers/turnReducer.ts during the initial deal, which has no segment
use hanabi_live.Prelude.{
  ℕ, suc, ◌≡◌, ◌∙◌, refl, sym, ap, ◌⊎◌, inl, inr, Bool, true, false, Option, none, some, arith,
  Bool-cases,
}
use hanabi_live.Prelude.Int.{ℤ, pos, eq_ℤ}
use hanabi_live.Result.{ok, >>=-eq-ok, assert_defined, no_segment}
use hanabi_live.Types.Action.{GameAction, clue, discard, draw, game_over, play, player_times}
use hanabi_live.Types.Game.{GameMetadata, TurnState, GameState, CharacterName}
use hanabi_live.Rules.Characters.{get_character_name_for_player}
use hanabi_live.Rules.Deck.{is_initial_deal_finished}
use hanabi_live.Reducers.Turn.{
  turn_switch, turn_reducer, turn_after_play, turn_after_discard, turn_after_clue, turn_after_draw,
  turn_after_game_over, turn_after_player_times, end_turn_if,
}
use hanabi_live.Reducers.Turn.Moves.{next_turn-Advances}

-- The segments that may follow one.
abbrev pub Follows : Option ℕ → Option ℕ → Type 0
Follows none after = (after ≡ none) ⊎ (after ≡ some 0)
Follows (some k) after = (after ≡ some k) ⊎ (after ≡ some (suc k))

pub Follows-self : (segment : Option ℕ) → Follows segment segment
Follows-self none = inl refl
Follows-self (some k) = inl refl

abbrev pub IsDealing : Option ℕ → Type 0
IsDealing segment = (segment ≡ none) ⊎ (segment ≡ some 0)

module _ (metadata : GameMetadata) (t : TurnState) (dealing : t.segment ≡ none)
    (name : CharacterName) (s : GameState) where
  end_turn_if-none :
      (ends : Bool) (u t' : TurnState) (deck_size : ℤ)
      → u.segment ≡ none
      → end_turn_if ends u deck_size name metadata ≡ ok t'
      → IsDealing t'.segment
  end_turn_if-none true u t' deck_size e h =
      inl ((next_turn-Advances metadata u deck_size name t' h).segment ∙ e)
  end_turn_if-none false u t' deck_size e h =
      let same : u ≡ t' = cc in inl (ap (λ (v : TurnState). v.segment) (sym same) ∙ e)

  turn_switch-none :
      (action : GameAction) (t' : TurnState)
      → turn_switch action t name s metadata ≡ ok t'
      → IsDealing t'.segment
  unfolding turn_after_play turn_after_discard turn_after_clue turn_after_draw turn_after_game_over
      turn_after_player_times
  turn_switch-none (play a) t' h = elim (Bool-cases (eq_ℤ s.cards_remaining_in_the_deck (pos 0))) [
    | inl empty ↦
        end_turn_if-none true _ t' s.cards_remaining_in_the_deck (ground (arith, dealing))
          (rw empty at h)
    | inr cards ↦ end_turn_if-none false _ t' s.cards_remaining_in_the_deck dealing (rw cards at h)
  ]
  turn_switch-none (discard a) t' h =
      elim (Bool-cases (eq_ℤ s.cards_remaining_in_the_deck (pos 0))) [
        | inl empty ↦
            end_turn_if-none _ _ t' s.cards_remaining_in_the_deck (ground (arith, dealing))
              (rw empty at h)
        | inr cards ↦
            end_turn_if-none false _ t' s.cards_remaining_in_the_deck dealing (rw cards at h)
      ]
  turn_switch-none (clue a) t' h =
      let (segment, e, _) = >>=-eq-ok (assert_defined no_segment t.segment) _ h in
      ground (arith, dealing, e)
  turn_switch-none (draw a) t' h =
      let (finished, _, e) =
        >>=-eq-ok (is_initial_deal_finished s.cards_remaining_in_the_deck metadata) _
          (rw dealing at h) in
      ground (arith, dealing, e)
  turn_switch-none (game_over a) t' h =
      let (segment, e, _) = >>=-eq-ok (assert_defined no_segment t.segment) _ h in
      ground (arith, dealing, e)
  turn_switch-none (player_times a) t' h =
      let (segment, e, _) = >>=-eq-ok (assert_defined no_segment t.segment) _ h in
      ground (arith, dealing, e)
  turn_switch-none _ t' h = end_turn_if-none false t t' (pos 0) dealing h

-- What one action does to a turn without a segment.
pub turn_reducer-none :
    (metadata : GameMetadata) (t : TurnState) (action : GameAction) (s : GameState) (t' : TurnState)
    → t.segment ≡ none
    → turn_reducer t action s metadata ≡ ok t'
    → IsDealing t'.segment
unfolding turn_reducer
turn_reducer-none metadata t action s t' dealing h =
    let (name, _, e) =
      >>=-eq-ok
        (get_character_name_for_player t.current_player_index metadata.character_assignments)
        (λ name. turn_switch action t name s metadata) h in
    turn_switch-none metadata t dealing name s action t' e

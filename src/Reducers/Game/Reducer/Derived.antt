-- ===== src/Reducers/Game/Reducer/Derived.antt =====
-- What the player's own notes change in the parts of reducers/gameReducer.ts after its switch
use hanabi_live.Prelude.{
  ℕ, ◌≡◌, ◌∙◌, refl, ap, fun_ext, Option, none, some, List, [], ◌∷◌, Bool-cases, inl, inr,
  get_elem?, ◌||◌, if◌then◌else◌,
}
use hanabi_live.Prelude.Int.{ℤ}
use hanabi_live.Result.{Result, ok, ◌>>=◌, assert_defined, no_play_stack, >>=-eq-ok}
use hanabi_live.Types.Variant.{Variant}
use hanabi_live.Types.Card.{CardState, CardStatus, SuitRankTuple}
use hanabi_live.Types.Action.{GameAction, clue, discard, draw, play}
use hanabi_live.Types.Game.{GameMetadata, GameState, TurnState, CharacterName}
use hanabi_live.Rules.Card.{get_card_status}
use hanabi_live.Rules.CardState.{has_reversed_suits}
use hanabi_live.Rules.Characters.{get_character_name_for_player}
use hanabi_live.Rules.DoubleDiscard.{stacks_of}
use hanabi_live.Reducers.Turn.{
  turn_reducer, turn_switch, after_draw, turn_after_play, turn_after_discard, turn_after_clue,
  turn_after_draw, turn_after_game_over, turn_after_player_times,
}
use hanabi_live.Reducers.Deduction.Update.{card_deduction_reducer}
use hanabi_live.Reducers.Cards.Clue.{cards_after_clue}
use hanabi_live.Reducers.Cards.Draw.{all_identities, cards_after_draw, drawn_card}
use hanabi_live.Reducers.Cards.Reducer.{cards_reducer, cards_switch, skips_deduction}
use hanabi_live.Reducers.Game.Reducer.{
  resolve_direction, resolve_start, resolve_statuses, update_statuses, changes_statuses,
  direct_suit, start_suit, played_suit,
}
use hanabi_live.Reducers.Game.Reducer.Notes.{with_notes, >>=-ok, done}

cards_switch-notes :
    (n : Option ℤ) (deck : List CardState) (action : GameAction) (s : GameState)
    (metadata : GameMetadata)
    → cards_switch deck action (with_notes n s) metadata ≡ cards_switch deck action s metadata
unfolding cards_switch cards_after_clue cards_after_draw drawn_card
cards_switch-notes n deck (clue a) s metadata = refl
cards_switch-notes n deck (draw a) s metadata = refl
cards_switch-notes n deck (play a) s metadata = refl
cards_switch-notes n deck (discard a) s metadata = refl
cards_switch-notes n deck _ s metadata = refl

pub cards_reducer-notes :
    (n : Option ℤ) (deck : List CardState) (action : GameAction) (s : GameState)
    (metadata : GameMetadata)
    → cards_reducer deck action (with_notes n s) metadata ≡ cards_reducer deck action s metadata
unfolding cards_reducer skips_deduction
cards_reducer-notes n deck action s metadata =
    ap (λ (switched : Result (List CardState)). switched >>= rest)
      (cards_switch-notes n deck action s metadata)
  where
    rest : List CardState → Result (List CardState)
    rest new_deck = do
      skips ← skips_deduction new_deck action s metadata
      if skips then ok new_deck else card_deduction_reducer new_deck deck action s.hands metadata

turn_switch-notes :
    (n : Option ℤ) (t : TurnState) (action : GameAction) (name : CharacterName) (s : GameState)
    (metadata : GameMetadata)
    → turn_switch action t name (with_notes n s) metadata ≡ turn_switch action t name s metadata
unfolding turn_after_play turn_after_discard turn_after_clue turn_after_draw turn_after_game_over
    turn_after_player_times
turn_switch-notes n t (play a) name s metadata = refl
turn_switch-notes n t (discard a) name s metadata = refl
turn_switch-notes n t (clue a) name s metadata = refl
turn_switch-notes n t (draw a) name s metadata = draw-same t.segment
  where
    draw-same :
        (segment : Option ℕ)
        → after_draw segment t name (with_notes n s) metadata ≡ after_draw segment t name s metadata
    draw-same none = refl
    draw-same (some segment) = refl
turn_switch-notes n t _ name s metadata = refl

pub turn_reducer-notes :
    (n : Option ℤ) (t : TurnState) (action : GameAction) (s : GameState) (metadata : GameMetadata)
    → turn_reducer t action (with_notes n s) metadata ≡ turn_reducer t action s metadata
unfolding turn_reducer
turn_reducer-notes n t action s metadata =
    ap
      (λ (next : CharacterName → Result TurnState).
        get_character_name_for_player t.current_player_index metadata.character_assignments
        >>= next)
      (fun_ext λ name. turn_switch-notes n t action name s metadata)

module _ (n : Option ℤ) (s s' : GameState) (variant : Variant) where
  direct_suit-notes :
      (i : Option ℕ)
      → direct_suit i s variant ≡ ok s'
      → direct_suit i (with_notes n s) variant ≡ ok (with_notes n s')
  direct_suit-notes none h = done n h
  direct_suit-notes (some i) h =
      let (_, k, h₁) = >>=-eq-ok (assert_defined no_play_stack (get_elem? s.play_stacks i)) _ h in
      >>=-ok _ k (done n h₁)

  start_suit-notes :
      (i : Option ℕ) → start_suit i s ≡ ok s' → start_suit i (with_notes n s) ≡ ok (with_notes n s')
  start_suit-notes none h = done n h
  start_suit-notes (some i) h =
      let (_, k, h₁) = >>=-eq-ok (assert_defined no_play_stack (get_elem? s.play_stacks i)) _ h in
      >>=-ok _ k (done n h₁)

  pub resolve_direction-notes :
      (action : GameAction)
      → resolve_direction s action variant ≡ ok s'
      → resolve_direction (with_notes n s) action variant ≡ ok (with_notes n s')
  unfolding resolve_direction
  resolve_direction-notes (play a) h =
      elim (Bool-cases (has_reversed_suits variant || variant.sudoku)) [
        | inl moves ↦
            rw moves (direct_suit-notes (played_suit a.suit_index a.order s.deck) (rw moves at h))
        | inr fixed ↦ rw fixed (done n (rw fixed at h))
      ]
  resolve_direction-notes _ h = done n h

  pub resolve_start-notes :
      (action : GameAction)
      → resolve_start s action variant ≡ ok s'
      → resolve_start (with_notes n s) action variant ≡ ok (with_notes n s')
  unfolding resolve_start
  resolve_start-notes (play a) h = elim (Bool-cases variant.sudoku) [
    | inl sudoku ↦
        rw sudoku (start_suit-notes (played_suit a.suit_index a.order s.deck) (rw sudoku at h))
    | inr fixed ↦ rw fixed (done n (rw fixed at h))
  ]
  resolve_start-notes _ h = done n h

  pub resolve_statuses-notes :
      (action : GameAction)
      → resolve_statuses s action variant ≡ ok s'
      → resolve_statuses (with_notes n s) action variant ≡ ok (with_notes n s')
  unfolding resolve_statuses update_statuses
  resolve_statuses-notes action h = elim (Bool-cases (changes_statuses action)) [
    | inl changes ↦
        let (statuses, k, h₁) =
          >>=-eq-ok (update_statuses s variant (all_identities variant) s.card_status)
            (λ statuses. ok (record s { card_status = statuses })) (rw changes at h) in
        rw changes (>>=-ok _ (same-statuses (all_identities variant) s.card_status ∙ k) (done n h₁))
    | inr fixed ↦ rw fixed (done n (rw fixed at h))
  ]
    where
      same-statuses :
          (tuples : List SuitRankTuple) (statuses : ℕ → ℕ → Option CardStatus)
          → update_statuses (with_notes n s) variant tuples statuses
            ≡ update_statuses s variant tuples statuses
      same-statuses [] statuses = refl
      same-statuses ((suit_index, rank) ∷ tuples) statuses =
          ap
            (λ (next : CardStatus → Result (ℕ → ℕ → Option CardStatus)).
              get_card_status suit_index rank s.deck (stacks_of s) variant >>= next)
            (fun_ext λ status. same-statuses tuples _)

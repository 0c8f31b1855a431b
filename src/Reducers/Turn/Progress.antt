-- ===== src/Reducers/Turn/Progress.antt =====
-- How reducers/turnReducer.ts moves a game on.
use hanabi_live.Prelude.{ℕ, ◌+◌, ◌<◌, ◌≡◌, refl, ◌⊎◌, inl, Option, none, some, arith}
use mathlib.Core.Path.{subst}
use hanabi_live.Result.{ok, >>=-eq-ok}
use hanabi_live.Types.Action.{
  ActionGameOver, GameAction, clue, discard, draw, game_over, play, player_times,
}
use hanabi_live.Types.Game.{GameMetadata, TurnState, GameState, CharacterName, to_number}
use hanabi_live.Rules.Characters.{get_character_name_for_player}
use hanabi_live.Reducers.Turn.{
  turn_after_game_over, turn_after_player_times, turn_switch, turn_reducer,
}
use hanabi_live.Reducers.Turn.Deal.{Follows, turn_reducer-none}
use hanabi_live.Reducers.Turn.Moves.{
  Moves, Moves-same_turn, turn_after_play-Moves, turn_after_discard-Moves, turn_after_clue-Moves,
  turn_after_draw-Moves,
}

turn_after_game_over-Moves :
    (metadata : GameMetadata) (t : TurnState) (a : ActionGameOver) (t' : TurnState)
    → turn_after_game_over a t ≡ ok t'
    → Moves metadata t t'
unfolding turn_after_game_over
turn_after_game_over-Moves metadata t a t' h = record {
  player = λ valid p q. ground arith;
  segment = λ k q. ground arith;
  turn_num = ground arith;
  end_turn_num = λ e q. ground arith;
}

turn_after_player_times-Moves :
    (metadata : GameMetadata) (t t' : TurnState)
    → turn_after_player_times t ≡ ok t'
    → Moves metadata t t'
unfolding turn_after_player_times
turn_after_player_times-Moves metadata t t' h = record {
  player = λ valid p q. ground (arith, valid p);
  segment = λ k q. ground arith;
  turn_num = ground arith;
  end_turn_num = λ e q. ground arith;
}

turn_switch-Moves :
    (metadata : GameMetadata) (t : TurnState) (action : GameAction) (name : CharacterName)
    (s : GameState) (t' : TurnState)
    → turn_switch action t name s metadata ≡ ok t'
    → Moves metadata t t'
turn_switch-Moves metadata t (play a) name s t' h = turn_after_play-Moves metadata t name s t' h
turn_switch-Moves metadata t (discard a) name s t' h =
    turn_after_discard-Moves metadata t name s a t' h
turn_switch-Moves metadata t (clue a) name s t' h = turn_after_clue-Moves metadata t name s t' h
turn_switch-Moves metadata t (draw a) name s t' h = turn_after_draw-Moves metadata t name s t' h
turn_switch-Moves metadata t (game_over a) name s t' h =
    turn_after_game_over-Moves metadata t a t' h
turn_switch-Moves metadata t (player_times a) name s t' h =
    turn_after_player_times-Moves metadata t t' h
turn_switch-Moves metadata t _ name s t' h =
    let same : t ≡ t' = cc in
    subst (λ v. Moves metadata t v) same
      (Moves-same_turn metadata t t refl refl refl (λ k e. inl e))

turn_reducer-Moves :
    (metadata : GameMetadata) (t : TurnState) (action : GameAction) (s : GameState) (t' : TurnState)
    → turn_reducer t action s metadata ≡ ok t'
    → Moves metadata t t'
unfolding turn_reducer
turn_reducer-Moves metadata t action s t' h =
    let (name, _, e) =
      >>=-eq-ok
        (get_character_name_for_player t.current_player_index metadata.character_assignments)
        (λ name. turn_switch action t name s metadata) h in
    turn_switch-Moves metadata t action name s t' e

-- A player of the game, or nobody.
abbrev pub IsPlayer : ℕ → Option ℕ → Type 0
IsPlayer n none = Unit
IsPlayer n (some p) = p < n

IsPlayer-some : (n : ℕ) (o : Option ℕ) → IsPlayer n o → (p : ℕ) → o ≡ some p → p < n
IsPlayer-some n none h p e = cc
IsPlayer-some n (some q) h p e = ground arith

some-IsPlayer : (n : ℕ) (o : Option ℕ) → ((p : ℕ) → o ≡ some p → p < n) → IsPlayer n o
some-IsPlayer n none h = tt
some-IsPlayer n (some q) h = h q refl

module _ (metadata : GameMetadata) (t : TurnState) (action : GameAction) (s : GameState)
    (t' : TurnState) (returns : turn_reducer t action s metadata ≡ ok t') where
  -- Whatever the action, if the turn reducer does not throw and the current player was a player of the
  -- game or nobody, then so is the current player afterwards.
  pub turn_reducer-IsPlayer :
      IsPlayer (to_number metadata.options.num_players) t.current_player_index
      → IsPlayer (to_number metadata.options.num_players) t'.current_player_index
  turn_reducer-IsPlayer h = some-IsPlayer _ t'.current_player_index (
      (turn_reducer-Moves metadata t action s t' returns).player
        (IsPlayer-some _ t.current_player_index h))

  turn_reducer-Follows : (segment : Option ℕ) → t.segment ≡ segment → Follows segment t'.segment
  turn_reducer-Follows none e = turn_reducer-none metadata t action s t' e returns
  turn_reducer-Follows (some segment) e =
      (turn_reducer-Moves metadata t action s t' returns).segment segment e

  -- Whatever the action, if the turn reducer does not throw, the turn number stays or grows by one;
  -- the segment stays or grows by one, and where there is none yet, there is none still or it is 0.
  pub turn_reducer-steps :
      ((t'.turn_num ≡ t.turn_num) ⊎ (t'.turn_num ≡ t.turn_num + 1)) × Follows t.segment t'.segment
  turn_reducer-steps = (
    (turn_reducer-Moves metadata t action s t' returns).turn_num,
    turn_reducer-Follows t.segment refl,
  )

  -- Whatever the action, if the turn reducer does not throw, the number of the last turn stays as it is
  -- once it is set: later draws and plays do not put off the end of the game.
  pub turn_reducer-end_turn_num :
      (last : ℕ) → t.end_turn_num ≡ some last → t'.end_turn_num ≡ some last
  turn_reducer-end_turn_num last e =
      (turn_reducer-Moves metadata t action s t' returns).end_turn_num last e

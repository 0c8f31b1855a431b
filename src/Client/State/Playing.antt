-- ===== src/Client/State/Playing.antt =====
-- stateReducer.ts: actions that come one at a time, and the fold over all of them
use hanabi_live.Prelude.{◌≡◌, ◌∙◌, refl, sym, ap, Option, List, [], ◌∷◌, ◌++◌, map}
use mathlib.Core.List.{append_assoc, append-nil}
use mathlib.Core.Path.{subst}
use hanabi_live.Result.{Result, ok, >>=-eq-ok, ◌>>=◌}
use hanabi_live.Types.Action.{GameAction}
use hanabi_live.Types.Game.{GameState}
use hanabi_live.Reducers.Game.Reducer.{game_reducer}
use hanabi_live.Client.State.{Reduced, reduce_step}
use hanabi_live.Client.State.Recorded.{IsRecorded, reduce_step-IsRecorded}
use hanabi_live.Client.State.Actions.{
  State, GameEvent, game, with_game, play_on, state_switch, state_reducer, view_of,
  visual_state_to_show,
}

-- The actions of an ongoing game, one after the other.
abbrev pub play_all : State → List GameEvent → Result State
play_all s [] = ok s
play_all s (event ∷ events) = do next ← state_reducer s (game event); play_all next events

abbrev pub action_of : GameEvent → GameAction
action_of event = event.0

abbrev pub reduced_of : State → Reduced
reduced_of s = record { game = s.ongoing_game; states = s.replay.states }

-- What one action of the game leaves as it is, and what it adds.
pub record Plays (s s' : State) (action : GameAction) : Type 0 where
  pub view : view_of s' ≡ view_of s
  pub metadata : s'.metadata ≡ s.metadata
  pub actions : s'.replay.actions ≡ s.replay.actions ++ action ∷ []
  pub next : GameState
  pub reduces : game_reducer s.ongoing_game action (view_of s) s.metadata ≡ ok next
  pub reduced : reduced_of s' ≡ reduce_step (reduced_of s) next action

shown : State → Option GameState → State
shown s visible = record s { visible_state = visible }

with_game-Plays :
    (s : State) (action : GameAction) (next : GameState) (visible : Option GameState)
    → game_reducer s.ongoing_game action (view_of s) s.metadata ≡ ok next
    → Plays s (shown (with_game s next action) visible) action
unfolding shown
with_game-Plays s action next visible e = record {
  view = refl;
  metadata = refl;
  actions = refl;
  next = next;
  reduces = e;
  reduced = refl;
}

pub state_reducer-Plays :
    (s s' : State) (event : GameEvent) → state_reducer s (game event) ≡ ok s' → Plays s s' event.0
unfolding state_reducer state_switch play_on shown
state_reducer-Plays s s' event h =
    let action = event.0 in
    let (played, e, h₁) = >>=-eq-ok (play_on s action) _ h in
    let (next, e₁, h₂) =
      >>=-eq-ok (game_reducer s.ongoing_game action (view_of s) s.metadata) _ e in
    let (visible, _, h₃) = >>=-eq-ok (visual_state_to_show played (game event)) _ h₁ in
    let is_played : with_game s next action ≡ played = ok-eq h₂ in
    let is_shown : shown played visible ≡ s' = ok-eq h₃ in
    subst (λ (x : State). Plays s x action)
      (ap (λ (x : State). shown x visible) is_played ∙ is_shown)
      (with_game-Plays s action next visible e₁)
  where
    ok-eq : {x y : State} → ok x ≡ ok y → x ≡ y
    ok-eq e = cc

-- A client that has recorded a state for every segment so far and gets the actions of the game one at a
-- time, none of which throws: it has still recorded a state for every segment up to the one that the
-- game has come to, and its replay has the new actions after the old ones, in their order.
pub play_all-IsRecorded :
    (events : List GameEvent) (s s' : State)
    → IsRecorded s.ongoing_game.turn.segment s.replay.states
    → play_all s events ≡ ok s'
    → IsRecorded s'.ongoing_game.turn.segment s'.replay.states
      × (s'.replay.actions ≡ s.replay.actions ++ map action_of events)
play_all-IsRecorded [] s s' recorded h =
    let same : s ≡ s' = cc in
    (
      subst (λ (x : State). IsRecorded x.ongoing_game.turn.segment x.replay.states) same recorded,
      ap (λ (x : State). x.replay.actions) (sym same) ∙ sym (append-nil s.replay.actions),
    )
play_all-IsRecorded (event ∷ events) s s' recorded h =
    let (next, e, h') = >>=-eq-ok (state_reducer s (game event)) _ h in
    let plays = state_reducer-Plays s next event e in
    let (kept, log) =
      play_all-IsRecorded events next s'
        (subst (λ (r : Reduced). IsRecorded r.game.turn.segment r.states) (sym plays.reduced)
          (reduce_step-IsRecorded event.0 (reduced_of s) plays.next (view_of s) s.metadata recorded
            plays.reduces))
        h' in
    (
      kept,
      log
          ∙ ap (λ (actions : List GameAction). actions ++ map action_of events) plays.actions
          ∙ append_assoc s.replay.actions (event.0 ∷ []) (map action_of events),
    )

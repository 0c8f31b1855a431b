-- ===== src/Reducers/Game/Reducer/Turns.antt =====
-- The turn through one action of `gameReducer` in reducers/gameReducer.ts.
use hanabi_live.Prelude.{◌≡◌, ◌∙◌, sym, ap, inl, inr, true, Bool-cases}
use mathlib.Core.Path.{subst}
use hanabi_live.Result.{ok, >>=-eq-ok}
use hanabi_live.Types.Action.{GameAction, note_list, receive_note}
use hanabi_live.Types.Game.{GameMetadata, GameState, TurnState}
use hanabi_live.Rules.DoubleDiscard.{stacks_of}
use hanabi_live.Reducers.Stats.{Perspective, stats_reducer}
use hanabi_live.Reducers.Marks.{dda_reducer, known_trash_reducer}
use hanabi_live.Reducers.Cards.Reducer.{cards_reducer}
use hanabi_live.Reducers.Turn.{turn_reducer}
use hanabi_live.Reducers.Turn.Progress.{turn_reducer-steps}
use hanabi_live.Reducers.Turn.Deal.{Follows, Follows-self}
use hanabi_live.Reducers.Game.Actions.{game_switch}
use hanabi_live.Reducers.Game.Reducer.{
  game_reducer, derive_state, is_ignored, resolve_direction, resolve_start, resolve_statuses,
}

turn-ok : {s s' : GameState} → ok s ≡ ok s' → s'.turn ≡ s.turn
turn-ok {s} {s'} h = ap (λ (x : GameState). x.turn) (let same : s' ≡ s = cc in same)

derive_state-turn :
    (previous s s' : GameState) (action : GameAction) (view : Perspective) (metadata : GameMetadata)
    → derive_state previous s action view metadata ≡ ok s'
    → (judged : GameState) × (turn_reducer previous.turn action judged metadata ≡ ok s'.turn)
unfolding derive_state
derive_state-turn previous s s' action view metadata h =
    let variant = metadata.variant in
    let (deck, _, h₁) = >>=-eq-ok (cards_reducer previous.deck action s metadata) _ h in
    let (directed, e₁, h₂) =
      >>=-eq-ok (resolve_direction (record s { deck = deck }) action variant) _ h₁ in
    let (started, e₂, h₃) = >>=-eq-ok (resolve_start directed action variant) _ h₂ in
    let (judged, e₃, h₄) = >>=-eq-ok (resolve_statuses started action variant) _ h₃ in
    let (next, e₄, h₅) = >>=-eq-ok (turn_reducer previous.turn action judged metadata) _ h₄ in
    let turned : GameState = record judged { turn = next } in
    let (stats, _, h₆) =
      >>=-eq-ok (stats_reducer previous.stats action previous turned view metadata) _ h₅ in
    let (marked, _, h₇) =
      >>=-eq-ok (dda_reducer turned.deck stats.double_discard_card next.current_player_index) _
        h₆ in
    let (known, _, h₈) = >>=-eq-ok (known_trash_reducer marked (stacks_of turned) variant) _ h₇ in
    (judged, e₄ ∙ ap ok (sym (turn-ok h₈)))

is_ignored-switch :
    (s switched : GameState) (action : GameAction) (view : Perspective) (metadata : GameMetadata)
    → is_ignored action ≡ true
    → game_switch s action view metadata ≡ ok switched
    → switched.turn ≡ s.turn
unfolding game_switch
is_ignored-switch s switched note_list view metadata e h = turn-ok h
is_ignored-switch s switched receive_note view metadata e h = turn-ok h
is_ignored-switch s switched _ view metadata e h = cc

pub game_reducer-Follows :
    (s s' : GameState) (action : GameAction) (view : Perspective) (metadata : GameMetadata)
    → game_reducer s action view metadata ≡ ok s'
    → Follows s.turn.segment s'.turn.segment
unfolding game_reducer
game_reducer-Follows s s' action view metadata h =
    let (switched, k₁, h₁) = >>=-eq-ok (game_switch s action view metadata) _ h in
    elim (Bool-cases (is_ignored action)) [
      | inl ignored ↦
          subst (λ (t : TurnState). Follows s.turn.segment t.segment)
            (sym (
              turn-ok {s = switched} {s' = s'} (rw ignored at h₁)
              ∙ is_ignored-switch s switched action view metadata ignored k₁))
            (Follows-self s.turn.segment)
      | inr derived ↦
          let (judged, e) =
            derive_state-turn s switched s' action view metadata (rw derived at h₁) in
          (turn_reducer-steps metadata s.turn action judged s'.turn e).1
    ]

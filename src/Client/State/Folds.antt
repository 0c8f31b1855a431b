-- ===== src/Client/State/Folds.antt =====
-- stateReducer.ts: the fold over the actions of a game, and the states that it records by segment
use hanabi_live.Prelude.{ℕ, ◌+◌, ◌≡◌, ap, arith, List, [], ◌∷◌}
use hanabi_live.Result.{ok, >>=-eq-ok}
use hanabi_live.Types.Action.{GameAction}
use hanabi_live.Types.Game.{GameMetadata, GameState}
use hanabi_live.Reducers.Game.Piles.Conservation.{on_piles}
use hanabi_live.Reducers.Game.Reducer.{game_reducer}
use hanabi_live.Reducers.Game.Reducer.Orders.{IsPossible, drawn, game_reducer-on_piles}
use hanabi_live.Reducers.Initial.{get_initial_game_state}
use hanabi_live.Reducers.Initial.Empty.{get_initial_game_state-on_piles}
use hanabi_live.Client.State.{
  Reduced, Viewer, fold_view, reduce_step, reduce_from, reduce_game_actions,
}

-- Actions that are possible one after the other, each in the state that those before it lead to.
abbrev pub ArePossible : GameState → List GameAction → Viewer → GameMetadata → Type 0
ArePossible s [] viewer metadata = Unit
ArePossible s (action ∷ actions) viewer metadata =
    IsPossible s action
    × ((next : GameState)
        → game_reducer s action (fold_view viewer) metadata ≡ ok next
        → ArePossible next actions viewer metadata)

-- How often the actions draw a card.
abbrev pub times_drawn : List GameAction → ℕ → ℕ
times_drawn [] o = 0
times_drawn (action ∷ actions) o = drawn action o + times_drawn actions o

reduce_from-on_piles :
    (o : ℕ) (actions : List GameAction) (r r' : Reduced) (viewer : Viewer) (metadata : GameMetadata)
    → ArePossible r.game actions viewer metadata
    → reduce_from r actions viewer metadata ≡ ok r'
    → on_piles o r'.game ≡ on_piles o r.game + times_drawn actions o
unfolding reduce_from
reduce_from-on_piles o [] r r' viewer metadata possible h =
    let same : r' ≡ r = cc in omega (arith, ap (λ (x : Reduced). on_piles o x.game) same)
reduce_from-on_piles o (action ∷ actions) r r' viewer metadata (possible, rest) h =
    let (next, e, h') = >>=-eq-ok (game_reducer r.game action (fold_view viewer) metadata) _ h in
    omega (
      arith,
      game_reducer-on_piles o r.game next action (fold_view viewer) metadata possible e,
      reduce_from-on_piles o actions (reduce_step r next action) r' viewer metadata (rest next e)
          h',
    )

-- From the initial state of a game, if the actions are possible one after the other and the fold does
-- not throw: a card stands on the hands, the stacks and the hole together as often as it was drawn.
pub reduce_game_actions-on_piles :
    (o : ℕ) (metadata : GameMetadata) (viewer : Viewer) (actions : List GameAction)
    (initial : GameState) (r : Reduced)
    → get_initial_game_state metadata ≡ ok initial
    → ArePossible initial actions viewer metadata
    → reduce_game_actions actions initial viewer metadata ≡ ok r
    → on_piles o r.game ≡ times_drawn actions o
unfolding reduce_game_actions
reduce_game_actions-on_piles o metadata viewer actions initial r is_initial possible h = omega (
  arith,
  get_initial_game_state-on_piles o metadata initial is_initial,
  reduce_from-on_piles o actions _ r viewer metadata possible h,
)

-- ===== src/Reducers/Planning/Drawn.antt =====
-- packages/game/src/hypotheticalState.ts: a draw leaves the hands of the other players as they are.
use hanabi_live.Prelude.{
  ℕ, zero, suc, ◌+◌, ◌≡◌, ◌∙◌, refl, ap, Bool, false, not, List, [], ◌∷◌, ◌++◌, Bool-cases,
  Option-cases, inl, inr, get_elem?, set, includes, ◌==◌, ◌&&◌, ◌||◌, arith,
}
use mathlib.Core.Path.{subst}
use hanabi_live.Prelude.Int.{pos, ◌-ℤ◌}
use hanabi_live.Result.{ok, >>=-eq-ok}
use hanabi_live.Types.Action.{ActionDraw, draw}
use hanabi_live.Types.Game.{GameMetadata, GameState}
use hanabi_live.Rules.Deck.{is_initial_deal_finished}
use hanabi_live.Reducers.Stats.{Perspective}
use hanabi_live.Reducers.Game.Actions.{give_to, game_after_draw, game_switch}
use hanabi_live.Reducers.Game.Reducer.{game_reducer}
use hanabi_live.Reducers.Game.Reducer.Table.{Table, derive_state-table_of}
use hanabi_live.Reducers.Hypothetical.{
  HypotheticalState, including, game_action, is_held_by_another, is_dropped, apply_game_action,
  hypothetical_state_reducer, hypothetical_view, store, record_draw,
}

-- The draw of a player leaves the hands of the others as they are.
is_held_by_another-set :
    (index player order place : ℕ) (hands : List (List ℕ)) (hand : List ℕ)
    → place + index ≡ player
    → is_held_by_another index player order (set hands place hand)
      ≡ is_held_by_another index player order hands
is_held_by_another-set index player order place [] hand e = refl
is_held_by_another-set index player order zero (x ∷ hands) hand e = ground (arith, e)
is_held_by_another-set index player order (suc place) (x ∷ hands) hand e =
    ap (λ (b : Bool). not (index == player) && includes x order || b)
      (is_held_by_another-set (index + 1) player order place hands hand (omega (arith, e)))

is_held_by_another-give_to :
    (player order drawn : ℕ) (hands : List (List ℕ))
    → is_held_by_another 0 player order (give_to hands player drawn)
      ≡ is_held_by_another 0 player order hands
is_held_by_another-give_to player order drawn hands = elim (Option-cases (get_elem? hands player)) [
  | inl e ↦ ground (arith, e)
  | inr (hand, e) ↦ ground (
    arith,
    e,
    is_held_by_another-set 0 player order player hands (hand ++ drawn ∷ []) (omega arith),
  )
]

game_reducer-draw :
    (s s' : GameState) (a : ActionDraw) (view : Perspective) (metadata : GameMetadata)
    → game_reducer s (draw a) view metadata ≡ ok s'
    → s'.hands ≡ give_to s.hands a.player_index a.order
unfolding game_reducer game_switch game_after_draw
game_reducer-draw s s' a view metadata h =
    let (switched, e, h₁) = >>=-eq-ok (game_after_draw s a metadata) _ h in
    let (finished, e₁, h₂) =
      >>=-eq-ok (is_initial_deal_finished (s.cards_remaining_in_the_deck -ℤ pos 1) metadata) _ e in
    ap (λ (t : Table). t.hands) (derive_state-table_of s switched s' (draw a) view metadata h₁)
    ∙ elim (Bool-cases finished) [
      | inl done ↦ hands-ok (rw done at h₂)
      | inr dealing ↦ hands-ok (rw dealing at h₂)
    ]
  where
    hands-ok : {x y : GameState} → ok x ≡ ok y → y.hands ≡ x.hands
    hands-ok {x} {y} k = ap (λ (z : GameState). z.hands) (let same : y ≡ x = cc in same)

-- The draw of a plan in the hypothetical reducer, whether it is dropped or not.
pub drawn-free :
    (h h' : HypotheticalState) (a : ActionDraw) (order : ℕ) (finished : Bool)
    (metadata : GameMetadata)
    → is_held_by_another 0 a.player_index order h.ongoing.hands ≡ false
    → hypothetical_state_reducer h (including (game_action (draw a))) finished metadata ≡ ok h'
    → is_held_by_another 0 a.player_index order h'.ongoing.hands ≡ false
unfolding hypothetical_state_reducer apply_game_action
drawn-free h h' a order finished metadata free e =
    elim (Bool-cases (is_dropped (draw a) h.ongoing)) [
      | inl dropped ↦
          let same : h ≡ h' = let k : ok h ≡ ok h' = rw dropped at e in cc in
          subst
            (λ (x : HypotheticalState).
              is_held_by_another 0 a.player_index order x.ongoing.hands ≡ false)
            same free
      | inr kept ↦
          let noted = record_draw (draw a) h in
          let (next, k, k') =
            >>=-eq-ok (game_reducer noted.ongoing (draw a) (hypothetical_view finished) metadata) _
              (rw kept at e) in
          let same : store noted next ≡ h' = cc in
          subst
            (λ (x : HypotheticalState).
              is_held_by_another 0 a.player_index order x.ongoing.hands ≡ false)
            same
            (ap (is_held_by_another 0 a.player_index order)
                (game_reducer-draw h.ongoing next a (hypothetical_view finished) metadata k)
              ∙ is_held_by_another-give_to a.player_index order a.order h.ongoing.hands
              ∙ free)
    ]

-- ===== src/Reducers/Game/Reducer/Orders.antt =====
-- The cards on the table through one action of `gameReducer` in reducers/gameReducer.ts.
use hanabi_live.Prelude.{
  ℕ, zero, suc, ◌+◌, ◌<◌, ◌≡◌, refl, sym, Bool, true, none, some, List, get_elem?, includes, arith,
  ap, Bool-cases, inl, inr, ◌==◌, length, Option-cases, count, ◌++◌, ◌∷◌, [],
}
use hanabi_live.Prelude.Int.{pos, ◌-ℤ◌}
use hanabi_live.Result.{ok, assert_defined, no_segment, no_hand, no_card, >>=-eq-ok}
use hanabi_live.Types.Action.{
  ActionClue, ActionDiscard, ActionDraw, ActionPlay, GameAction, clue, discard, draw, game_over,
  play, player_times, strike, played, discarded,
}
use hanabi_live.Types.Game.{GameMetadata, GameState}
use hanabi_live.Prelude.Int.{ℤ}
use hanabi_live.Reducers.Stats.{Perspective}
use hanabi_live.Rules.Deck.{is_initial_deal_finished}
use hanabi_live.Reducers.Game.Piles.{remove_from_hand, lay_down, card_cycle}
use hanabi_live.Reducers.Game.Piles.Conservation.{
  on_piles, one_if, count_all, count_all-set, count-snoc, count-card_cycle,
  remove_from_hand-on_piles, lay_down-on_piles,
}
use hanabi_live.Reducers.Game.Actions.{
  game_switch, game_after_clue, game_after_discard, game_after_draw, game_after_play,
  game_after_player_times, log_times, push_log, is_critical_and_needed, game_after_game_over,
  game_after_strike,
}
use hanabi_live.Reducers.Game.Reducer.{game_reducer, is_ignored}
use hanabi_live.Reducers.Game.Reducer.Table.{Table, derive_state-table_of}

-- The player holds the card.
abbrev pub Holds : GameState → ℕ → ℕ → Type 0
Holds s player order =
    (hand : List ℕ) × (get_elem? s.hands player ≡ some hand) × (includes hand order ≡ true)

-- What the server sends: a card is played or discarded from the hand that holds it, and drawn by a
-- player of the game.
abbrev pub IsPossible : GameState → GameAction → Type 0
IsPossible s (play a) = Holds s a.player_index a.order
IsPossible s (discard a) = Holds s a.player_index a.order
IsPossible s (draw a) = a.player_index < length s.hands
IsPossible s _ = Unit

abbrev pub drawn : GameAction → ℕ → ℕ
drawn (draw a) o = one_if (a.order == o)
drawn _ o = 0

get_elem?-none : (xss : List (List ℕ)) (i : ℕ) → get_elem? xss i ≡ none → ¬ (i < length xss)
get_elem?-none [] i e h = omega arith
get_elem?-none (x ∷ xss) zero e h = cc
get_elem?-none (x ∷ xss) (suc i) e h = get_elem?-none xss i e (omega arith)

module _ (o : ℕ) (s s' : GameState) (view : Perspective) (metadata : GameMetadata) where
  game_after_play-on_piles :
      (a : ActionPlay)
      → Holds s a.player_index a.order
      → game_after_play s a view metadata ≡ ok s'
      → on_piles o s' ≡ on_piles o s
  unfolding game_after_play
  game_after_play-on_piles a (hand, e, held) h =
      let ((removed, slot), k₁, h₁) = >>=-eq-ok (remove_from_hand s a.player_index a.order) _ h in
      let (laid, k₂, h₂) = >>=-eq-ok (lay_down (played a) removed metadata.variant view) _ h₁ in
      let (card, k₃, h₃) = >>=-eq-ok (assert_defined no_card (get_elem? laid.deck a.order)) _ h₂ in
      ground (
        arith,
        remove_from_hand-on_piles o s removed a.player_index a.order hand slot e held k₁,
        lay_down-on_piles o (played a) removed laid metadata.variant view k₂,
      )

  game_after_discard-on_piles :
      (a : ActionDiscard)
      → Holds s a.player_index a.order
      → game_after_discard s a view metadata ≡ ok s'
      → on_piles o s' ≡ on_piles o s
  unfolding game_after_discard
  game_after_discard-on_piles a (hand, e, held) h =
      let ((removed, slot), k₁, h₁) = >>=-eq-ok (remove_from_hand s a.player_index a.order) _ h in
      let (laid, k₂, h₂) = >>=-eq-ok (lay_down (discarded a) removed metadata.variant view) _ h₁ in
      let (card, k₃, h₃) = >>=-eq-ok (assert_defined no_card (get_elem? laid.deck a.order)) _ h₂ in
      let (critical, k₄, h₄) = >>=-eq-ok (is_critical_and_needed a laid metadata.variant) _ h₃ in
      ground (
        arith,
        remove_from_hand-on_piles o s removed a.player_index a.order hand slot e held k₁,
        lay_down-on_piles o (discarded a) removed laid metadata.variant view k₂,
      )

  game_after_clue-on_piles :
      (a : ActionClue) → game_after_clue s a view metadata ≡ ok s' → on_piles o s' ≡ on_piles o s
  unfolding game_after_clue
  game_after_clue-on_piles a h =
      let (segment, k₁, h₁) = >>=-eq-ok (assert_defined no_segment s.turn.segment) _ h in
      let (target, k₂, h₂) = >>=-eq-ok (assert_defined no_hand (get_elem? s.hands a.target)) _ h₁ in
      let (giver, k₃, h₃) = >>=-eq-ok (assert_defined no_hand (get_elem? s.hands a.giver)) _ h₂ in
      ground (
        arith,
        count_all-set o s.hands a.giver giver (card_cycle giver s.deck metadata),
        count-card_cycle o giver s.deck metadata,
      )

  game_after_draw-on_piles :
      (a : ActionDraw)
      → a.player_index < length s.hands
      → game_after_draw s a metadata ≡ ok s'
      → on_piles o s' ≡ on_piles o s + one_if (a.order == o)
  unfolding game_after_draw
  game_after_draw-on_piles a in_game h = elim (Option-cases (get_elem? s.hands a.player_index)) [
    | inl missing ↦ absurd (get_elem?-none s.hands a.player_index missing in_game)
    | inr (hand, e) ↦
        let (finished, k, h₁) =
          >>=-eq-ok (is_initial_deal_finished (s.cards_remaining_in_the_deck -ℤ pos 1) metadata) _
            h in
        ground (
          arith,
          count_all-set o s.hands a.player_index hand (hand ++ a.order ∷ []),
          count-snoc o a.order hand,
        )
  ]

abbrev on_table : ℕ → Table → ℕ
on_table o t =
    count_all o t.hands + count_all o t.play_stacks + count_all o t.discard_stacks + count o t.hole

log_times-on_piles :
    (o player : ℕ) (s : GameState) (times : List ℤ) (timed : Bool)
    → on_piles o (log_times s player times timed) ≡ on_piles o s
unfolding log_times
log_times-on_piles o player s [] timed = refl
log_times-on_piles o player s (time ∷ times) timed =
    log_times-on_piles o (player + 1) (push_log s _) times timed

on_piles-ok : (o : ℕ) {s s' : GameState} → ok s ≡ ok s' → on_piles o s' ≡ on_piles o s
on_piles-ok o {s} {s'} h = ap (on_piles o) (let same : s ≡ s' = cc in sym same)

game_switch-on_piles :
    (o : ℕ) (s s' : GameState) (action : GameAction) (view : Perspective) (metadata : GameMetadata)
    → IsPossible s action
    → game_switch s action view metadata ≡ ok s'
    → on_piles o s' ≡ on_piles o s + drawn action o
unfolding game_switch
game_switch-on_piles o s s' (play a) view metadata p h =
    omega (arith, game_after_play-on_piles o s s' view metadata a p h)
game_switch-on_piles o s s' (discard a) view metadata p h =
    omega (arith, game_after_discard-on_piles o s s' view metadata a p h)
game_switch-on_piles o s s' (clue a) view metadata p h =
    omega (arith, game_after_clue-on_piles o s s' view metadata a h)
game_switch-on_piles o s s' (draw a) view metadata p h =
    game_after_draw-on_piles o s s' view metadata a p h
game_switch-on_piles o s s' (game_over a) view metadata p h =
    unfold game_after_game_over in omega (arith, on_piles-ok o h)
game_switch-on_piles o s s' (player_times a) view metadata p h =
    unfold game_after_player_times in
    omega (arith, on_piles-ok o h, log_times-on_piles o 0 s a.player_times metadata.options.timed)
game_switch-on_piles o s s' (strike a) view metadata p h =
    unfold game_after_strike in omega (arith, on_piles-ok o h)
game_switch-on_piles o s s' _ view metadata p h = omega (arith, on_piles-ok o h)

-- Whatever the action, if a played or discarded card is in the hand of its player, a drawing
-- player has a hand, and `game_reducer` does not throw: every order stands as often on the hands,
-- the stacks and the hole together as before, except that a draw adds the drawn order once.
pub game_reducer-on_piles :
    (o : ℕ) (s s' : GameState) (action : GameAction) (view : Perspective) (metadata : GameMetadata)
    → IsPossible s action
    → game_reducer s action view metadata ≡ ok s'
    → on_piles o s' ≡ on_piles o s + drawn action o
unfolding game_reducer
game_reducer-on_piles o s s' action view metadata p h =
    let (switched, k₁, h₁) = >>=-eq-ok (game_switch s action view metadata) _ h in
    elim (Bool-cases (is_ignored action)) [
      | inl ignored ↦ omega (
        arith,
        on_piles-ok o {s = switched} {s' = s'} (rw ignored at h₁),
        game_switch-on_piles o s switched action view metadata p k₁,
      )
      | inr derived ↦ omega (
        arith,
        ap (on_table o)
            (derive_state-table_of s switched s' action view metadata (rw derived at h₁)),
        game_switch-on_piles o s switched action view metadata p k₁,
      )
    ]

-- ===== src/Reducers/Game/Reducer/Counters.antt =====
-- The counters of the game through one action of `gameReducer` in reducers/gameReducer.ts.
use hanabi_live.Prelude.{
  ℕ, ◌+◌, ◌≡◌, refl, sym, ◌∙◌, Bool, List, get_elem?, arith, ap, Bool-cases, inl, inr, length, ◌∷◌,
  [], length-append,
}
use mathlib.Core.Path.{subst}
use hanabi_live.Prelude.Int.{ℤ, pos, ◌-ℤ◌, ◌≤ℤ◌}
use hanabi_live.Result.{ok, assert_defined, no_segment, no_hand, no_card, >>=-eq-ok}
use hanabi_live.Types.Action.{
  ActionClue, ActionDiscard, ActionDraw, ActionPlay, GameAction, clue, discard, draw, game_over,
  play, player_times, strike, played, discarded,
}
use hanabi_live.Types.Game.{GameMetadata, GameState}
use hanabi_live.Types.Variant.{max_clue_num}
use hanabi_live.Rules.ClueTokens.{get_adjusted_clue_tokens}
use hanabi_live.Reducers.Stats.{Perspective}
use hanabi_live.Rules.Deck.{is_initial_deal_finished}
use hanabi_live.Reducers.Game.Piles.{remove_from_hand, lay_down}
use hanabi_live.Reducers.Game.Actions.{
  game_switch, game_after_clue, game_after_discard, game_after_draw, game_after_play,
  game_after_player_times, log_times, push_log, is_critical_and_needed, game_after_game_over,
  game_after_strike,
}
use hanabi_live.Reducers.Game.Reducer.{game_reducer, is_ignored}
use hanabi_live.Reducers.Game.Reducer.Table.{table_of, Table, derive_state-table_of}
use hanabi_live.Reducers.Game.Reducer.Moving.{
  next_score, cards_left, clues_given, strikes_given, Effect, state_of_ok, lay_down-MovesCard,
}

module _ (s s' : GameState) (view : Perspective) (metadata : GameMetadata) where
  game_after_play-Effect :
      (a : ActionPlay)
      → game_after_play s a view metadata ≡ ok s'
      → Effect (play a) metadata.variant (table_of s) (table_of s')
  unfolding game_after_play remove_from_hand
  game_after_play-Effect a h =
      let ((removed, slot), k₁, h₁) = >>=-eq-ok (remove_from_hand s a.player_index a.order) _ h in
      let (laid, k₂, h₂) = >>=-eq-ok (lay_down (played a) removed metadata.variant view) _ h₁ in
      let (card, k₃, h₃) = >>=-eq-ok (assert_defined no_card (get_elem? laid.deck a.order)) _ h₂ in
      let m = lay_down-MovesCard removed laid metadata.variant (played a) view k₂ in
      let (hand, k₄, h₄) =
        >>=-eq-ok (assert_defined no_hand (get_elem? s.hands a.player_index)) _ k₁ in
      record {
        score = ground (arith, m.score);
        cards_remaining = ground (arith, m.cards_remaining);
        clues = ground (arith, m.clues);
        strikes = ground (arith, m.strikes);
        clue_tokens = λ le. ground (arith, m.clue_tokens);
      }

  game_after_discard-Effect :
      (a : ActionDiscard)
      → game_after_discard s a view metadata ≡ ok s'
      → Effect (discard a) metadata.variant (table_of s) (table_of s')
  unfolding game_after_discard remove_from_hand
  game_after_discard-Effect a h =
      let ((removed, slot), k₁, h₁) = >>=-eq-ok (remove_from_hand s a.player_index a.order) _ h in
      let (laid, k₂, h₂) = >>=-eq-ok (lay_down (discarded a) removed metadata.variant view) _ h₁ in
      let (card, k₃, h₃) = >>=-eq-ok (assert_defined no_card (get_elem? laid.deck a.order)) _ h₂ in
      let (critical, k₅, h₅) = >>=-eq-ok (is_critical_and_needed a laid metadata.variant) _ h₃ in
      let m = lay_down-MovesCard removed laid metadata.variant (discarded a) view k₂ in
      let (hand, k₄, h₄) =
        >>=-eq-ok (assert_defined no_hand (get_elem? s.hands a.player_index)) _ k₁ in
      record {
        score = ground (arith, m.score);
        cards_remaining = ground (arith, m.cards_remaining);
        clues = ground (arith, m.clues);
        strikes = ground (arith, m.strikes);
        clue_tokens = λ le. ground (arith, m.clue_tokens);
      }

  game_after_clue-Effect :
      (a : ActionClue)
      → game_after_clue s a view metadata ≡ ok s'
      → Effect (clue a) metadata.variant (table_of s) (table_of s')
  unfolding game_after_clue
  game_after_clue-Effect a h =
      let (segment, k₁, h₁) = >>=-eq-ok (assert_defined no_segment s.turn.segment) _ h in
      let (target, k₂, h₂) = >>=-eq-ok (assert_defined no_hand (get_elem? s.hands a.target)) _ h₁ in
      let (giver, k₃, h₃) = >>=-eq-ok (assert_defined no_hand (get_elem? s.hands a.giver)) _ h₂ in
      record {
        score = ground arith;
        cards_remaining = ground arith;
        clues = ap (λ (t : GameState). length t.clues) (state_of_ok h₃) ∙ length-append s.clues _;
        strikes = ground arith;
        clue_tokens = λ le. ground arith;
      }

  game_after_draw-Effect :
      (a : ActionDraw)
      → game_after_draw s a metadata ≡ ok s'
      → Effect (draw a) metadata.variant (table_of s) (table_of s')
  unfolding game_after_draw
  game_after_draw-Effect a h =
      let (finished, k, h₁) =
        >>=-eq-ok (is_initial_deal_finished (s.cards_remaining_in_the_deck -ℤ pos 1) metadata) _
          h in
      record {
        score = ground arith;
        cards_remaining = ground arith;
        clues = ground arith;
        strikes = ground arith;
        clue_tokens = λ le. ground arith;
      }

log_times-table_of :
    (player : ℕ) (s : GameState) (times : List ℤ) (timed : Bool)
    → table_of (log_times s player times timed)
      ≡ record (table_of s) { log = (log_times s player times timed).log }
unfolding log_times
log_times-table_of player s [] timed = refl
log_times-table_of player s (time ∷ times) timed =
    log_times-table_of (player + 1) (push_log s _) times timed

game_switch-Effect :
    (s s' : GameState) (action : GameAction) (view : Perspective) (metadata : GameMetadata)
    → game_switch s action view metadata ≡ ok s'
    → Effect action metadata.variant (table_of s) (table_of s')
unfolding game_switch
game_switch-Effect s s' (play a) view metadata h = game_after_play-Effect s s' view metadata a h
game_switch-Effect s s' (discard a) view metadata h =
    game_after_discard-Effect s s' view metadata a h
game_switch-Effect s s' (clue a) view metadata h = game_after_clue-Effect s s' view metadata a h
game_switch-Effect s s' (draw a) view metadata h = game_after_draw-Effect s s' view metadata a h
game_switch-Effect s s' (game_over a) view metadata h =
    unfold game_after_game_over in
    let same = state_of_ok h in
    record {
      score = ground arith;
      cards_remaining = ground arith;
      clues = ground arith;
      strikes = ground arith;
      clue_tokens = λ le. ground arith;
    }
game_switch-Effect s s' (player_times a) view metadata h =
    unfold game_after_player_times in
    let same = log_times-table_of 0 s a.player_times metadata.options.timed in
    record {
      score = ap (λ (t : GameState). t.score) (state_of_ok h) ∙ ap (λ (t : Table). t.score) same;
      cards_remaining =
          ap (λ (t : GameState). t.cards_remaining_in_the_deck) (state_of_ok h)
          ∙ ap (λ (t : Table). t.cards_remaining_in_the_deck) same;
      clues = ground (arith, ap (λ (t : Table). t.clues) same);
      strikes = ground (arith, ap (λ (t : Table). t.strikes) same);
      clue_tokens = λ le. ground (arith, ap (λ (t : Table). t.clue_tokens) same);
    }
game_switch-Effect s s' (strike a) view metadata h =
    unfold game_after_strike in
    record {
      score = ground arith;
      cards_remaining = ground arith;
      clues = ground arith;
      strikes =
          ap (λ (t : GameState). length t.strikes) (state_of_ok h) ∙ length-append s.strikes _;
      clue_tokens = λ le. ground arith;
    }
game_switch-Effect s s' _ view metadata h = record {
  score = ground arith;
  cards_remaining = ground arith;
  clues = ground arith;
  strikes = ground arith;
  clue_tokens = λ le. ground arith;
}

game_reducer-Effect :
    (s s' : GameState) (action : GameAction) (view : Perspective) (metadata : GameMetadata)
    → game_reducer s action view metadata ≡ ok s'
    → Effect action metadata.variant (table_of s) (table_of s')
unfolding game_reducer
game_reducer-Effect s s' action view metadata h =
    let (switched, k₁, h₁) = >>=-eq-ok (game_switch s action view metadata) _ h in
    let counts = game_switch-Effect s switched action view metadata k₁ in
    elim (Bool-cases (is_ignored action)) [
      | inl ignored ↦
          subst (λ (t : Table). Effect action metadata.variant (table_of s) t)
            (ap table_of (sym (state_of_ok (rw ignored at h₁)))) counts
      | inr derived ↦
          subst (λ (t : Table). Effect action metadata.variant (table_of s) t)
            (sym (derive_state-table_of s switched s' action view metadata (rw derived at h₁)))
            counts
    ]

-- The counters of a state after an action, from those of the state before it.
pub record Counted (action : GameAction) (t t' : Table) : Type 0 where
  pub score : t'.score ≡ next_score action t.score
  pub cards_remaining :
      t'.cards_remaining_in_the_deck ≡ cards_left action t.cards_remaining_in_the_deck
  pub clues : length t'.clues ≡ length t.clues + clues_given action
  pub strikes : length t'.strikes ≡ length t.strikes + strikes_given action

module _ (s s' : GameState) (action : GameAction) (view : Perspective) (metadata : GameMetadata)
    (returns : game_reducer s action view metadata ≡ ok s') where
  -- Whatever the action, if `game_reducer` does not throw: the score gains a point for a play, is 0
  -- after a game that ends in any but the normal way, and else stays; the remaining deck shrinks by
  -- one for a draw; a clue and a strike are recorded once.
  pub game_reducer-Counted : Counted action (table_of s) (table_of s')
  game_reducer-Counted =
      let e = game_reducer-Effect s s' action view metadata returns in
      record {
        score = e.score;
        cards_remaining = e.cards_remaining;
        clues = e.clues;
        strikes = e.strikes;
      }

  -- Whatever the action, if `game_reducer` does not throw: clue tokens that are at most the maximum of
  -- the variant stay at most the maximum.
  pub game_reducer-clue_tokens-le-max :
      s.clue_tokens ≤ℤ pos (get_adjusted_clue_tokens max_clue_num metadata.variant)
      → s'.clue_tokens ≤ℤ pos (get_adjusted_clue_tokens max_clue_num metadata.variant)
  game_reducer-clue_tokens-le-max h =
      (game_reducer-Effect s s' action view metadata returns).clue_tokens h

-- ===== src/Reducers/Game/Reducer/Moving.antt =====
-- What laying down a card changes of the counters, in reducers/gameReducer.ts.
use hanabi_live.Prelude.{
  ℕ, suc, ◌+◌, ◌≡◌, sym, false, get_elem?, arith, Bool-cases, inl, inr, ◌==◌, length, if◌then◌else◌,
  ◌++◌, ◌∷◌, [],
}
use hanabi_live.Prelude.Int.{ℤ, pos, ◌-ℤ◌, ◌≤ℤ◌}
use hanabi_live.Result.{
  ok, assert_defined, no_suit_index, no_play_stack, no_discard_stack, >>=-eq-ok,
}
use hanabi_live.Types.Action.{
  ActionDiscard, ActionPlay, GameAction, clue, draw, game_over, play, strike, CardAction, played,
  discarded,
}
use hanabi_live.Types.Game.{GameState}
use hanabi_live.Types.Variant.{Variant, max_clue_num}
use hanabi_live.Rules.ClueTokens.{get_adjusted_clue_tokens}
use hanabi_live.Rules.ClueTokens.Bounds.{get_new_clue_tokens_after_action-le-max}
use hanabi_live.Reducers.Cards.Reveal.{order_of}
use hanabi_live.Reducers.Stats.{Perspective}
use hanabi_live.Reducers.Game.Piles.{
  lay_down, put_on_play_stack, put_on_discard_stack, is_thrown_in_hole, put_on_stack, push_hole,
}
use hanabi_live.Reducers.Game.Actions.{is_normal}
use hanabi_live.Reducers.Game.Reducer.Table.{table_of, Table}

-- The score after an action: a point for a play, even into the hole, and none after a loss.
abbrev pub next_score : GameAction → ℕ → ℕ
next_score (play a) score = suc score
next_score (game_over a) score = if is_normal a.end_condition then score else 0
next_score _ score = score

abbrev pub cards_left : GameAction → ℤ → ℤ
cards_left (draw a) n = n -ℤ pos 1
cards_left _ n = n

abbrev pub clues_given : GameAction → ℕ
clues_given (clue a) = 1
clues_given _ = 0

abbrev pub strikes_given : GameAction → ℕ
strikes_given (strike a) = 1
strikes_given _ = 0

-- How the counters of a state follow those of the state before an action.
pub record Effect (action : GameAction) (variant : Variant) (t t' : Table) : Type 0 where
  pub score : t'.score ≡ next_score action t.score
  pub cards_remaining :
      t'.cards_remaining_in_the_deck ≡ cards_left action t.cards_remaining_in_the_deck
  pub clues : length t'.clues ≡ length t.clues + clues_given action
  pub strikes : length t'.strikes ≡ length t.strikes + strikes_given action
  pub clue_tokens :
      t.clue_tokens ≤ℤ pos (get_adjusted_clue_tokens max_clue_num variant)
      → t'.clue_tokens ≤ℤ pos (get_adjusted_clue_tokens max_clue_num variant)

-- What moving a card changes of the counters.
pub record MovesCard (variant : Variant) (t t' : Table) : Type 0 where
  pub score : t'.score ≡ t.score
  pub cards_remaining : t'.cards_remaining_in_the_deck ≡ t.cards_remaining_in_the_deck
  pub clues : t'.clues ≡ t.clues
  pub strikes : t'.strikes ≡ t.strikes
  pub clue_tokens :
      t.clue_tokens ≤ℤ pos (get_adjusted_clue_tokens max_clue_num variant)
      → t'.clue_tokens ≤ℤ pos (get_adjusted_clue_tokens max_clue_num variant)

pub state_of_ok : {s s' : GameState} → ok s ≡ ok s' → s' ≡ s
state_of_ok {s} {s'} h = let same : s ≡ s' = cc in sym same

module _ (s s' : GameState) (variant : Variant) where
  put_on_play_stack-MovesCard :
      (a : ActionPlay)
      → put_on_play_stack s a variant ≡ ok s'
      → MovesCard variant (table_of s) (table_of s')
  unfolding put_on_play_stack
  put_on_play_stack-MovesCard a h =
      let (i, _, h₁) = >>=-eq-ok (assert_defined no_suit_index a.suit_index) _ h in
      let (stack, _, h₂) =
        >>=-eq-ok (assert_defined no_play_stack (get_elem? s.play_stacks i)) _ h₁ in
      record {
        score = ground arith;
        cards_remaining = ground arith;
        clues = ground arith;
        strikes = ground arith;
        clue_tokens = λ le. ground (
          arith,
          get_new_clue_tokens_after_action-le-max (played a) s.clue_tokens variant
              (length (stack ++ a.order ∷ []) == variant.stack_size) le,
        );
      }

  put_on_discard_stack-MovesCard :
      (a : ActionDiscard)
      → put_on_discard_stack s a variant ≡ ok s'
      → MovesCard variant (table_of s) (table_of s')
  unfolding put_on_discard_stack
  put_on_discard_stack-MovesCard a h =
      let (i, _, h₁) = >>=-eq-ok (assert_defined no_suit_index a.suit_index) _ h in
      let (stack, _, h₂) =
        >>=-eq-ok (assert_defined no_discard_stack (get_elem? s.discard_stacks i)) _ h₁ in
      record {
        score = ground arith;
        cards_remaining = ground arith;
        clues = ground arith;
        strikes = ground arith;
        clue_tokens = λ le. ground (
          arith,
          get_new_clue_tokens_after_action-le-max (discarded a) s.clue_tokens variant false le,
        );
      }

  put_on_stack-MovesCard :
      (action : CardAction)
      → put_on_stack action s variant ≡ ok s'
      → MovesCard variant (table_of s) (table_of s')
  put_on_stack-MovesCard (played a) h = put_on_play_stack-MovesCard a h
  put_on_stack-MovesCard (discarded a) h = put_on_discard_stack-MovesCard a h

  pub lay_down-MovesCard :
      (action : CardAction) (view : Perspective)
      → lay_down action s variant view ≡ ok s'
      → MovesCard variant (table_of s) (table_of s')
  unfolding lay_down
  lay_down-MovesCard action view h = elim (Bool-cases (is_thrown_in_hole action variant view)) [
    | inl thrown ↦
        let same : push_hole s (order_of action) ≡ s' = cc (rw thrown at h) in
        record {
          score = ground arith;
          cards_remaining = ground arith;
          clues = ground arith;
          strikes = ground arith;
          clue_tokens = λ le. ground arith;
        }
    | inr laid ↦ put_on_stack-MovesCard action (rw laid at h)
  ]

-- ===== src/Reducers/Game/Piles.antt =====
-- reducers/gameReducer.ts: the moves of a card between the piles, and card cycling
pub mod Conservation
use hanabi_live.Prelude.{
  ℕ, ◌-◌, Bool, true, false, not, ◌&&◌, Option, none, some, List, [], ◌∷◌, ◌++◌, option_eq, ◌==◌,
  get_elem?, set, remove_at, index_of, length, if◌then◌else◌,
}
use hanabi_live.Result.{
  Result, ok, assert_defined, no_hand, no_suit_index, no_play_stack, no_discard_stack, ◌>>=◌,
}
use hanabi_live.Types.Variant.{Variant}
use hanabi_live.Types.Card.{CardState}
use hanabi_live.Types.Action.{CardAction, played, discarded, ActionPlay, ActionDiscard}
use hanabi_live.Types.Game.{GameMetadata, GameState}
use hanabi_live.Rules.ClueTokens.{get_new_clue_tokens_after_action}
use hanabi_live.Rules.Hand.{get_chop_index, last_index}
use hanabi_live.Reducers.Cards.Reveal.{order_of}
use hanabi_live.Reducers.Stats.{Perspective, is_watching_live}

-- The hand without the card, and the slot it was in. The deck itself can be misplayed, and then the
-- card is in no hand.
abbrev pub take_at : Option ℕ → List ℕ → List ℕ × Option ℕ
take_at none hand = (hand, none)
take_at (some i) hand = (remove_at hand i, some (length hand - i))

unfoldable pub take_from_hand : List ℕ → ℕ → List ℕ × Option ℕ
take_from_hand hand order = take_at (index_of hand order) hand

unfoldable pub remove_from_hand : GameState → ℕ → ℕ → Result (GameState × Option ℕ)
unfolding take_from_hand
remove_from_hand s player order = do
  hand ← assert_defined no_hand (get_elem? s.hands player)
  let taken = take_from_hand hand order
  ok (record s { hands = set s.hands player taken.0 }, taken.1)

abbrev pub goes_in_hole : CardAction → Bool
goes_in_hole (played a) = true
goes_in_hole (discarded a) = a.failed

-- Whether `throwItInAHolePlayedOrMisplayed` puts the card into the hole.
abbrev pub is_thrown_in_hole : CardAction → Variant → Perspective → Bool
is_thrown_in_hole action variant view =
    variant.throw_it_in_a_hole && is_watching_live view && not view.finished && goes_in_hole action

abbrev pub push_hole : GameState → ℕ → GameState
push_hole s order = record s { hole = s.hole ++ order ∷ [] }

unfoldable pub put_on_discard_stack : GameState → ActionDiscard → Variant → Result GameState
put_on_discard_stack s a variant = do
  suit_index ← assert_defined no_suit_index a.suit_index
  stack ← assert_defined no_discard_stack (get_elem? s.discard_stacks suit_index)
  ok (record s {
    discard_stacks = set s.discard_stacks suit_index (stack ++ a.order ∷ []);
    clue_tokens = get_new_clue_tokens_after_action (discarded a) s.clue_tokens variant false;
  })

unfoldable pub put_on_play_stack : GameState → ActionPlay → Variant → Result GameState
put_on_play_stack s a variant = do
  suit_index ← assert_defined no_suit_index a.suit_index
  stack ← assert_defined no_play_stack (get_elem? s.play_stacks suit_index)
  let stack' = stack ++ a.order ∷ []
  ok (record s {
    play_stacks = set s.play_stacks suit_index stack';
    clue_tokens =
        get_new_clue_tokens_after_action (played a) s.clue_tokens variant
          (length stack' == variant.stack_size);
  })

abbrev pub put_on_stack : CardAction → GameState → Variant → Result GameState
put_on_stack (played a) s variant = put_on_play_stack s a variant
put_on_stack (discarded a) s variant = put_on_discard_stack s a variant

-- The card goes into the hole, or on its stack.
unfoldable pub lay_down : CardAction → GameState → Variant → Perspective → Result GameState
unfolding put_on_play_stack put_on_discard_stack
lay_down action s variant view =
    if is_thrown_in_hole action variant view
    then ok (push_hole s (order_of action))
    else put_on_stack action s variant

-- `splice(i, 1)` and `push`
abbrev pub move_to_end : Option ℕ → List ℕ → List ℕ
move_to_end none hand = hand
move_to_end (some i) hand = elim (get_elem? hand i) [
  | none ↦ remove_at hand i
  | some order ↦ remove_at hand i ++ order ∷ []
]

unfoldable pub card_cycle : List ℕ → List CardState → GameMetadata → List ℕ
card_cycle hand deck metadata =
    if not metadata.options.card_cycle
    then hand
    else if option_eq (get_chop_index hand deck) (last_index hand)
    then hand
    else move_to_end (get_chop_index hand deck) hand

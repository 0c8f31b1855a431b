-- ===== src/Reducers/Game/Piles/Conservation.antt =====
-- How often a card stands on the piles of reducers/gameReducer.ts.
use hanabi_live.Prelude.{
  ℕ, zero, suc, ◌+◌, ◌≡◌, refl, Bool, true, false, ◌&&◌, Option, none, some, List, [], ◌∷◌, ◌++◌,
  arith, ◌==◌, count, count-append, get_elem?, set, remove_at, includes, Bool-cases, Option-cases,
  inl, inr,
}
use hanabi_live.Result.{
  ok, >>=-eq-ok, assert_defined, no_suit_index, no_play_stack, no_discard_stack,
}
use hanabi_live.Types.Variant.{Variant}
use hanabi_live.Types.Action.{CardAction, played, discarded, ActionPlay, ActionDiscard}
use hanabi_live.Types.Game.{GameState, GameMetadata}
use hanabi_live.Types.Card.{CardState}
use hanabi_live.Rules.Hand.{get_chop_index}
use hanabi_live.Reducers.Cards.Reveal.{order_of}
use hanabi_live.Reducers.Stats.{Perspective}
use hanabi_live.Reducers.Game.Piles.{
  take_from_hand, remove_from_hand, lay_down, put_on_play_stack, put_on_discard_stack, put_on_stack,
  push_hole, is_thrown_in_hole, card_cycle, move_to_end,
}

abbrev pub count_all : ℕ → List (List ℕ) → ℕ
count_all o [] = 0
count_all o (xs ∷ xss) = count o xs + count_all o xss

-- How often an order stands on the piles of the table: hands, stacks and hole.
abbrev pub on_piles : ℕ → GameState → ℕ
on_piles o s =
    count_all o s.hands + count_all o s.play_stacks + count_all o s.discard_stacks + count o s.hole

abbrev pub one_if : Bool → ℕ
one_if true = 1
one_if false = 0

pub count_all-set :
    (o : ℕ) (xss : List (List ℕ)) (i : ℕ) (xs ys : List ℕ)
    → get_elem? xss i ≡ some xs
    → count_all o (set xss i ys) + count o xs ≡ count_all o xss + count o ys
count_all-set o [] i xs ys h = absurd (cc)
count_all-set o (x ∷ xss) zero xs ys h = ground arith
count_all-set o (x ∷ xss) (suc i) xs ys h = omega (arith, count_all-set o xss i xs ys h)

pub count-snoc :
    (o order : ℕ) (xs : List ℕ) → count o (xs ++ order ∷ []) ≡ count o xs + one_if (order == o)
count-snoc o order xs = ground (arith, count-append o xs (order ∷ []))

-- A hand without a card that it holds: one occurrence of the card less.
count-take_from_hand :
    (o order : ℕ) (hand : List ℕ)
    → count o (take_from_hand hand order).0 + one_if (includes hand order && order == o)
      ≡ count o hand
unfolding take_from_hand
count-take_from_hand o order [] = omega arith
count-take_from_hand o order (x ∷ hand) = ground (arith, count-take_from_hand o order hand)

module _ (o : ℕ) where
  pub remove_from_hand-on_piles :
      (s s' : GameState) (player order : ℕ) (hand : List ℕ) (slot : Option ℕ)
      → get_elem? s.hands player ≡ some hand
      → includes hand order ≡ true
      → remove_from_hand s player order ≡ ok (s', slot)
      → on_piles o s' + one_if (order == o) ≡ on_piles o s
  unfolding remove_from_hand
  remove_from_hand-on_piles s s' player order hand slot e held h = ground (
    arith,
    count_all-set o s.hands player hand (take_from_hand hand order).0 e,
    count-take_from_hand o order hand,
  )

  put_on_play_stack-on_piles :
      (a : ActionPlay) (s s' : GameState) (variant : Variant)
      → put_on_play_stack s a variant ≡ ok s'
      → on_piles o s' ≡ on_piles o s + one_if (a.order == o)
  unfolding put_on_play_stack
  put_on_play_stack-on_piles a s s' variant h =
      let (i, _, h₁) = >>=-eq-ok (assert_defined no_suit_index a.suit_index) _ h in
      let (stack, e, h₂) =
        >>=-eq-ok (assert_defined no_play_stack (get_elem? s.play_stacks i)) _ h₁ in
      ground (
        arith,
        count_all-set o s.play_stacks i stack (stack ++ a.order ∷ []),
        count-snoc o a.order stack,
      )

  put_on_discard_stack-on_piles :
      (a : ActionDiscard) (s s' : GameState) (variant : Variant)
      → put_on_discard_stack s a variant ≡ ok s'
      → on_piles o s' ≡ on_piles o s + one_if (a.order == o)
  unfolding put_on_discard_stack
  put_on_discard_stack-on_piles a s s' variant h =
      let (i, _, h₁) = >>=-eq-ok (assert_defined no_suit_index a.suit_index) _ h in
      let (stack, e, h₂) =
        >>=-eq-ok (assert_defined no_discard_stack (get_elem? s.discard_stacks i)) _ h₁ in
      ground (
        arith,
        count_all-set o s.discard_stacks i stack (stack ++ a.order ∷ []),
        count-snoc o a.order stack,
      )

  pub lay_down-on_piles :
      (action : CardAction) (s s' : GameState) (variant : Variant) (view : Perspective)
      → lay_down action s variant view ≡ ok s'
      → on_piles o s' ≡ on_piles o s + one_if (order_of action == o)
  unfolding lay_down
  lay_down-on_piles action s s' variant view h =
      elim (Bool-cases (is_thrown_in_hole action variant view)) [
        | inl thrown ↦
            let same : push_hole s (order_of action) ≡ s' = cc (rw thrown at h) in
            ground (arith, count-snoc o (order_of action) s.hole)
        | inr laid ↦ on_stack action (rw laid at h)
      ]
    where
      on_stack :
          (b : CardAction)
          → put_on_stack b s variant ≡ ok s'
          → on_piles o s' ≡ on_piles o s + one_if (order_of b == o)
      on_stack (played a) k = put_on_play_stack-on_piles a s s' variant k
      on_stack (discarded a) k = put_on_discard_stack-on_piles a s s' variant k

count-remove_at :
    (o x : ℕ) (hand : List ℕ) (i : ℕ)
    → get_elem? hand i ≡ some x
    → count o (remove_at hand i) + one_if (x == o) ≡ count o hand
count-remove_at o x [] i e = absurd (cc)
count-remove_at o x (y ∷ hand) zero e = ground arith
count-remove_at o x (y ∷ hand) (suc i) e = ground (arith, count-remove_at o x hand i e)

count-move_to_end :
    (o : ℕ) (i : Option ℕ) (hand : List ℕ) → count o (move_to_end i hand) ≡ count o hand
count-move_to_end o none hand = refl
count-move_to_end o (some i) hand = elim (Option-cases (get_elem? hand i)) [
  | inl out ↦ ground (arith, remove_at_out hand i out)
  | inr (x, e) ↦ ground (arith, count-remove_at o x hand i e, count-snoc o x (remove_at hand i))
]
  where
    remove_at_out :
        (xs : List ℕ) (j : ℕ) → get_elem? xs j ≡ none → count o (remove_at xs j) ≡ count o xs
    remove_at_out [] j e = refl
    remove_at_out (x ∷ xs) zero e = absurd (cc)
    remove_at_out (x ∷ xs) (suc j) e = ground (arith, remove_at_out xs j e)

-- Cycling a hand keeps its cards.
pub count-card_cycle :
    (o : ℕ) (hand : List ℕ) (deck : List CardState) (metadata : GameMetadata)
    → count o (card_cycle hand deck metadata) ≡ count o hand
unfolding card_cycle
count-card_cycle o hand deck metadata =
    ground (arith, count-move_to_end o (get_chop_index hand deck) hand)

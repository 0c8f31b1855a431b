-- ===== src/Reducers/Cards/Reveal.antt =====
-- reducers/cardsReducer.ts: the "play" and "discard" actions
use hanabi_live.Prelude.{
  ℕ, Bool, true, ◌&&◌, ◌||◌, Option, none, some, is_some, List, [], ◌∷◌, replicate, if◌then◌else◌,
}
use hanabi_live.Result.{Result, ◌>>=◌}
use hanabi_live.Types.Variant.{max_players}
use hanabi_live.Types.Card.{CardState, Location}
use hanabi_live.Types.Action.{CardAction, played, discarded}
use hanabi_live.Reducers.Deduction.Update.{write_card}
use hanabi_live.Reducers.Cards.Identity.{get_card}

abbrev pub order_of : CardAction → ℕ
order_of (played a) = a.order
order_of (discarded a) = a.order

abbrev pub suit_index_of : CardAction → Option ℕ
suit_index_of (played a) = a.suit_index
suit_index_of (discarded a) = a.suit_index

abbrev pub rank_of : CardAction → Option ℕ
rank_of (played a) = a.rank
rank_of (discarded a) = a.rank

-- `x === -1 ? y : x`
abbrev pub or_else : Option ℕ → Option ℕ → Option ℕ
or_else none b = b
or_else (some a) b = some a

-- `revealCard` returns true on both of its last branches.
unfoldable pub reveal_card : Option ℕ → Option ℕ → CardState → Bool
reveal_card suit_index rank card = is_some suit_index && is_some rank

-- Where the card goes.
abbrev pub move_card : CardAction → Option ℕ → CardState → CardState
move_card (played a) segment card = record card {
  location = Location.play_stack;
  segment_played = segment;
}
move_card (discarded a) segment card = record card {
  location = Location.discard;
  segment_discarded = segment;
  is_misplayed = if a.failed then true else card.is_misplayed;
}

abbrev announced : Option ℕ → Option ℕ → CardState → CardState
announced (some suit_index) (some rank) card = record card {
  revealed_to_player = replicate max_players true;
  possible_cards = (suit_index, rank) ∷ [];
}
announced _ _ card = card

unfoldable pub revealed_card : CardAction → Option ℕ → CardState → CardState
unfolding reveal_card
revealed_card action segment card =
    let suit_index = or_else (suit_index_of action) card.suit_index in
    let rank = or_else (rank_of action) card.rank in
    let determined = reveal_card suit_index rank card in
    let moved = announced (suit_index_of action) (rank_of action) (move_card action segment card) in
    record moved {
      suit_index = suit_index;
      rank = rank;
      suit_determined = card.suit_determined || determined;
      rank_determined = card.rank_determined || determined;
    }

unfoldable pub cards_after_reveal : List CardState → CardAction → Option ℕ → Result (List CardState)
unfolding get_card revealed_card
cards_after_reveal deck action segment = do
  card ← get_card deck (order_of action)
  write_card deck (order_of action) (revealed_card action segment card)

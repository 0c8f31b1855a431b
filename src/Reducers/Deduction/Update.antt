-- ===== src/Reducers/Deduction/Update.antt =====
-- reducers/cardDeductionReducer.ts: the cards whose possibilities are computed again
pub mod Truth
use hanabi_live.Prelude.{
  ℕ, Bool, true, false, not, ◌&&◌, Option, none, some, List, [], ◌∷◌, ◌++◌, ◌==◌, get_elem?, set,
  length, ltb, keys, if◌then◌else◌,
}
use hanabi_live.Result.{Result, ok, throw, sparse_deck, ◌>>=◌}
use hanabi_live.Types.Card.{CardState, Location}
use hanabi_live.Types.Action.{GameAction, card_identity, clue, discard, draw, play}
use hanabi_live.Types.Game.{GameMetadata}
use hanabi_live.Reducers.Marks.{is_at}
use hanabi_live.Reducers.Deduction.Search.{Counts, filter_card_possibilities}
use hanabi_live.Reducers.Deduction.Sources.{
  get_card_count_map, is_revealed_to, get_card_possibilities_for_player,
  generate_deck_possibilities, deck_possibilities_different,
}

-- `deck[order] = card`
abbrev pub write_card : List CardState → ℕ → CardState → Result (List CardState)
write_card deck order card =
    if ltb order (length deck)
    then ok (set deck order card)
    else if order == length deck
    then ok (deck ++ card ∷ [])
    else throw sparse_deck

-- The card was drawn by this action, and nothing has been computed for it.
abbrev is_new : Option CardState → Bool
is_new none = true
is_new (some card) = elim card.location [ Location.deck ↦ true | _ ↦ false ]

unfoldable pub should_update_card_possibilities :
    CardState → ℕ → ℕ → List CardState → List CardState → Bool
should_update_card_possibilities card player our_player deck old_deck =
    if not (player == our_player) && not (is_at card.location player)
    then false
    else if is_revealed_to card player
    then false
    else if length (get_card_possibilities_for_player (some card) player our_player) == 1
    then false
    else if is_new (get_elem? old_deck card.order)
    then true
    else deck_possibilities_different card.order deck old_deck player our_player

unfoldable pub updated_card : CardState → ℕ → ℕ → List CardState → Counts → CardState
updated_card card player our_player deck counts =
    let sources = generate_deck_possibilities card.order deck player our_player counts in
    record card {
      possible_cards =
          if player == our_player
          then filter_card_possibilities card.possible_cards sources counts
          else card.possible_cards;
      possible_cards_for_empathy =
          if is_at card.location player
          then filter_card_possibilities card.possible_cards_for_empathy sources counts
          else card.possible_cards_for_empathy;
    }

unfoldable pub update_card_possibilities :
    CardState → ℕ → ℕ → List CardState → Counts → Result (List CardState)
unfolding updated_card
update_card_possibilities card player our_player deck counts =
    write_card deck card.order (updated_card card player our_player deck counts)

-- One order of a hand; an order that is not in the deck is passed over.
abbrev update_at :
    Option CardState → ℕ → ℕ → List CardState → List CardState → Counts → Result (List CardState)
update_at none player our_player deck old_deck counts = ok deck
update_at (some card) player our_player deck old_deck counts =
    if should_update_card_possibilities card player our_player deck old_deck
    then update_card_possibilities card player our_player deck counts
    else ok deck

unfoldable pub update_hand :
    List ℕ → ℕ → ℕ → List CardState → List CardState → Counts → Result (List CardState)
update_hand [] player our_player deck old_deck counts = ok deck
update_hand (order ∷ hand) player our_player deck old_deck counts = do
  next ← update_at (get_elem? deck order) player our_player deck old_deck counts
  update_hand hand player our_player next old_deck counts

unfoldable pub update_all_card_possibilities :
    List (List ℕ) → ℕ → ℕ → List CardState → List CardState → Counts → Result (List CardState)
unfolding update_hand
update_all_card_possibilities [] player our_player deck old_deck counts = ok deck
update_all_card_possibilities (hand ∷ hands) player our_player deck old_deck counts = do
  next ← update_hand hand player our_player deck old_deck counts
  update_all_card_possibilities hands player our_player next old_deck counts

-- The loop over the other players.
unfoldable pub update_for_players :
    List ℕ → ℕ → List (List ℕ) → List CardState → List CardState → Counts → Result (List CardState)
update_for_players [] our_player hands deck old_deck counts = ok deck
update_for_players (player ∷ players) our_player hands deck old_deck counts = do
  next ←
      (if player == our_player
        then ok deck
        else update_all_card_possibilities hands player our_player deck old_deck counts)
  update_for_players players our_player hands next old_deck counts

unfoldable pub make_deductions :
    List CardState → List CardState → List (List ℕ) → GameMetadata → Result (List CardState)
unfolding update_for_players update_all_card_possibilities
make_deductions deck old_deck hands metadata = do
  counts ← get_card_count_map metadata.variant
  let our_player = metadata.our_player_index
  next ← update_all_card_possibilities hands our_player our_player deck old_deck counts
  update_for_players (keys hands) our_player hands next old_deck counts

abbrev pub is_deduction_action : GameAction → Bool
is_deduction_action (card_identity a) = true
is_deduction_action (clue a) = true
is_deduction_action (discard a) = true
is_deduction_action (play a) = true
is_deduction_action (draw a) = true
is_deduction_action _ = false

unfoldable pub card_deduction_reducer :
    List CardState
    → List CardState
    → GameAction
    → List (List ℕ)
    → GameMetadata
    → Result (List CardState)
card_deduction_reducer deck old_deck action hands metadata =
    if is_deduction_action action then make_deductions deck old_deck hands metadata else ok deck

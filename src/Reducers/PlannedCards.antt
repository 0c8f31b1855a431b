-- ===== src/Reducers/PlannedCards.antt =====
-- The cards of packages/game/src/hypotheticalPlanning.ts, and `possibleCardsFromNoteAndClues` of
-- packages/game/src/cardPresentation.ts
use hanabi_live.Prelude.{
  ℕ, Bool, false, ◌&&◌, Option, none, some, List, [], ◌∷◌, ◌==◌, all, any, filter, is_none, is_some,
  length, if◌then◌else◌,
}
use hanabi_live.Result.{Result, ok, all_result, ◌>>=◌}
use hanabi_live.Types.Variant.{Variant}
use hanabi_live.Types.Card.{CardIdentity, CardNote, CardState, SuitRankTuple}
use hanabi_live.Types.Action.{Clue, MsgClue, msg_rank}
use hanabi_live.Rules.Clues.{is_card_touched_by_clue, msg_clue_to_clue}

pub record HypotheticalCardView : Type 0 where
  pub state : CardState
  pub is_stack_base : Bool
  pub visible_suit_index : Option ℕ
  pub visible_rank : Option ℕ

pub record HypotheticalCard : Type 0 where
  pub order : ℕ
  pub identity : CardIdentity
  pub possibilities : List SuitRankTuple
  pub visible_suit_index : Option ℕ
  pub visible_rank : Option ℕ

pub record HypotheticalCardInput : Type 0 where
  pub view : HypotheticalCardView
  pub identity : CardIdentity
  pub morphed_identity : Option CardIdentity
  pub note : CardNote
  pub playing : Bool

abbrev pub has_tuple : List SuitRankTuple → SuitRankTuple → Bool
has_tuple possibilities p = any (λ (q : SuitRankTuple). p.0 == q.0 && p.1 == q.1) possibilities

unfoldable pub possible_cards_from_note_and_clues : CardNote → CardState → List SuitRankTuple
possible_cards_from_note_and_clues note state =
    let with_notes = filter (has_tuple state.possible_cards_from_clues) note.possibilities in
    if length with_notes == 0 then state.possible_cards_from_clues else with_notes

-- The identity of a card that is not morphed; the list is what its note and its clues leave.
abbrev pub own_identity : List SuitRankTuple → HypotheticalCardInput → CardIdentity
own_identity (p ∷ []) input =
    if input.playing
    then record { suit_index = some p.0; rank = some p.1 }
    else if input.view.is_stack_base
    then record { suit_index = input.view.state.suit_index; rank = input.view.state.rank }
    else input.identity
own_identity _ input =
    if input.view.is_stack_base
    then record { suit_index = input.view.state.suit_index; rank = input.view.state.rank }
    else input.identity

abbrev pub observed : List SuitRankTuple → HypotheticalCardInput → List SuitRankTuple
observed noted input =
    filter (has_tuple input.view.state.possible_cards)
      (if input.playing then noted else input.view.state.possible_cards_from_clues)

abbrev pub possibilities_of :
    CardIdentity → List SuitRankTuple → HypotheticalCardInput → List SuitRankTuple
possibilities_of identity noted input = elim identity.suit_index [
  | none ↦ observed noted input
  | some suit_index ↦ elim identity.rank [
    | none ↦ observed noted input
    | some rank ↦ (suit_index, rank) ∷ []
  ]
]

-- A morph takes the place of the identity.
abbrev pub shown_identity : List SuitRankTuple → HypotheticalCardInput → CardIdentity
shown_identity noted input = elim input.morphed_identity [
  | none ↦ own_identity noted input
  | some morphed ↦ morphed
]

unfoldable pub get_hypothetical_card : HypotheticalCardInput → HypotheticalCard
unfolding possible_cards_from_note_and_clues
get_hypothetical_card input =
    let noted = possible_cards_from_note_and_clues input.note input.view.state in
    let identity = shown_identity noted input in
    record {
      order = input.view.state.order;
      identity = identity;
      possibilities = possibilities_of identity noted input;
      visible_suit_index = input.view.visible_suit_index;
      visible_rank = input.view.visible_rank;
    }

abbrev pub is_visible_for : MsgClue → HypotheticalCard → Bool
is_visible_for (msg_rank value) card = is_some card.visible_rank
is_visible_for _ card = is_some card.visible_suit_index

abbrev pub is_blank : HypotheticalCard → Bool
is_blank card = is_none card.identity.suit_index && is_none card.identity.rank

-- Whether one card is touched; `full_clue` is `none` for a hidden clue, which nobody intends.
abbrev pub is_touched : HypotheticalCard → MsgClue → Option Clue → Variant → Result Bool
is_touched card msg_clue none variant = ok false
is_touched card msg_clue (some full_clue) variant = if is_blank card then ok false else do
  matched ←
      all_result (λ (p : SuitRankTuple). is_card_touched_by_clue variant full_clue p.0 p.1)
        card.possibilities
  ok (matched && all (λ (p : SuitRankTuple). is_visible_for msg_clue card) card.possibilities)

abbrev pub touched_orders :
    List HypotheticalCard → MsgClue → Option Clue → Variant → Result (List ℕ)
touched_orders [] msg_clue full_clue variant = ok []
touched_orders (card ∷ cards) msg_clue full_clue variant = do
  touched ← is_touched card msg_clue full_clue variant
  orders ← touched_orders cards msg_clue full_clue variant
  ok (if touched then card.order ∷ orders else orders)

unfoldable pub get_hypothetical_touched_cards :
    List HypotheticalCard → MsgClue → Variant → Result (List ℕ)
get_hypothetical_touched_cards cards msg_clue variant = do
  full_clue ← msg_clue_to_clue msg_clue variant
  touched_orders cards msg_clue full_clue variant

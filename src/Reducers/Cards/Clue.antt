-- ===== src/Reducers/Cards/Clue.antt =====
-- reducers/cardsReducer.ts: the "clue" action
use hanabi_live.Prelude.{
  ℕ, ◌+◌, Bool, true, false, not, Option, none, some, List, [], ◌∷◌, get_elem?, filter, includes,
  if◌then◌else◌,
}
use hanabi_live.Result.{Result, ok, assert_defined, no_hand, ◌>>=◌}
use hanabi_live.Types.Card.{CardState}
use hanabi_live.Types.Action.{Clue, ActionClue}
use hanabi_live.Types.Game.{GameMetadata, GameState}
use hanabi_live.Rules.Clues.{msg_clue_to_clue, should_apply_clue}
use hanabi_live.Rules.Hand.{is_card_on_chop}
use hanabi_live.Reducers.Possibilities.{card_possibilities_reducer}
use hanabi_live.Reducers.Deduction.Update.{write_card}
use hanabi_live.Reducers.Cards.Identity.{get_card}

-- `segmentFirstClued ?? segment ?? 1`
abbrev pub first_segment : Option ℕ → Option ℕ → Option ℕ
first_segment (some n) segment = some n
first_segment none (some n) = some n
first_segment none none = some 1

abbrev pub first_chop : Option Bool → Bool → Option Bool
first_chop (some b) on_chop = some b
first_chop none on_chop = some on_chop

-- The card with a positive clue, before the clue is applied.
unfoldable pub touched_card : CardState → Option ℕ → Bool → CardState
touched_card card segment on_chop = record card {
  num_positive_clues = card.num_positive_clues + 1;
  segment_first_clued = first_segment card.segment_first_clued segment;
  has_clue_applied = true;
  first_clued_while_on_chop = first_chop card.first_clued_while_on_chop on_chop;
}

module _ (giver : ℕ) (metadata : GameMetadata) where
  -- The local function `applyClue`; a hidden clue has no content to apply.
  unfoldable pub apply_clue : Option Clue → Bool → ℕ → List CardState → Result (List CardState)
  unfolding get_card
  apply_clue none positive order deck = ok deck
  apply_clue (some clue) positive order deck = do
    applies ← should_apply_clue giver metadata metadata.variant
    if applies
        then (do
          card ← get_card deck order
          new_card ← card_possibilities_reducer card clue positive metadata.variant
          write_card deck order new_card)
        else ok deck

  -- The loop over the touched cards. The chop is found in the deck before the action.
  unfoldable pub apply_positive :
      Option Clue
      → List ℕ
      → Option ℕ
      → List CardState
      → List ℕ
      → List CardState
      → Result (List CardState)
  unfolding apply_clue touched_card
  apply_positive clue hand segment old_deck [] deck = ok deck
  apply_positive clue hand segment old_deck (order ∷ orders) deck = do
    card ← get_card deck order
    marked ← write_card deck order (touched_card card segment (is_card_on_chop hand old_deck card))
    next ← apply_clue clue true order marked
    apply_positive clue hand segment old_deck orders next

  unfoldable pub apply_negative : Option Clue → List ℕ → List CardState → Result (List CardState)
  unfolding apply_clue
  apply_negative clue [] deck = ok deck
  apply_negative clue (order ∷ orders) deck = do
    card ← get_card deck order
    marked ← write_card deck order (record card { has_clue_applied = true })
    next ← apply_clue clue false order marked
    apply_negative clue orders next

abbrev pub negative_orders : ActionClue → List ℕ → List ℕ
negative_orders a hand =
    if a.ignore_negative then [] else filter (λ order. not (includes a.list order)) hand

unfoldable pub cards_after_clue :
    List CardState → ActionClue → GameState → GameMetadata → Result (List CardState)
unfolding apply_positive apply_negative
cards_after_clue deck a game metadata = do
  clue ← msg_clue_to_clue a.clue metadata.variant
  hand ← assert_defined no_hand (get_elem? game.hands a.target)
  positive ← apply_positive a.giver metadata clue hand game.turn.segment deck a.list deck
  apply_negative a.giver metadata clue (negative_orders a hand) positive

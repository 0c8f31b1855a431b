-- ===== src/Reducers/Cards/Reducer.antt =====
-- `cardsReducer` of reducers/cardsReducer.ts
pub mod InitialDeal
use hanabi_live.Prelude.{Bool, true, false, not, ◌&&◌, List, ◌==◌, length, if◌then◌else◌}
use hanabi_live.Prelude.Int.{pos}
use hanabi_live.Result.{Result, ok, ◌>>=◌}
use hanabi_live.Types.Card.{CardState}
use hanabi_live.Types.Action.{
  played, discarded, GameAction, card_identity, clue, discard, draw, play,
}
use hanabi_live.Types.Game.{GameMetadata, GameState}
use hanabi_live.Rules.Deck.{is_initial_deal_finished}
use hanabi_live.Reducers.Deduction.Update.{card_deduction_reducer}
use hanabi_live.Reducers.Cards.Identity.{cards_after_identity}
use hanabi_live.Reducers.Cards.Clue.{cards_after_clue}
use hanabi_live.Reducers.Cards.Reveal.{cards_after_reveal}
use hanabi_live.Reducers.Cards.Draw.{cards_after_draw}

-- The `switch` on the action.
unfoldable pub cards_switch :
    List CardState → GameAction → GameState → GameMetadata → Result (List CardState)
cards_switch deck (card_identity a) game metadata = cards_after_identity deck a metadata
cards_switch deck (clue a) game metadata = cards_after_clue deck a game metadata
cards_switch deck (discard a) game metadata =
    cards_after_reveal deck (discarded a) game.turn.segment
cards_switch deck (play a) game metadata = cards_after_reveal deck (played a) game.turn.segment
cards_switch deck (draw a) game metadata = cards_after_draw deck a game metadata
cards_switch deck _ game metadata = ok deck

abbrev pub is_draw : GameAction → Bool
is_draw (draw a) = true
is_draw _ = false

-- Whether deductions are skipped. `isInitialDealFinished` is given the length of the deck so far.
unfoldable pub skips_deduction :
    List CardState → GameAction → GameState → GameMetadata → Result Bool
skips_deduction new_deck action game metadata =
    if game.turn.turn_num == 0 && is_draw action
    then (do
      finished ← is_initial_deal_finished (pos (length new_deck)) metadata
      ok (not finished))
    else ok false

unfoldable pub cards_reducer :
    List CardState → GameAction → GameState → GameMetadata → Result (List CardState)
unfolding cards_switch skips_deduction
cards_reducer deck action game metadata = do
  new_deck ← cards_switch deck action game metadata
  skips ← skips_deduction new_deck action game metadata
  if skips then ok new_deck else card_deduction_reducer new_deck deck action game.hands metadata

-- ===== src/Reducers/Cards/Reducer/InitialDeal.antt =====
-- When reducers/cardsReducer.ts skips its deductions.
use hanabi_live.Prelude.{ℕ, ◌+◌, ◌*◌, ◌≤◌, ◌<◌, ◌≡◌, true, List, length, arith}
use hanabi_live.Result.{ok}
use hanabi_live.Types.Card.{CardState}
use hanabi_live.Types.Action.{ActionDraw, draw}
use hanabi_live.Types.Game.{GameMetadata, GameState, to_number}
use hanabi_live.Rules.Deck.{get_total_cards_in_deck, is_initial_deal_finished}
use hanabi_live.Rules.Hand.{get_cards_per_hand}
use hanabi_live.Reducers.Cards.Reducer.{skips_deduction}

-- In a game whose starting hands together are less than half of the deck, the deductions are
-- skipped after every draw of the turn 0 with which the deck holds at most as many cards as the
-- starting hands, also after the one that completes them.
pub skips_deduction-starting_hands :
    (new_deck : List CardState) (a : ActionDraw) (game : GameState) (metadata : GameMetadata)
    (cards hands : ℕ)
    → game.turn.turn_num ≡ 0
    → get_total_cards_in_deck metadata.variant ≡ ok cards
    → hands ≡ to_number metadata.options.num_players * get_cards_per_hand metadata.options
    → length new_deck ≤ hands
    → hands + hands < cards
    → skips_deduction new_deck (draw a) game metadata ≡ ok true
unfolding skips_deduction is_initial_deal_finished
skips_deduction-starting_hands new_deck a game metadata cards hands first total dealt drawn more =
    ground arith

-- ===== src/Reducers/Cards/Identity.antt =====
-- reducers/cardsReducer.ts: `getCard` and the "cardIdentity" action
use hanabi_live.Prelude.{
  ℕ, Bool, true, not, ◌&&◌, Option, some, is_some, List, [], ◌∷◌, ◌==◌, get_elem?, keys,
  if◌then◌else◌,
}
use hanabi_live.Result.{Result, ok, assert_defined, no_card, map_result, ◌>>=◌}
use hanabi_live.Types.Card.{CardState}
use hanabi_live.Types.Action.{ActionCardIdentity}
use hanabi_live.Types.Game.{GameMetadata}
use hanabi_live.Rules.Characters.{
  get_character_name_for_player, is_slow_witted, should_see_slot2_card_identity,
}
use hanabi_live.Reducers.Marks.{is_at}
use hanabi_live.Reducers.Deduction.Sources.{is_revealed_to}
use hanabi_live.Reducers.Deduction.Update.{write_card}

unfoldable pub get_card : List CardState → ℕ → Result CardState
get_card deck order = assert_defined no_card (get_elem? deck order)

unfoldable pub card_identity_revealed_to_player : CardState → List (Option ℕ) → Result (List Bool)
card_identity_revealed_to_player card assignments =
    map_result
      (λ player. do
        name ← get_character_name_for_player (some player) assignments
        ok (
            if not (is_at card.location player) && is_slow_witted name
            then true
            else is_revealed_to card player))
      (keys assignments)

abbrev identify : Option ℕ → Option ℕ → CardState → CardState
identify (some suit_index) (some rank) card = record card {
  suit_index = some suit_index;
  rank = some rank;
  possible_cards = (suit_index, rank) ∷ [];
}
identify _ _ card = card

-- The identity is taken over unless it is ours, scrubbed, or known already.
abbrev identified : ActionCardIdentity → CardState → GameMetadata → CardState
identified a card metadata =
    if a.player_index == metadata.our_player_index
    then card
    else if is_some card.suit_index && is_some card.rank
    then card
    else identify a.suit_index a.rank card

unfoldable pub cards_after_identity :
    List CardState → ActionCardIdentity → GameMetadata → Result (List CardState)
unfolding get_card card_identity_revealed_to_player
cards_after_identity deck a metadata = do
  card ← get_card deck a.order
  revealed ← card_identity_revealed_to_player card metadata.character_assignments
  let card' = record card { revealed_to_player = revealed }
  sees ← should_see_slot2_card_identity metadata
  write_card deck a.order (if sees then identified a card' metadata else card')

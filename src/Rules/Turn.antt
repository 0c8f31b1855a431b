-- ===== src/Rules/Turn.antt =====
-- rules/turn.ts
pub mod Order
use hanabi_live.Prelude.{
  ℕ, ◌+◌, ◌-◌, Bool, true, false, not, ◌&&◌, ◌||◌, Option, none, some, List, [], ◌∷◌, ◌==◌, leb,
  if◌then◌else◌,
}
use hanabi_live.Prelude.Int.{ℤ, pos, leb_ℤ}
use hanabi_live.Result.{Result, ok, ◌>>=◌}
use hanabi_live.Types.Variant.{Variant}
use hanabi_live.Types.Game.{NumPlayers, to_number, Options, GameMetadata, CharacterName}
use hanabi_live.Rules.ClueTokens.{get_adjusted_clue_tokens}
use hanabi_live.Rules.Characters.{get_character, is_panicky, is_genius, is_contrarian}

unfoldable pub should_end_turn_after_draw : ℕ → ℕ → CharacterName → ℤ → Variant → Bool
should_end_turn_after_draw cards_played_or_discarded cards_discarded name tokens variant =
    let panicky_first_discard =
      cards_discarded == 1
      && leb_ℤ tokens (pos (get_adjusted_clue_tokens 4 variant))
      && is_panicky name in
    not panicky_first_discard && leb 1 cards_played_or_discarded

unfoldable pub should_end_turn_after_clue : ℕ → CharacterName → Bool
should_end_turn_after_clue clues_given name = not (is_genius name) || clues_given == 2

unfoldable pub should_play_order_invert : CharacterName → Bool
should_play_order_invert name = is_contrarian name

-- `previousPlayerIndex === -1` is the test for 0 before the subtraction.
unfoldable pub get_next_player_index : Option ℕ → NumPlayers → Bool → Option ℕ
get_next_player_index none num_players turns_inverted = none
get_next_player_index (some current) num_players turns_inverted =
    if turns_inverted
    then some (if current == 0 then to_number num_players - 1 else current - 1)
    else some (if current + 1 == to_number num_players then 0 else current + 1)

-- Whether the loop of `getEndGameLength` meets the Contrarian character.
unfoldable pub has_contrarian : List (Option ℕ) → Result Bool
has_contrarian [] = ok false
has_contrarian (none ∷ rest) = has_contrarian rest
has_contrarian (some id ∷ rest) =
    let others = has_contrarian rest in
    do name ← get_character id; if is_contrarian name then ok true else others

unfoldable pub get_end_game_length : Options → List (Option ℕ) → Result ℕ
unfolding has_contrarian
get_end_game_length options assignments =
    if options.detrimental_characters
    then (do
      found ← has_contrarian assignments
      ok (if found then 2 else to_number options.num_players))
    else ok (to_number options.num_players)

unfoldable pub get_end_turn : ℕ → GameMetadata → Result ℕ
unfolding get_end_game_length
get_end_turn turn metadata = do
  len ← get_end_game_length metadata.options metadata.character_assignments
  ok (turn + len)

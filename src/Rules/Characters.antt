-- ===== src/Rules/Characters.antt =====
-- getCharacter of gameData.ts over json/characters.json, the helpers of reducers/reducerHelpers.ts
-- and rules/variants/characters.ts
use hanabi_live.Prelude.{
  ℕ, Bool, true, false, Option, none, some, List, [], ◌∷◌, ◌==◌, get_elem?, if◌then◌else◌,
}
use hanabi_live.Result.{
  Result, ok, throw, assert_defined, no_character, no_character_assignment, ◌>>=◌,
}
use hanabi_live.Types.Game.{
  GameMetadata, CharacterName, no_name, fuming, dumbfounded, inept, awkward, conservative, greedy,
  picky, spiteful, insolent, vindictive, miser, compulsive, mood_swings, insistent, vulnerable,
  color_blind, impulsive, indolent, hesitant, anxious, traumatized, wasteful, genius, panicky,
  contrarian, stubborn, blind_spot, oblivious, follower, slow_witted, quacker,
}

abbrev characters : List (ℕ × CharacterName)
characters =
    (0, fuming)
    ∷ (1, dumbfounded)
    ∷ (2, inept)
    ∷ (3, awkward)
    ∷ (4, conservative)
    ∷ (5, greedy)
    ∷ (6, picky)
    ∷ (7, spiteful)
    ∷ (8, insolent)
    ∷ (9, vindictive)
    ∷ (10, miser)
    ∷ (11, compulsive)
    ∷ (12, mood_swings)
    ∷ (13, insistent)
    ∷ (14, vulnerable)
    ∷ (15, color_blind)
    ∷ (17, impulsive)
    ∷ (18, indolent)
    ∷ (19, hesitant)
    ∷ (21, anxious)
    ∷ (22, traumatized)
    ∷ (23, wasteful)
    ∷ (24, genius)
    ∷ (26, panicky)
    ∷ (27, contrarian)
    ∷ (28, stubborn)
    ∷ (29, blind_spot)
    ∷ (30, oblivious)
    ∷ (31, follower)
    ∷ (33, slow_witted)
    ∷ (34, quacker)
    ∷ []

find_character : ℕ → List (ℕ × CharacterName) → Result CharacterName
find_character id [] = throw no_character
find_character id ((i, name) ∷ rest) = if i == id then ok name else find_character id rest

unfoldable pub get_character : ℕ → Result CharacterName
unfolding find_character
get_character id = find_character id characters

unfoldable pub get_character_id_for_player : Option ℕ → List (Option ℕ) → Result (Option ℕ)
get_character_id_for_player none assignments = ok none
get_character_id_for_player (some player) assignments =
    assert_defined no_character_assignment (get_elem? assignments player)

abbrev name_of : Option ℕ → Result CharacterName
name_of none = ok no_name
name_of (some id) = get_character id

unfoldable pub get_character_name_for_player : Option ℕ → List (Option ℕ) → Result CharacterName
unfolding get_character_id_for_player
get_character_name_for_player player assignments = do
  id ← get_character_id_for_player player assignments
  name_of id

abbrev pub is_panicky : CharacterName → Bool
is_panicky panicky = true
is_panicky _ = false

abbrev pub is_genius : CharacterName → Bool
is_genius genius = true
is_genius _ = false

abbrev pub is_contrarian : CharacterName → Bool
is_contrarian contrarian = true
is_contrarian _ = false

abbrev pub is_slow_witted : CharacterName → Bool
is_slow_witted slow_witted = true
is_slow_witted _ = false

abbrev pub is_quacker : CharacterName → Bool
is_quacker quacker = true
is_quacker _ = false

unfoldable pub should_see_slot2_card_identity : GameMetadata → Result Bool
should_see_slot2_card_identity metadata =
    if metadata.options.detrimental_characters
    then (do
      name ←
          get_character_name_for_player (some metadata.our_player_index)
            metadata.character_assignments
      ok (is_slow_witted name))
    else ok false

-- ===== src/Client/HypoCompress/Game.antt =====
-- lobby/hypoCompress.ts: `gameJSONCompress` and `expand`, without the JSON text of the game
pub mod RoundTrip
use hanabi_live.Prelude.{
  Bool, ℕ, not, ◌||◌, Option, none, some, List, [], ◌∷◌, ◌++◌, ltb, length, get_elem?, all,
  if◌then◌else◌, String,
}
use hanabi_live.Prelude.Int.{ℤ, pos, ltb_ℤ, pos_part}
use hanabi_live.Result.{Result, ok, throw, no_compressed_part, no_variant, assert_defined, ◌>>=◌}
use hanabi_live.Client.HypoCompress.Text.{
  Text, comma, char_at, to_string, remove_hyphens, hyphenate_from, split_commas, join_commas,
  is_seed_char,
}
use hanabi_live.Client.HypoCompress.Codec.{
  DeckCard, Action, compress_deck, compress_actions, drop, decompress_deck, decompress_actions,
}

pub record GameJson : Type 0 where
  pub players : List String
  pub deck : List DeckCard
  pub actions : List Action
  -- `options.variant`
  pub variant : Option String
  pub characters : List String
  pub id : ℤ
  pub notes : List String
  pub seed : Text

abbrev pub default_player_names : List String
default_player_names = "Alice" ∷ "Bob" ∷ "Cathy" ∷ "Donald" ∷ "Emily" ∷ "Frank" ∷ []

-- `slice(0, n)`
abbrev pub take {ℓ} : {A : Type ℓ} → ℕ → List A → List A
take n [] = []
take n (x ∷ xs) = elim n [ ℕ.zero ↦ [] | ℕ.suc m ↦ x ∷ take m xs ]

unfoldable pub get_players : ℤ → List String
get_players size =
    if ltb_ℤ size (pos 2) || ltb_ℤ (pos 6) size
    then []
    else take (pos_part size) default_player_names

-- The three parts with their commas.
abbrev pub three : Text → Text → Text → Text
three a b c = a ++ comma ∷ (b ++ comma ∷ c)

-- `getVariant(name).id` and `getVariantByID(id).name`, with `none` where they throw, read the
-- catalogue of the variants, which is a parameter; so is `parseIntSafe`.
module _ (get_variant_id : String → Option ℤ) where
  abbrev pub compress_parts : GameJson → Option Text
  compress_parts game = elim (compress_deck game.deck) [
    | none ↦ none
    | some deck ↦ elim game.variant [
      | none ↦ none
      | some name ↦ elim (get_variant_id name) [
        | none ↦ none
        | some id ↦ some (
            three (to_string (pos (length game.players)) ++ deck) (compress_actions game.actions)
              (to_string id))
      ]
    ]
  ]

  unfoldable pub game_json_compress : GameJson → Option Text
  unfolding compress_deck compress_actions
  game_json_compress game =
      if not (all is_seed_char game.seed)
      then none
      else if ltb (length game.players) 2 || ltb 6 (length game.players)
      then none
      else elim (compress_parts game) [
        | none ↦ none
        | some out ↦ some (hyphenate_from 20 out ++ comma ∷ game.seed)
      ]

module _ (get_variant_name : ℤ → Option String) (parse_int_safe : Text → Option ℤ) where
  -- The three parts, each read after the one before was.
  unfoldable pub expand_parts : Text → Text → Text → Text → Result (Option GameJson)
  unfolding decompress_deck decompress_actions get_players
  expand_parts players_and_deck actions_string variant_string seed =
      elim (parse_int_safe (char_at players_and_deck (pos 0))) [
        | none ↦ ok none
        | some num_players ↦ elim (get_players num_players) [
          | [] ↦ ok none
          | player ∷ players ↦ elim (decompress_deck parse_int_safe (drop 1 players_and_deck)) [
            | none ↦ ok none
            | some deck ↦ elim (decompress_actions parse_int_safe actions_string) [
              | none ↦ ok none
              | some actions ↦ elim (parse_int_safe variant_string) [
                | none ↦ ok none
                | some variant_id ↦ do
                  name ← assert_defined no_variant (get_variant_name variant_id)
                  ok (
                      some (record {
                        players = player ∷ players;
                        deck = deck;
                        actions = actions;
                        variant = some name;
                        characters = [];
                        id = pos 0;
                        notes = [];
                        seed = seed;
                      }))
              ]
            ]
          ]
        ]
      ]

  abbrev pub seed_of : List Text → Text
  seed_of parts = elim (get_elem? parts 3) [ none ↦ [] | some seed ↦ seed ]

  abbrev pub expand_split : List Text → Text → Result (Option GameJson)
  expand_split [] seed = throw no_compressed_part
  expand_split (a ∷ []) seed = throw no_compressed_part
  expand_split (a ∷ b ∷ []) seed = throw no_compressed_part
  expand_split (a ∷ b ∷ c ∷ rest) seed = expand_parts a b c seed

  unfoldable pub expand : Text → Result (Option GameJson)
  unfolding expand_parts split_commas
  expand text =
      let parts = split_commas text in
      let seed = seed_of parts in
      if ltb (length parts) 3 || ltb 4 (length parts) || not (all is_seed_char seed)
      then ok none
      else expand_split (split_commas (remove_hyphens (join_commas (take 3 parts)))) seed

-- `isEqual` of the package lodash is a parameter too. The game is the value that `JSON.parse` gives,
-- and what `expand` writes with `JSON.stringify` is read back as the same value.
module _ (get_variant_id : String → Option ℤ) (get_variant_name : ℤ → Option String)
    (parse_int_safe : Text → Option ℤ) (is_equal : GameJson → GameJson → Bool) where
  unfoldable pub shrink : GameJson → Result (Option Text)
  unfolding game_json_compress expand
  shrink game = elim (game_json_compress get_variant_id game) [
    | none ↦ ok none
    | some compressed ↦ do
      decompressed ← expand get_variant_name parse_int_safe compressed
      ok (elim decompressed [
        | none ↦ none
        | some again ↦ if is_equal game again then some compressed else none
      ])
  ]

-- ===== src/Client/HypoCompress/Game/RoundTrip.antt =====
-- lobby/hypoCompress.ts: games as strings and back
use hanabi_live.Prelude.{
  ℕ, zero, suc, ◌+◌, ◌-◌, ◌≤◌, ◌<◌, ◌≡◌, ◌∙◌, refl, ap, sym, arith, Bool, true, Option, some, List,
  [], ◌∷◌, ◌++◌, all, All, length, String,
}
use hanabi_live.Prelude.Int.{ℤ, pos}
use hanabi_live.Result.{ok}
use hanabi_live.Client.HypoCompress.Text.{
  Text, comma, to_string, remove_hyphens, hyphenate_from, split_commas, join_commas, is_seed_char,
  char_at,
}
use hanabi_live.Client.HypoCompress.Text.Splits.{
  is_plain, remove_hyphens-hyphenate_from, remove_hyphens-append, remove_hyphens_plain,
  length-split_commas-hyphenate_from, join_commas-split_commas, split_commas-append,
  split_commas_plain, split_commas_seed,
}
use hanabi_live.Client.HypoCompress.Codec.{
  get_rank_min_max, compress_actions, decompress_deck, decompress_actions, drop,
}
use hanabi_live.Client.HypoCompress.Codec.Base62.{to_string_digit, digit_plain, to_string_plain}
use hanabi_live.Client.HypoCompress.Codec.Cards.{FitsCard, range_of, decompress_deck-compress_deck}
use hanabi_live.Client.HypoCompress.Codec.Actions.{FitsActions, decompress_actions-compress_actions}
use hanabi_live.Client.HypoCompress.Game.{
  GameJson, default_player_names, take, get_players, game_json_compress, expand, expand_parts,
  expand_split, shrink, three, compress_parts,
}

first_player :
    (n : ℕ)
    → 2 ≤ n
    → take n default_player_names
      ≡ "Alice" ∷ take (n - 1) ("Bob" ∷ "Cathy" ∷ "Donald" ∷ "Emily" ∷ "Frank" ∷ [])
first_player zero h = elim h [ ]
first_player (suc n) h =
    ap (λ (m : ℕ). "Alice" ∷ take m ("Bob" ∷ "Cathy" ∷ "Donald" ∷ "Emily" ∷ "Frank" ∷ []))
      (omega arith)

length-take : (n : ℕ) (names : List String) → n ≤ length names → length (take n names) ≡ n
length-take n [] h = omega arith
length-take zero (name ∷ names) h = refl
length-take (suc n) (name ∷ names) h = ap suc (length-take n names (omega arith))

get_players_lem : (n : ℕ) → 2 ≤ n → n ≤ 6 → get_players (pos n) ≡ take n default_player_names
unfolding get_players
get_players_lem n h h' = ground arith

split_commas-three :
    (a b c : Text)
    → all is_plain a ≡ true
    → all is_plain b ≡ true
    → all is_plain c ≡ true
    → split_commas (three a b c) ≡ a ∷ b ∷ c ∷ []
split_commas-three a b c ha hb hc =
    split_commas-append a (b ++ comma ∷ c)
    ∙ ap (λ (ps : List Text). ps ++ split_commas (b ++ comma ∷ c)) (split_commas_plain a ha)
    ∙ ap (λ (ps : List Text). a ∷ ps)
        (split_commas-append b c
          ∙ ap (λ (ps : List Text). ps ++ split_commas c) (split_commas_plain b hb)
          ∙ ap (λ (ps : List Text). b ∷ ps) (split_commas_plain c hc))

remove_hyphens-three :
    (a b c : Text)
    → all is_plain a ≡ true
    → all is_plain b ≡ true
    → all is_plain c ≡ true
    → remove_hyphens (three a b c) ≡ three a b c
remove_hyphens-three a b c ha hb hc =
    remove_hyphens-append a (comma ∷ (b ++ comma ∷ c))
    ∙ ap (λ (t : Text). t ++ comma ∷ remove_hyphens (b ++ comma ∷ c)) (remove_hyphens_plain a ha)
    ∙ ap (λ (t : Text). a ++ comma ∷ t)
        (remove_hyphens-append b (comma ∷ c)
          ∙ ap (λ (t : Text). t ++ comma ∷ remove_hyphens c) (remove_hyphens_plain b hb)
          ∙ ap (λ (t : Text). b ++ comma ∷ t) (remove_hyphens_plain c hc))

module _ (get_variant_name : ℤ → Option String) (parse_int_safe : Text → Option ℤ) where
  expand-split :
      (text : Text) (parts : List Text) (seed : Text)
      → split_commas text ≡ parts ++ seed ∷ []
      → length parts ≡ 3
      → all is_seed_char seed ≡ true
      → expand get_variant_name parse_int_safe text
        ≡ expand_split get_variant_name parse_int_safe
            (split_commas (remove_hyphens (join_commas parts)))
            seed
  unfolding expand
  expand-split text [] seed e h hs = ground arith
  expand-split text (a ∷ []) seed e h hs = ground arith
  expand-split text (a ∷ b ∷ []) seed e h hs = ground arith
  expand-split text (a ∷ b ∷ c ∷ []) seed e h hs = ground (arith, e)
  expand-split text (a ∷ b ∷ c ∷ d ∷ ds) seed e h hs = ground arith

  -- Hyphens that wrap the three parts do not change what is read.
  expand_wrapped :
      (a b c seed : Text)
      → all is_plain a ≡ true
      → all is_plain b ≡ true
      → all is_plain c ≡ true
      → all is_seed_char seed ≡ true
      → expand get_variant_name parse_int_safe (hyphenate_from 20 (three a b c) ++ comma ∷ seed)
        ≡ expand_parts get_variant_name parse_int_safe a b c seed
  expand_wrapped a b c seed ha hb hc hs =
      let wrapped = hyphenate_from 20 (three a b c) in
      let three_parts = split_commas-three a b c ha hb hc in
      expand-split (wrapped ++ comma ∷ seed) (split_commas wrapped) seed
        (split_commas-append wrapped seed
          ∙ ap (λ (ps : List Text). split_commas wrapped ++ ps) (split_commas_seed seed hs))
        (length-split_commas-hyphenate_from 20 (three a b c) ∙ ap length three_parts) hs
      ∙ ap
          (λ (t : Text).
            expand_split get_variant_name parse_int_safe (split_commas (remove_hyphens t)) seed)
          (join_commas-split_commas wrapped)
      ∙ ap (λ (t : Text). expand_split get_variant_name parse_int_safe (split_commas t) seed)
          (remove_hyphens-hyphenate_from 20 (three a b c) ∙ remove_hyphens-three a b c ha hb hc)
      ∙ ap (λ (ps : List Text). expand_split get_variant_name parse_int_safe ps seed) three_parts

-- A game that the code can share: hypothetical players, a deck and actions in the alphabet, a seed
-- without commas, and nothing in the fields that are not written.
abbrev pub FitsGame : GameJson → Type 0
FitsGame game =
    ((n : ℕ) × (2 ≤ n) × (n ≤ 6) × (game.players ≡ take n default_player_names))
    × ((top : ℕ) × (get_rank_min_max game.deck ≡ range_of 1 top)
        × (1 ≤ top)
        × (top < 10)
        × All (FitsCard top) game.deck)
    × FitsActions game.actions
    × (all is_seed_char game.seed ≡ true)
    × (game.characters ≡ [])
    × (game.id ≡ pos 0)
    × (game.notes ≡ [])

-- A catalogue that finds the variant of the game by its name and by its number.
abbrev pub Finds : (String → Option ℤ) → (ℤ → Option String) → Option String → Type 0
Finds get_variant_id get_variant_name variant =
    (name : String) × (id : ℕ) × (variant ≡ some name)
    × (get_variant_id name ≡ some (pos id))
    × (get_variant_name (pos id) ≡ some name)

compressed :
    (get_variant_id : String → Option ℤ) (game : GameJson) (a b c : Text)
    → all is_seed_char game.seed ≡ true
    → 2 ≤ length game.players
    → length game.players ≤ 6
    → compress_parts get_variant_id game ≡ some (three a b c)
    → game_json_compress get_variant_id game
      ≡ some (hyphenate_from 20 (three a b c) ++ comma ∷ game.seed)
unfolding game_json_compress
compressed get_variant_id game a b c hs h h' e = ground (arith, e)

expanded :
    (get_variant_name : ℤ → Option String) (parse_int_safe : Text → Option ℤ) (a b c : Text)
    (game : GameJson) (n id : ℤ) (name player : String) (players : List String)
    → parse_int_safe (char_at a (pos 0)) ≡ some n
    → get_players n ≡ player ∷ players
    → decompress_deck parse_int_safe (drop 1 a) ≡ some game.deck
    → decompress_actions parse_int_safe b ≡ some game.actions
    → parse_int_safe c ≡ some id
    → get_variant_name id ≡ some name
    → game ≡ record {
      players = player ∷ players;
      deck = game.deck;
      actions = game.actions;
      variant = some name;
      characters = [];
      id = pos 0;
      notes = [];
      seed = game.seed;
    }
    → expand_parts get_variant_name parse_int_safe a b c game.seed ≡ ok (some game)
unfolding expand_parts
expanded get_variant_name parse_int_safe a b c game n id name player players e₁ e₂ e₃ e₄ e₅ e₆ e₇ =
    ground (arith, e₁, e₂, e₃, e₄, e₅, e₆) ∙ ap (λ (g : GameJson). ok (some g)) (sym e₇)

as_read :
    (game : GameJson) (players : List String) (name : String)
    → game.players ≡ players
    → game.variant ≡ some name
    → game.characters ≡ []
    → game.id ≡ pos 0
    → game.notes ≡ []
    → game ≡ record {
      players = players;
      deck = game.deck;
      actions = game.actions;
      variant = some name;
      characters = [];
      id = pos 0;
      notes = [];
      seed = game.seed;
    }
as_read game players name e₁ e₂ e₃ e₄ e₅ = cc

-- What `expand` gives back for a compressed game.
pub expand-game_json_compress :
    (get_variant_id : String → Option ℤ) (get_variant_name : ℤ → Option String)
    (parse_int_safe : Text → Option ℤ)
    → ((n : ℕ) → parse_int_safe (to_string (pos n)) ≡ some (pos n))
    → (game : GameJson) → FitsGame game
    → Finds get_variant_id get_variant_name game.variant
    → (text : Text) × (game_json_compress get_variant_id game ≡ some text)
      × (expand get_variant_name parse_int_safe text ≡ ok (some game))
expand-game_json_compress get_variant_id get_variant_name parse_int_safe parses game
      (
        (n, h, h', is_players),
        (top, is_range, t, t', fits),
        fits',
        seed,
        no_characters,
        no_id,
        no_notes,
      )
      (name, id, is_variant, finds, finds') =
    let (deck, is_deck, back, plain) =
      decompress_deck-compress_deck parse_int_safe parses game.deck top is_range t t' fits in
    let (back', plain') =
      decompress_actions-compress_actions parse_int_safe parses game.actions fits' in
    let count : length game.players ≡ n =
      ap length is_players ∙ length-take n default_player_names h' in
    let digit : to_string (pos (length game.players)) ≡ (48 + n) ∷ [] =
      ap (λ (m : ℕ). to_string (pos m)) count ∙ to_string_digit n (omega arith) in
    (
      hyphenate_from 20
            (three ((48 + n) ∷ deck) (compress_actions game.actions) (to_string (pos id)))
          ++ comma ∷ game.seed,
      compressed get_variant_id game ((48 + n) ∷ deck) (compress_actions game.actions)
          (to_string (pos id)) seed (omega (arith, count)) (omega (arith, count))
          (ground (arith, is_deck, digit, is_variant, finds)),
      expand_wrapped get_variant_name parse_int_safe ((48 + n) ∷ deck)
            (compress_actions game.actions) (to_string (pos id)) game.seed
            (ground (arith, digit_plain n (omega arith), plain)) plain' (to_string_plain id) seed
          ∙ expanded get_variant_name parse_int_safe ((48 + n) ∷ deck)
              (compress_actions game.actions) (to_string (pos id)) game (pos n) (pos id) name
              "Alice" (take (n - 1) ("Bob" ∷ "Cathy" ∷ "Donald" ∷ "Emily" ∷ "Frank" ∷ []))
              (ap parse_int_safe (sym (to_string_digit n (omega arith))) ∙ parses n)
              (get_players_lem n h h' ∙ first_player n h) back back' (parses id) finds'
              (as_read game _ name (is_players ∙ first_player n h) is_variant no_characters no_id
                no_notes),
    )

-- A game that the code can share is shrunk to a text that expands to the same game: hypothetical
-- players, the smallest rank 1, indexes below 62, ranges of one digit, no commas in the seed. The
-- variant is found by its name and its number, and `isEqual` holds of equal games.
pub expand-shrink :
    (get_variant_id : String → Option ℤ) (get_variant_name : ℤ → Option String)
    (parse_int_safe : Text → Option ℤ) (is_equal : GameJson → GameJson → Bool)
    → ((n : ℕ) → parse_int_safe (to_string (pos n)) ≡ some (pos n))
    → ((g : GameJson) → is_equal g g ≡ true)
    → (game : GameJson) → FitsGame game
    → Finds get_variant_id get_variant_name game.variant
    → (text : Text) × (shrink get_variant_id get_variant_name parse_int_safe is_equal game
        ≡ ok (some text))
      × (expand get_variant_name parse_int_safe text ≡ ok (some game))
unfolding shrink
expand-shrink get_variant_id get_variant_name parse_int_safe is_equal parses equals game fits
      finds =
    let (text, e, e') =
      expand-game_json_compress get_variant_id get_variant_name parse_int_safe parses game fits
        finds in
    (text, ground (arith, e, e', equals game), e')

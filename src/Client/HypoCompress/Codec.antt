-- ===== src/Client/HypoCompress/Codec.antt =====
-- lobby/hypoCompress.ts: the deck and the actions of a game as strings. `r` is the number of ranks or
-- types, which the code computes anew for each card and action; it is 1 or more in a valid range.
pub mod Base62
pub mod Cards
pub mod Actions
use hanabi_live.Prelude.{
  ℕ, zero, suc, Bool, true, false, ◌&&◌, Option, none, some, List, [], ◌∷◌, ◌++◌, map,
  if◌then◌else◌,
}
use hanabi_live.Prelude.Int.{ℤ, pos, negsuc, pos_part, ◌+ℤ◌, ◌-ℤ◌, leb_ℤ, ltb_ℤ, eq_ℤ}
use hanabi_live.Client.HypoCompress.Text.{
  Text, base62, char_at, base62_index, rem_ℤ, floor_div, times, to_string,
}

pub record DeckCard : Type 0 where
  pub suit_index : ℤ
  pub rank : ℤ

pub record Action : Type 0 where
  pub type : ℤ
  pub target : ℤ
  pub value : Option ℤ

pub record MinMax : Type 0 where
  pub min : ℤ
  pub max : ℤ

abbrev pub is_min_max_valid : MinMax → Bool
is_min_max_valid range = leb_ℤ (pos 0) range.min && leb_ℤ range.min range.max

abbrev pub min_ℤ : ℤ → ℤ → ℤ
min_ℤ a b = if leb_ℤ a b then a else b

abbrev pub max_ℤ : ℤ → ℤ → ℤ
max_ℤ a b = if leb_ℤ a b then b else a

-- The loop that `getRankMinMax` and `getTypeMinMax` share; -1 stands for no value yet.
unfoldable pub min_max_from : MinMax → List ℤ → MinMax
min_max_from range [] = range
min_max_from range (n ∷ ns) =
    min_max_from
      (record {
        min = if eq_ℤ range.min (negsuc 0) then n else min_ℤ range.min n;
        max = if eq_ℤ range.max (negsuc 0) then n else max_ℤ range.max n;
      })
      ns

abbrev pub no_range : MinMax
no_range = record { min = negsuc 0; max = negsuc 0 }

unfoldable pub get_rank_min_max : List DeckCard → MinMax
unfolding min_max_from
get_rank_min_max deck = min_max_from no_range (map (λ (card : DeckCard). card.rank) deck)

unfoldable pub get_type_min_max : List Action → MinMax
unfolding min_max_from
get_type_min_max actions = min_max_from no_range (map (λ (action : Action). action.type) actions)

-- `range.max - range.min + 1`
abbrev pub size : MinMax → ℕ
size range = pos_part (range.max -ℤ range.min +ℤ pos 1)

unfoldable pub deck_card_to_string : DeckCard → MinMax → Text
deck_card_to_string card range =
    char_at base62 (times card.suit_index (size range) +ℤ (card.rank -ℤ range.min))

-- The decoded rank counts from 1, whatever the smallest rank is.
unfoldable pub string_to_deck_card : Text → MinMax → DeckCard
unfolding base62_index
string_to_deck_card src range =
    let r = size range in
    let index = base62_index src in
    let rank = rem_ℤ index r +ℤ pos 1 in
    record { suit_index = floor_div (index -ℤ rank +ℤ pos 1) r; rank = rank }

abbrev pub join_cards : List DeckCard → MinMax → Text
join_cards [] range = []
join_cards (card ∷ deck) range = deck_card_to_string card range ++ join_cards deck range

unfoldable pub compress_deck : List DeckCard → Option Text
unfolding get_rank_min_max deck_card_to_string
compress_deck deck =
    let range = get_rank_min_max deck in
    if is_min_max_valid range
    then some (to_string range.min ++ to_string range.max ++ join_cards deck range)
    else none

abbrev pub coded_value : Option ℤ → ℤ
coded_value none = pos 0
coded_value (some value) = value +ℤ pos 1

unfoldable pub action_to_string : Action → MinMax → Text
action_to_string action range =
    char_at base62 (times (coded_value action.value) (size range) +ℤ action.type -ℤ range.min)
    ++ char_at base62 action.target

abbrev pub decoded_value : ℤ → Option ℤ
decoded_value val = if eq_ℤ val (pos 0) then none else some (val -ℤ pos 1)

unfoldable pub string_to_action : Text → MinMax → Action
unfolding base62_index
string_to_action src range =
    let r = size range in
    let index = base62_index (char_at src (pos 0)) in
    let type = rem_ℤ index r in
    record {
      type = type +ℤ range.min;
      target = base62_index (char_at src (pos 1));
      value = decoded_value (floor_div (index -ℤ type) r);
    }

abbrev pub join_actions : List Action → MinMax → Text
join_actions [] range = []
join_actions (action ∷ actions) range = action_to_string action range ++ join_actions actions range

unfoldable pub compress_actions : List Action → Text
unfolding get_type_min_max action_to_string
compress_actions actions =
    let range = get_type_min_max actions in
    if is_min_max_valid range
    then to_string range.min ++ to_string range.max ++ join_actions actions range
    else 48 ∷ 48 ∷ []

-- The loop over the characters after the first two.
unfoldable pub decode_cards : Text → MinMax → List DeckCard
unfolding string_to_deck_card
decode_cards [] range = []
decode_cards (c ∷ cs) range = string_to_deck_card (c ∷ []) range ∷ decode_cards cs range

-- The loop over pairs of characters; the last slice may have one character only.
unfoldable pub decode_actions : Text → MinMax → List Action
unfolding string_to_action
decode_actions [] range = []
decode_actions (c ∷ []) range = string_to_action (c ∷ []) range ∷ []
decode_actions (c ∷ d ∷ cs) range = string_to_action (c ∷ d ∷ []) range ∷ decode_actions cs range

abbrev pub drop : ℕ → Text → Text
drop zero text = text
drop (suc n) [] = []
drop (suc n) (c ∷ cs) = drop n cs

-- `parseIntSafe` of the package complete-common is a parameter.
module _ (parse_int_safe : Text → Option ℤ) where
  -- The range that stands in the first two characters.
  unfoldable pub parse_range : Text → Option MinMax
  parse_range src = elim (parse_int_safe (char_at src (pos 0))) [
    | none ↦ none
    | some min ↦ elim (parse_int_safe (char_at src (pos 1))) [
      | none ↦ none
      | some max ↦ some (record { min = min; max = max })
    ]
  ]

  unfoldable pub decompress_deck : Text → Option (List DeckCard)
  unfolding parse_range decode_cards
  decompress_deck src = elim (parse_range src) [
    | none ↦ none
    | some range ↦ if is_min_max_valid range then some (decode_cards (drop 2 src) range) else none
  ]

  unfoldable pub decompress_actions : Text → Option (List Action)
  unfolding parse_range decode_actions
  decompress_actions src = elim (parse_range src) [
    | none ↦ none
    | some range ↦ some (if is_min_max_valid range then decode_actions (drop 2 src) range else [])
  ]

-- ===== src/Rules/Clues.antt =====
-- rules/clues.ts: which cards a clue touches
use text.Mathlib.Text.{◌==◌ as str_eq}
use hanabi_live.Prelude.{
  ℕ, ◌-◌, ◌%◌, Bool, true, false, not, ◌&&◌, Option, none, some, [], ◌∷◌, option_eq, ◌==◌,
  get_elem?, length, any, includes, leb, if◌then◌else◌,
}
use hanabi_live.Result.{Result, ok, assert_defined, no_color, ◌>>=◌}
use hanabi_live.Types.Variant.{Color, Suit, Variant, start_card_rank}
use hanabi_live.Types.Action.{MsgClue, msg_color, msg_rank, hidden, Clue, color_clue, rank_clue}
use hanabi_live.Types.Game.{GameMetadata}
use hanabi_live.Rules.Characters.{get_character_name_for_player, is_quacker}

abbrev pub same_color : Color → Color → Bool
same_color a b = str_eq a.name b.name

-- `none` for a hidden clue, which the callers treat apart.
unfoldable pub msg_clue_to_clue : MsgClue → Variant → Result (Option Clue)
msg_clue_to_clue (msg_color index) variant = do
  color ← assert_defined no_color (get_elem? variant.clue_colors index)
  ok (some (color_clue color))
msg_clue_to_clue (msg_rank rank) variant = ok (some (rank_clue rank))
msg_clue_to_clue hidden variant = ok none

-- "START" cards count as rank 0. With no clue colours both indices are out of range.
unfoldable pub get_color_for_prism_card : Variant → ℕ → Result Color
get_color_for_prism_card variant rank =
    let n = length variant.clue_colors in
    assert_defined no_color
      (get_elem? variant.clue_colors (if rank == start_card_rank then n - 1 else (rank - 1) % n))

-- In Synesthesia a card is touched as a prism card would be.
unfoldable pub synesthesia_match : Variant → Color → Suit → ℕ → Bool
synesthesia_match variant color suit rank =
    variant.synesthesia
    && not suit.no_clue_ranks
    && elim (get_elem? variant.clue_colors ((rank - 1) % length variant.clue_colors)) [
      | none ↦ false
      | some prism ↦ same_color color prism
    ]

unfoldable pub is_card_touched_by_clue_color : Variant → Color → Suit → ℕ → Result Bool
unfolding synesthesia_match
is_card_touched_by_clue_color variant color suit rank =
    let special = option_eq variant.special_rank (some rank) in
    if variant.color_clues_touch_nothing
    then ok false
    else if suit.all_clue_colors
    then ok true
    else if suit.no_clue_colors
    then ok false
    else if synesthesia_match variant color suit rank
    then ok true
    else if special && variant.special_rank_all_clue_colors
    then ok true
    else if special && variant.special_rank_no_clue_colors
    then ok false
    else if suit.prism
    then (do prism ← get_color_for_prism_card variant rank; ok (same_color color prism))
    else ok (any (λ c. same_color c color) suit.clue_colors)

unfoldable pub is_card_touched_by_clue_rank : Variant → ℕ → ℕ → Suit → ℕ → Bool
is_card_touched_by_clue_rank variant clue_rank suit_index suit rank =
    let special = option_eq variant.special_rank (some rank) in
    if variant.rank_clues_touch_nothing
    then false
    else if suit.all_clue_ranks
    then true
    else if suit.no_clue_ranks
    then false
    else if variant.funnels
    then leb rank clue_rank
    else if variant.chimneys
    then leb clue_rank rank
    else if variant.odds_and_evens
    then (if clue_rank == 1 then includes (1 ∷ 3 ∷ 5 ∷ []) rank else includes (2 ∷ 4 ∷ []) rank)
    else if special && variant.special_rank_all_clue_ranks
    then true
    else if special && variant.special_rank_no_clue_ranks
    then false
    else if special && variant.special_rank_deceptive
    then option_eq (some clue_rank)
        (get_elem? variant.clue_ranks (suit_index % length variant.clue_ranks))
    else clue_rank == rank

abbrev touches : Variant → Clue → ℕ → Suit → ℕ → Result Bool
touches variant (color_clue color) suit_index suit rank =
    is_card_touched_by_clue_color variant color suit rank
touches variant (rank_clue value) suit_index suit rank =
    ok (is_card_touched_by_clue_rank variant value suit_index suit rank)

unfoldable pub is_card_touched_by_clue : Variant → Clue → ℕ → ℕ → Result Bool
is_card_touched_by_clue variant clue suit_index rank = elim (get_elem? variant.suits suit_index) [
  | none ↦ ok false
  | some suit ↦ touches variant clue suit_index suit rank
]

unfoldable pub should_apply_clue : ℕ → GameMetadata → Variant → Result Bool
should_apply_clue giver metadata variant = do
  name ← get_character_name_for_player (some giver) metadata.character_assignments
  ok (not variant.cow_and_pig && not variant.duck && not (is_quacker name))

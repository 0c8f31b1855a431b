-- ===== src/Rules/ClueTokens.antt =====
-- rules/clueTokens.ts. In "Clue Starved" variants a discard is worth half a clue; the functions that
-- return 0.5 in the source count half clues here.
pub mod Bounds
use hanabi_live.Prelude.{ℕ, ◌*◌, Bool, false, not, ◌&&◌, if◌then◌else◌}
use hanabi_live.Prelude.Int.{ℤ, pos, ◌+ℤ◌, leb_ℤ}
use hanabi_live.Types.Variant.{Variant, max_clue_num}
use hanabi_live.Types.Action.{CardAction, played, discarded}

unfoldable pub get_adjusted_clue_tokens : ℕ → Variant → ℕ
get_adjusted_clue_tokens tokens variant = if variant.clue_starved then tokens * 2 else tokens

-- The result counts half clues.
unfoldable pub get_unadjusted_clue_tokens : ℤ → Variant → ℤ
get_unadjusted_clue_tokens adjusted variant =
    if variant.clue_starved then adjusted else adjusted +ℤ adjusted

unfoldable pub is_at_max_clue_tokens : ℤ → Variant → Bool
unfolding get_adjusted_clue_tokens
is_at_max_clue_tokens tokens variant =
    leb_ℤ (pos (get_adjusted_clue_tokens max_clue_num variant)) tokens

abbrev generates : CardAction → Variant → Bool → Bool
generates (played a) variant stack_complete = stack_complete && not variant.throw_it_in_a_hole
generates (discarded a) variant stack_complete = not a.failed

unfoldable pub should_action_generate_clue_token : CardAction → ℤ → Variant → Bool → Bool
unfolding is_at_max_clue_tokens
should_action_generate_clue_token action tokens variant stack_complete =
    if is_at_max_clue_tokens tokens variant then false else generates action variant stack_complete

unfoldable pub get_new_clue_tokens_after_action : CardAction → ℤ → Variant → Bool → ℤ
unfolding should_action_generate_clue_token
get_new_clue_tokens_after_action action tokens variant stack_complete =
    if should_action_generate_clue_token action tokens variant stack_complete
    then tokens +ℤ pos 1
    else tokens

-- In half clues.
unfoldable pub get_discard_clue_token_value : Variant → ℕ
get_discard_clue_token_value variant = if variant.clue_starved then 1 else 2

-- In half clues.
unfoldable pub get_suit_complete_clue_token_value : Variant → ℕ
get_suit_complete_clue_token_value variant =
    if variant.throw_it_in_a_hole then 0 else if variant.clue_starved then 1 else 2

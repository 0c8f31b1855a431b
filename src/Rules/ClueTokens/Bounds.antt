-- ===== src/Rules/ClueTokens/Bounds.antt =====
-- How the clue tokens of rules/clueTokens.ts may change.
use hanabi_live.Prelude.{Bool, arith}
use hanabi_live.Prelude.Int.{ℤ, pos, ◌≤ℤ◌}
use hanabi_live.Types.Variant.{Variant, max_clue_num}
use hanabi_live.Types.Action.{CardAction, played, discarded}
use hanabi_live.Rules.ClueTokens.{get_adjusted_clue_tokens, get_new_clue_tokens_after_action}

-- A play or a discard never takes the clue tokens past the maximum of the variant.
pub get_new_clue_tokens_after_action-le-max :
    (action : CardAction) (tokens : ℤ) (variant : Variant) (complete : Bool)
    → tokens ≤ℤ pos (get_adjusted_clue_tokens max_clue_num variant)
    → get_new_clue_tokens_after_action action tokens variant complete
      ≤ℤ pos (get_adjusted_clue_tokens max_clue_num variant)
unfolding get_new_clue_tokens_after_action get_adjusted_clue_tokens
get_new_clue_tokens_after_action-le-max (played a) tokens variant complete h = ground arith
get_new_clue_tokens_after_action-le-max (discarded a) tokens variant complete h = ground arith

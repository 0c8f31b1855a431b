-- ===== src/Rules/Pace.antt =====
-- rules/stats.ts: the maximum score, the pace and its risk
pub mod Risk
use hanabi_live.Prelude.{ℕ, ◌+◌, ◌*◌, ◌/◌, Bool, ◌||◌, Option, none, some, if◌then◌else◌}
use hanabi_live.Prelude.Int.{ℤ, pos, ◌+ℤ◌, ◌-ℤ◌, ltb_ℤ, leb_ℤ}
use hanabi_live.Result.{Result, ok, ◌>>=◌}
use hanabi_live.Types.Variant.{Variant}
use hanabi_live.Types.Game.{NumPlayers, to_number, PaceRisk, low, medium, high, zero}
use hanabi_live.Rules.Deck.{get_total_cards_in_deck}

unfoldable pub get_max_discards_before_final_round : ℤ → ℤ → ℕ → ℤ
get_max_discards_before_final_round cards_to_play deck_size end_game_length =
    if leb_ℤ cards_to_play (pos (end_game_length + 1))
    then deck_size -ℤ pos 1
    else if leb_ℤ cards_to_play (pos end_game_length +ℤ deck_size)
    then pos end_game_length +ℤ deck_size -ℤ cards_to_play
    else pos 0

unfoldable pub get_max_plays_during_final_round : ℤ → ℕ → ℤ
get_max_plays_during_final_round cards_to_play end_game_length =
    if ltb_ℤ cards_to_play (pos (end_game_length + 1))
    then cards_to_play
    else pos (end_game_length + 1)

unfoldable pub get_max_plays : ℤ → ℤ → ℕ → ℤ
get_max_plays cards_to_play deck_size end_game_length =
    if leb_ℤ cards_to_play (pos end_game_length +ℤ deck_size)
    then cards_to_play
    else pos end_game_length +ℤ deck_size

unfoldable pub get_pace : ℕ → ℤ → ℕ → ℕ → Bool → Option ℤ
get_pace score deck_size max_score end_game_length game_over =
    if game_over || leb_ℤ deck_size (pos 0)
    then none
    else some (pos score +ℤ deck_size -ℤ pos max_score +ℤ pos end_game_length)

unfoldable pub get_pace_risk : Option ℤ → NumPlayers → PaceRisk
get_pace_risk none num_players = low
get_pace_risk (some pace) num_players =
    let n = to_number num_players in
    if leb_ℤ pace (pos 0)
    then zero
    else if ltb_ℤ (pace -ℤ pos n +ℤ pos (n / 2)) (pos 0)
    then high
    else if ltb_ℤ (pace -ℤ pos n) (pos 0)
    then medium
    else low

unfoldable pub get_starting_deck_size : NumPlayers → ℕ → Variant → Result ℤ
get_starting_deck_size num_players cards_per_hand variant = do
  total ← get_total_cards_in_deck variant
  ok (pos total -ℤ pos (cards_per_hand * to_number num_players))

unfoldable pub get_starting_pace : ℤ → ℕ → ℕ → ℤ
get_starting_pace deck_size max_score end_game_length =
    pos end_game_length +ℤ deck_size -ℤ pos max_score

-- ===== src/Rules/Pace/Risk.antt =====
-- The pace of rules/stats.ts and the risk that it stands for.
use hanabi_live.Prelude.{ℕ, ◌≤◌, ◌≡◌, ◌↔◌, ◌-◌, false, some, arith}
use hanabi_live.Prelude.Int.{ℤ, pos, ◌≤ℤ◌}
use hanabi_live.Types.Game.{NumPlayers, PaceRisk, low, medium, high, zero}
use hanabi_live.Rules.Pace.{get_pace, get_pace_risk, get_starting_pace, get_max_plays}

abbrev pub severity : PaceRisk → ℕ
severity low = 0
severity medium = 1
severity high = 2
severity zero = 3

-- More pace never means more risk, for any number of players.
pub severity-get_pace_risk_antitone :
    (pace pace' : ℤ) (n : NumPlayers)
    → pace ≤ℤ pace'
    → severity (get_pace_risk (some pace') n) ≤ severity (get_pace_risk (some pace) n)
unfolding get_pace_risk
severity-get_pace_risk_antitone pace pace' NumPlayers.two h = ground arith
severity-get_pace_risk_antitone pace pace' NumPlayers.three h = ground arith
severity-get_pace_risk_antitone pace pace' NumPlayers.four h = ground arith
severity-get_pace_risk_antitone pace pace' NumPlayers.five h = ground arith
severity-get_pace_risk_antitone pace pace' NumPlayers.six h = ground arith

-- With a card left in the deck, the pace of a running game with score 0 is the starting pace.
pub get_pace-get_starting_pace :
    (deck_size : ℤ) (max_score end_game_length : ℕ)
    → pos 1 ≤ℤ deck_size
    → get_pace 0 deck_size max_score end_game_length false
      ≡ some (get_starting_pace deck_size max_score end_game_length)
unfolding get_pace get_starting_pace
get_pace-get_starting_pace deck_size max_score end_game_length h = ground arith

-- If the pace of a running game with a score of at most the maximum is defined, it is at least 0
-- exactly if all the cards that are still to be played can be played.
pub get_pace-get_max_plays :
    (score max_score end_game_length : ℕ) (deck_size pace : ℤ)
    → score ≤ max_score
    → get_pace score deck_size max_score end_game_length false ≡ some pace
    → (pos 0 ≤ℤ pace) ↔ (
        get_max_plays (pos (max_score - score)) deck_size end_game_length ≡ pos (max_score - score))
unfolding get_pace get_max_plays
get_pace-get_max_plays score max_score end_game_length deck_size pace h e = ground arith

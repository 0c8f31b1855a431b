-- ===== src/Rules/Turn/Order.antt =====
-- The order of play of rules/turn.ts.
use hanabi_live.Prelude.{ℕ, ◌<◌, ◌≤◌, ◌≡◌, Bool, not, some, arith}
use hanabi_live.Types.Game.{NumPlayers, two, three, four, five, six, to_number}
use hanabi_live.Rules.Turn.{get_next_player_index}

pub to_number_bounds : (n : NumPlayers) → (2 ≤ to_number n) × (to_number n ≤ 6)
to_number_bounds two = omega arith
to_number_bounds three = omega arith
to_number_bounds four = omega arith
to_number_bounds five = omega arith
to_number_bounds six = omega arith

-- From a player of the game the next player is a player of the game, in both directions.
pub get_next_player_index_bounds :
    (current : ℕ) (n : NumPlayers) (inverted : Bool) {next : ℕ}
    → current < to_number n
    → get_next_player_index (some current) n inverted ≡ some next
    → next < to_number n
unfolding get_next_player_index
get_next_player_index_bounds current n inverted h e = ground (arith, to_number_bounds n)

-- From a player of the game, a step in one direction and a step in the other lead back to that
-- player.
pub get_next_player_index_inverse :
    (current : ℕ) (n : NumPlayers) (inverted : Bool)
    → current < to_number n
    → get_next_player_index (get_next_player_index (some current) n inverted) n (not inverted)
      ≡ some current
unfolding get_next_player_index
get_next_player_index_inverse current n inverted h = ground (arith, to_number_bounds n)

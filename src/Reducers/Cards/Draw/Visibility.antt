-- ===== src/Reducers/Cards/Draw/Visibility.antt =====
-- Which drawn cards the detrimental characters see, in reducers/cardsReducer.ts.
use hanabi_live.Prelude.{ℕ, ◌+◌, ◌-◌, ◌<◌, ◌≡◌, ◌↔◌, false, arith}
use native.Mathlib.Nat.{mod-eq_of_lt}
use hanabi_live.Types.Game.{oblivious}
use hanabi_live.Reducers.Cards.Draw.{sees_drawn_card}

-- Among the players of a game, one with the "Oblivious" character does not see what the player of
-- one index less draws, and sees what every other player draws. There is no such index for player
-- 0, who sees also what the last player draws.
pub sees_drawn_card-oblivious :
    (player draw_location num_players : ℕ)
    → player < num_players
    → draw_location < num_players
    → (sees_drawn_card oblivious player draw_location num_players ≡ false)
      ↔ (draw_location + 1 ≡ player)
unfolding sees_drawn_card
sees_drawn_card-oblivious player draw_location num_players h k =
    ground (arith, mod-eq_of_lt {n = player - 1} {m = num_players})

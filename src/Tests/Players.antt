-- ===== src/Tests/Players.antt =====
-- Turns, hands and deductions at concrete tables.
use hanabi_live.Prelude.{◌+◌, ◌≡◌, ◌↔◌, ◌⊎◌, refl, true, false, some, [], ◌∷◌, arith}
use hanabi_live.Prelude.Int.{pos}
use hanabi_live.Result.{ok}
use hanabi_live.Types.Game.{NumPlayers, TurnState, GameState, oblivious}
use hanabi_live.Rules.Turn.{get_next_player_index}
use hanabi_live.Rules.Turn.Order.{get_next_player_index_inverse}
use hanabi_live.Rules.Hand.{get_chop_index, last_index}
use hanabi_live.Rules.Hand.Chop.{IsFirstUnclued, AllClued, get_chop_index_lem}
use hanabi_live.Reducers.Turn.{turn_reducer}
use hanabi_live.Reducers.Turn.Progress.{
  IsPlayer, turn_reducer-IsPlayer, turn_reducer-steps, turn_reducer-end_turn_num,
}
use hanabi_live.Reducers.Cards.Draw.{sees_drawn_card}
use hanabi_live.Reducers.Cards.Draw.Visibility.{sees_drawn_card-oblivious}
use hanabi_live.Tests.Samples.{sample_state, sample_turn, sample_deck, sample_metadata, sample_play}

-- The last turns: the deck is empty, and the end is set.
abbrev pub last_turn : TurnState
last_turn = record sample_turn { end_turn_num = some 3 }

abbrev pub last_state : GameState
last_state = record sample_state { turn = last_turn; cards_remaining_in_the_deck = pos 0 }

abbrev turn_after : TurnState
turn_after = record last_turn { turn_num = 2; segment = some 2; current_player_index = some 1 }

turn_returns : turn_reducer last_turn sample_play last_state sample_metadata ≡ ok turn_after
unfolding turn_reducer hanabi_live.Rules.Characters.get_character_name_for_player
    get_next_player_index hanabi_live.Rules.Turn.should_play_order_invert
turn_returns = refl

turn_reducer-IsPlayer_example : IsPlayer 2 (some 1)
turn_reducer-IsPlayer_example =
    turn_reducer-IsPlayer sample_metadata last_turn sample_play last_state turn_after turn_returns
      (omega arith)

turn_reducer-end_turn_num_example : turn_after.end_turn_num ≡ some 3
turn_reducer-end_turn_num_example =
    turn_reducer-end_turn_num sample_metadata last_turn sample_play last_state turn_after
      turn_returns 3 refl

turn_reducer-steps_example :
    ((turn_after.turn_num ≡ 1) ⊎ (turn_after.turn_num ≡ 2))
    × ((turn_after.segment ≡ some 1) ⊎ (turn_after.segment ≡ some 2))
turn_reducer-steps_example =
    turn_reducer-steps sample_metadata last_turn sample_play last_state turn_after turn_returns

next_returns : get_next_player_index (some 3) NumPlayers.four false ≡ some 0
unfolding get_next_player_index
next_returns = refl

get_next_player_index_inverse_example :
    get_next_player_index
      (get_next_player_index (some 3) NumPlayers.four false)
      NumPlayers.four
      true
    ≡ some 3
get_next_player_index_inverse_example =
    get_next_player_index_inverse 3 NumPlayers.four false (omega arith)

chop_returns : get_chop_index (1 ∷ 0 ∷ []) sample_deck ≡ some 0
unfolding get_chop_index hanabi_live.Rules.Hand.find_unclued
chop_returns = refl

get_chop_index_lem_example :
    IsFirstUnclued (1 ∷ 0 ∷ []) sample_deck 0
    ⊎ AllClued (1 ∷ 0 ∷ []) sample_deck × (last_index (1 ∷ 0 ∷ []) ≡ some 0)
get_chop_index_lem_example = get_chop_index_lem (1 ∷ 0 ∷ []) sample_deck 0 chop_returns

sees_drawn_card-oblivious_example : (sees_drawn_card oblivious 0 3 4 ≡ false) ↔ (3 + 1 ≡ 0)
sees_drawn_card-oblivious_example = sees_drawn_card-oblivious 0 3 4 (omega arith) (omega arith)

-- ===== src/Types/Action.antt =====
-- types/gameActions.ts, types/MsgClue.ts, types/Clue.ts, types/HiddenClue.ts, enums/EndCondition.ts.
-- The suit index or rank -1 of an unknown card is `none`.
use hanabi_live.Prelude.{ℕ, Bool, Option, List}
use hanabi_live.Prelude.Int.{ℤ}
use hanabi_live.Types.Variant.{Color}

pub data EndCondition : Type 0 where
  in_progress normal strikeout timeout terminated_by_player speedrun_fail : EndCondition
  idle_timeout character_softlock all_or_nothing_fail all_or_nothing_softlock : EndCondition
  terminated_by_vote : EndCondition

-- `MsgClue | HiddenClue`: the colour is an index into the variant's clue colours.
pub data MsgClue : Type 0 where
  msg_color : ℕ → MsgClue
  msg_rank : ℕ → MsgClue
  hidden : MsgClue

pub data Clue : Type 0 where
  color_clue : Color → Clue
  rank_clue : ℕ → Clue

pub record ActionCardIdentity : Type 0 where
  pub player_index : ℕ
  pub order : ℕ
  pub suit_index : Option ℕ
  pub rank : Option ℕ

pub record ActionClue : Type 0 where
  pub clue : MsgClue
  pub giver : ℕ
  pub list : List ℕ
  pub target : ℕ
  pub ignore_negative : Bool

pub record ActionDiscard : Type 0 where
  pub player_index : ℕ
  pub order : ℕ
  pub suit_index : Option ℕ
  pub rank : Option ℕ
  pub failed : Bool

pub record ActionDraw : Type 0 where
  pub player_index : ℕ
  pub order : ℕ
  pub suit_index : Option ℕ
  pub rank : Option ℕ

pub record ActionGameOver : Type 0 where
  pub end_condition : EndCondition
  pub player_index : ℕ
  pub votes : Option (List ℕ)

pub record ActionPlay : Type 0 where
  pub player_index : ℕ
  pub order : ℕ
  pub suit_index : Option ℕ
  pub rank : Option ℕ

pub record ActionPlayerTimes : Type 0 where
  pub player_times : List ℤ
  pub duration : ℕ

pub record ActionStrike : Type 0 where
  pub num : ℕ
  pub order : ℕ
  pub turn : ℕ

-- The six actions at the end carry data that no game reducer reads.
pub data GameAction : Type 0 where
  card_identity : ActionCardIdentity → GameAction
  clue : ActionClue → GameAction
  discard : ActionDiscard → GameAction
  draw : ActionDraw → GameAction
  game_over : ActionGameOver → GameAction
  play : ActionPlay → GameAction
  player_times : ActionPlayerTimes → GameAction
  strike : ActionStrike → GameAction
  turn set_eff_mod edit_note note_list note_list_player receive_note : GameAction

-- `ActionPlay | ActionDiscard`, the argument of the helpers that serve both.
pub data CardAction : Type 0 where
  played : ActionPlay → CardAction
  discarded : ActionDiscard → CardAction

-- ===== src/Types/Card.antt =====
-- interfaces/CardState.ts, interfaces/CardNote.ts, enums/CardStatus.ts, types/SuitRankTuple.ts
use hanabi_live.Prelude.{ℕ, Bool, Option, List}
use hanabi_live.Types.Variant.{Color}

-- "deck" | "discard" | "playStack" | PlayerIndex
pub data Location : Type 0 where
  deck discard play_stack : Location
  player : ℕ → Location

pub data CardStatus : Type 0 where
  needs_to_be_played critical trash : CardStatus

abbrev pub SuitRankTuple : Type 0
SuitRankTuple = ℕ × ℕ

pub record CardState : Type 0 where
  pub order : ℕ
  pub location : Location
  pub suit_index : Option ℕ
  pub rank : Option ℕ
  pub possible_cards_from_clues : List SuitRankTuple
  pub possible_cards : List SuitRankTuple
  pub possible_cards_for_empathy : List SuitRankTuple
  pub revealed_to_player : List Bool
  pub positive_color_clues : List Color
  pub positive_rank_clues : List ℕ
  pub suit_determined : Bool
  pub rank_determined : Bool
  pub has_clue_applied : Bool
  pub num_positive_clues : ℕ
  pub segment_first_clued : Option ℕ
  pub segment_drawn : Option ℕ
  pub segment_discarded : Option ℕ
  pub segment_played : Option ℕ
  pub in_double_discard : Bool
  pub is_known_trash_from_empathy : Bool
  pub is_misplayed : Bool
  pub dealt_to_starting_hand : Bool
  pub first_clued_while_on_chop : Option Bool

-- interfaces/CardIdentity.ts: `null` for what is not known
pub record CardIdentity : Type 0 where
  pub suit_index : Option ℕ
  pub rank : Option ℕ

-- The flags of a note that the statistics read, and the identities it names.
pub record CardNote : Type 0 where
  pub known_trash : Bool
  pub finessed : Bool
  pub unclued : Bool
  pub clued : Bool
  pub possibilities : List SuitRankTuple

-- ===== src/Types/Variant.antt =====
-- constants.ts, interfaces/Color.ts, interfaces/Suit.ts, interfaces/Variant.ts
use hanabi_live.Prelude.{ℕ, String, Bool, Option, List}

abbrev pub start_card_rank : ℕ
start_card_rank = 7

abbrev pub max_clue_num : ℕ
max_clue_num = 8

abbrev pub max_players : ℕ
max_players = 6

-- The catalogue holds one object for each colour name, so that comparing two colours as objects
-- and comparing their names is the same.
pub record Color : Type 0 where
  pub name : String

pub record Suit : Type 0 where
  pub one_of_each : Bool
  pub clue_colors : List Color
  pub all_clue_colors : Bool
  pub no_clue_colors : Bool
  pub all_clue_ranks : Bool
  pub no_clue_ranks : Bool
  pub prism : Bool
  pub inverted : Bool
  pub reversed : Bool

-- A rank is a number, 1 to 5 or `start_card_rank`; `undefined` is `none`.
pub record Variant : Type 0 where
  pub suits : List Suit
  pub clue_colors : List Color
  pub clue_ranks : List ℕ
  pub ranks : List ℕ
  pub stack_size : ℕ
  pub max_score : ℕ
  pub special_rank : Option ℕ
  pub special_rank_all_clue_colors : Bool
  pub special_rank_all_clue_ranks : Bool
  pub special_rank_no_clue_colors : Bool
  pub special_rank_no_clue_ranks : Bool
  pub special_rank_deceptive : Bool
  pub critical_rank : Option ℕ
  pub scarce_ones : Bool
  pub clue_starved : Bool
  pub color_clues_touch_nothing : Bool
  pub rank_clues_touch_nothing : Bool
  pub cow_and_pig : Bool
  pub duck : Bool
  pub odds_and_evens : Bool
  pub synesthesia : Bool
  pub up_or_down : Bool
  pub throw_it_in_a_hole : Bool
  pub funnels : Bool
  pub chimneys : Bool
  pub sudoku : Bool

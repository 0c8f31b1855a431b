-- ===== src/Types/Game.antt =====
-- interfaces/TurnState.ts, GameState.ts, StatsState.ts, GameMetadata.ts, Options.ts, StateStrike.ts,
-- types/StateClue.ts, types/NumPlayers.ts, enums/StackDirection.ts, enums/PaceRisk.ts and the
-- character names of json/characters.json
use hanabi_live.Prelude.{ℕ, String, Bool, Option, List}
use hanabi_live.Prelude.Int.{ℤ}
use hanabi_live.Types.Variant.{Variant}
use hanabi_live.Types.Card.{CardState, CardStatus}
use hanabi_live.Types.Action.{MsgClue, EndCondition, ActionClue, ActionDiscard, ActionPlay}

pub data StackDirection : Type 0 where
  undecided up down finished : StackDirection

pub data PaceRisk : Type 0 where
  low medium high zero : PaceRisk

pub data NumPlayers : Type 0 where
  two three four five six : NumPlayers

abbrev pub to_number : NumPlayers → ℕ
to_number two = 2
to_number three = 3
to_number four = 4
to_number five = 5
to_number six = 6

pub record Options : Type 0 where
  pub num_players : NumPlayers
  pub starting_player : ℕ
  pub timed : Bool
  pub card_cycle : Bool
  pub deck_plays : Bool
  pub one_extra_card : Bool
  pub one_less_card : Bool
  pub detrimental_characters : Bool

-- `options.variantName` is looked up once: `variant` is `getVariant(metadata.options.variantName)`.
pub record GameMetadata : Type 0 where
  pub options : Options
  pub variant : Variant
  pub our_player_index : ℕ
  pub our_username : String
  pub character_assignments : List (Option ℕ)

pub record TurnState : Type 0 where
  pub segment : Option ℕ
  pub turn_num : ℕ
  pub current_player_index : Option ℕ
  pub play_order_inverted : Bool
  pub end_turn_num : Option ℕ
  pub cards_played_or_discarded_this_turn : ℕ
  pub cards_discarded_this_turn : ℕ
  pub clues_given_this_turn : ℕ

-- `potential_clues_lost` and `clues_still_usable_not_rounded` count half clues.
pub record StatsState : Type 0 where
  pub max_score : ℕ
  pub max_score_per_stack : List ℕ
  pub pace : Option ℤ
  pub pace_risk : PaceRisk
  pub final_round_effectively_started : Bool
  pub cards_gotten : ℕ
  pub potential_clues_lost : ℕ
  pub clues_still_usable : Option ℤ
  pub clues_still_usable_not_rounded : Option ℤ
  pub cards_gotten_by_notes : Option ℤ
  pub double_discard_card : Option ℕ
  pub num_subsequent_blind_plays : ℕ
  pub num_subsequent_misplays : ℕ
  pub num_attempted_cards_played : ℕ

-- The text of a log entry, as the call of rules/text.ts that renders it.
pub data LogText : Type 0 where
  clue_text : ActionClue → (target_hand : List ℕ) → (hypothetical : Bool) → LogText
  discard_text :
      ActionDiscard
      → (slot : Option ℕ) → (touched critical playing shadowing hypothetical : Bool) → LogText
  play_text :
      ActionPlay → (slot : Option ℕ) → (touched playing shadowing hypothetical : Bool) → LogText
  goes_first_text : Option ℕ → LogText
  game_over_text : EndCondition → (player_index score : ℕ) → (votes : Option (List ℕ)) → LogText
  player_time_text : (player_index : ℕ) → (milliseconds : ℤ) → (timed : Bool) → LogText
  duration_text : ℕ → LogText

pub record LogEntry : Type 0 where
  pub turn : ℕ
  pub text : LogText

pub record StateStrike : Type 0 where
  pub segment : ℕ
  pub order : ℕ

pub record StateClue : Type 0 where
  pub clue : MsgClue
  pub giver : ℕ
  pub target : ℕ
  pub segment : ℕ
  pub list : List ℕ
  pub negative_list : List ℕ

-- `card_status` is indexed by suit index and rank.
pub record GameState : Type 0 where
  pub turn : TurnState
  pub log : List LogEntry
  pub deck : List CardState
  pub cards_remaining_in_the_deck : ℤ
  pub card_status : ℕ → ℕ → Option CardStatus
  pub score : ℕ
  pub clue_tokens : ℤ
  pub strikes : List StateStrike
  pub hands : List (List ℕ)
  pub play_stacks : List (List ℕ)
  pub play_stack_directions : List StackDirection
  pub play_stack_starts : List (Option ℕ)
  pub hole : List ℕ
  pub discard_stacks : List (List ℕ)
  pub clues : List StateClue
  pub stats : StatsState

-- The names in json/characters.json; `no_name` is the empty string.
pub data CharacterName : Type 0 where
  no_name fuming dumbfounded inept awkward conservative greedy picky spiteful : CharacterName
  insolent vindictive miser compulsive mood_swings insistent vulnerable color_blind : CharacterName
  impulsive indolent hesitant anxious traumatized wasteful genius panicky : CharacterName
  contrarian stubborn blind_spot oblivious follower slow_witted quacker : CharacterName

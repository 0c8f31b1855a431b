-- ===== src/Reducers/Stats.antt =====
-- reducers/statsReducer.ts
use hanabi_live.Prelude.{
  ℕ, suc, ◌+◌, Bool, true, false, not, ◌&&◌, ◌||◌, Option, none, some, List, map, ◌==◌, get_elem?,
  length, sum_array, if◌then◌else◌,
}
use hanabi_live.Prelude.Int.{ℤ, pos, eq_ℤ, leb_ℤ, ltb_ℤ}
use hanabi_live.Result.{Result, ok, ◌>>=◌}
use hanabi_live.Types.Variant.{Variant}
use hanabi_live.Types.Card.{CardNote}
use hanabi_live.Types.Action.{GameAction, clue, discard, play, strike}
use hanabi_live.Types.Game.{GameMetadata, GameState, StatsState}
use hanabi_live.Rules.CardState.{is_card_clued}
use hanabi_live.Rules.ClueTokens.{
  get_discard_clue_token_value, get_suit_complete_clue_token_value, get_unadjusted_clue_tokens,
}
use hanabi_live.Rules.Turn.{get_end_game_length}
use hanabi_live.Rules.Reversible.{reversible_get_max_score_per_stack}
use hanabi_live.Rules.Sudoku.MaxScore.{sudoku_get_max_score_per_stack}
use hanabi_live.Rules.Pace.{get_pace, get_pace_risk}
use hanabi_live.Rules.CluesUsable.{get_clues_still_usable, get_clues_still_usable_not_rounded}
use hanabi_live.Rules.CardsGotten.{get_cards_gotten, get_cards_gotten_by_notes}
use hanabi_live.Rules.DoubleDiscard.{stacks_of, get_double_discard_card}

-- The arguments of the reducers that say for whom the state is computed.
pub record Perspective : Type 0 where
  pub playing : Bool
  pub shadowing : Bool
  pub finished : Bool
  pub hypothetical : Bool
  pub our_notes : Option (List CardNote)

abbrev pub is_watching_live : Perspective → Bool
is_watching_live view = view.playing || view.shadowing

-- `getMaxScorePerStack` of rules/stats.ts
unfoldable pub get_max_score_per_stack : GameState → Variant → Result (List ℕ)
get_max_score_per_stack s variant =
    if variant.sudoku
    then sudoku_get_max_score_per_stack s.deck s.play_stack_starts variant
    else reversible_get_max_score_per_stack s.deck s.play_stack_directions variant

-- A stack that was completed with no clue gained.
abbrev pub stack_wasted : Option ℕ → GameState → GameState → Variant → Bool
stack_wasted none previous s variant = false
stack_wasted (some suit_index) previous s variant = elim (get_elem? s.play_stacks suit_index) [
  | none ↦ false
  | some play_stack ↦
      length play_stack == variant.stack_size
      && eq_ℤ previous.clue_tokens s.clue_tokens
      && not variant.throw_it_in_a_hole
]

-- The half clues that the action loses.
unfoldable pub clues_lost : GameAction → GameState → GameState → Perspective → Variant → ℕ
clues_lost (clue a) previous s view variant = 2
clues_lost (strike a) previous s view variant =
    if not variant.throw_it_in_a_hole || not (is_watching_live view)
    then get_discard_clue_token_value variant
    else 0
clues_lost (play a) previous s view variant =
    if stack_wasted a.suit_index previous s variant then get_discard_clue_token_value variant else 0
clues_lost _ previous s view variant = 0

abbrev pub is_play_or_discard : GameAction → Bool
is_play_or_discard (play a) = true
is_play_or_discard (discard a) = true
is_play_or_discard _ = false

abbrev pub is_one_of_three_main_actions : GameAction → Bool
is_one_of_three_main_actions (clue a) = true
is_one_of_three_main_actions (discard a) = true
is_one_of_three_main_actions (play a) = true
is_one_of_three_main_actions _ = false

abbrev pub is_failed_discard : GameAction → Bool
is_failed_discard (discard a) = a.failed
is_failed_discard _ = false

abbrev pub is_play : GameAction → Bool
is_play (play a) = true
is_play _ = false

abbrev clued_at : GameState → ℕ → Bool
clued_at s order = elim (get_elem? s.deck order) [ none ↦ false | some card ↦ is_card_clued card ]

unfoldable pub is_blind_play : GameAction → GameState → Variant → Bool
is_blind_play (play a) s variant = not (clued_at s a.order)
is_blind_play (discard a) s variant =
    variant.throw_it_in_a_hole && a.failed && not (clued_at s a.order)
is_blind_play _ s variant = false

abbrev pub max_score_part : GameAction → StatsState → GameState → Variant → Result (List ℕ × ℕ)
max_score_part action stats s variant =
    if is_play_or_discard action
    then (do per_stack ← get_max_score_per_stack s variant; ok (per_stack, sum_array per_stack))
    else ok (stats.max_score_per_stack, stats.max_score)

abbrev pub by_notes : Option (List CardNote) → GameState → Variant → Result (Option ℤ)
by_notes none s variant = ok none
by_notes (some notes) s variant = do
  n ← get_cards_gotten_by_notes s.deck (stacks_of s) variant notes
  ok (some n)

abbrev pub double_discard_part : GameAction → StatsState → GameState → Variant → Result (Option ℕ)
double_discard_part (discard a) stats s variant = get_double_discard_card a.order s variant
double_discard_part (play a) stats s variant = ok none
double_discard_part (clue a) stats s variant = ok none
double_discard_part _ stats s variant = ok stats.double_discard_card

-- A counter of a row: one more, back to 0, or as it was.
abbrev pub next_in_row : Bool → GameAction → ℕ → ℕ
next_in_row hit action n =
    if hit then suc n else if is_one_of_three_main_actions action then 0 else n

abbrev pub effectively_started : ℤ → Option ℤ → Bool
effectively_started deck_size none = true
effectively_started deck_size (some usable) = leb_ℤ deck_size (pos 0) || ltb_ℤ usable (pos 1)

abbrev pub attempted : GameAction → StatsState → ℕ
attempted action stats =
    if is_failed_discard action || is_play action
    then suc stats.num_attempted_cards_played
    else stats.num_attempted_cards_played

unfoldable pub stats_reducer :
    StatsState → GameAction → GameState → GameState → Perspective → GameMetadata → Result StatsState
unfolding clues_lost is_blind_play get_max_score_per_stack
stats_reducer stats action previous s view metadata = do
  let variant = metadata.variant
  end_game_turns ← get_end_game_length metadata.options metadata.character_assignments
  maximum ← max_score_part action stats s variant
  let score =
      if variant.throw_it_in_a_hole && is_watching_live view
      then attempted action stats
      else s.score
  let deck_size = s.cards_remaining_in_the_deck
  let game_over = elim s.turn.current_player_index as (λ _. Bool) [ none ↦ true | some _ ↦ false ]
  let pace = get_pace score deck_size maximum.1 end_game_turns game_over
  gotten ← get_cards_gotten s.deck (stacks_of s) view.playing view.shadowing maximum.1 variant
  notes ← by_notes view.our_notes s variant
  let scores = map (λ (stack : List ℕ). length stack) s.play_stacks
  let tokens = get_unadjusted_clue_tokens s.clue_tokens variant
  usable ←
      get_clues_still_usable score scores maximum.0 variant.stack_size deck_size end_game_turns
        (get_discard_clue_token_value variant) (get_suit_complete_clue_token_value variant) tokens
  not_rounded ←
      get_clues_still_usable_not_rounded score scores maximum.0 variant.stack_size deck_size
        end_game_turns (get_discard_clue_token_value variant)
        (get_suit_complete_clue_token_value variant) tokens
  double_discard ← double_discard_part action stats s variant
  ok (record {
    max_score = maximum.1;
    max_score_per_stack = maximum.0;
    pace = pace;
    pace_risk = get_pace_risk pace metadata.options.num_players;
    final_round_effectively_started = effectively_started deck_size usable;
    cards_gotten = gotten;
    potential_clues_lost = stats.potential_clues_lost + clues_lost action previous s view variant;
    clues_still_usable = usable;
    clues_still_usable_not_rounded = not_rounded;
    cards_gotten_by_notes = notes;
    double_discard_card = double_discard;
    num_subsequent_blind_plays =
        next_in_row (is_blind_play action s variant) action stats.num_subsequent_blind_plays;
    num_subsequent_misplays =
        next_in_row (is_failed_discard action) action stats.num_subsequent_misplays;
    num_attempted_cards_played = attempted action stats;
  })

-- ===== src/Reducers/Game/Reducer/Table.antt =====
-- What `derive_state`, the part of reducers/gameReducer.ts after its switch, leaves as it is.
use hanabi_live.Prelude.{
  ℕ, ◌≡◌, sym, ◌∙◌, ◌||◌, Option, none, some, List, get_elem?, Bool-cases, inl, inr, ap,
}
use hanabi_live.Prelude.Int.{ℤ}
use hanabi_live.Result.{ok, assert_defined, no_play_stack, >>=-eq-ok}
use hanabi_live.Types.Variant.{Variant}
use hanabi_live.Types.Action.{GameAction, play}
use hanabi_live.Types.Game.{GameMetadata, GameState, StateStrike, StateClue, LogEntry}
use hanabi_live.Rules.CardState.{has_reversed_suits}
use hanabi_live.Reducers.Stats.{Perspective}
use hanabi_live.Reducers.Turn.{turn_reducer}
use hanabi_live.Reducers.Cards.Reducer.{cards_reducer}
use hanabi_live.Reducers.Stats.{Perspective, stats_reducer}
use hanabi_live.Reducers.Marks.{dda_reducer, known_trash_reducer}
use hanabi_live.Rules.DoubleDiscard.{stacks_of}
use hanabi_live.Reducers.Game.Reducer.{
  direct_suit, start_suit, played_suit, resolve_direction, resolve_start, resolve_statuses,
  derive_state, changes_statuses,
}

-- The part of the state that the switch alone changes.
pub record Table : Type 0 where
  pub hands : List (List ℕ)
  pub play_stacks : List (List ℕ)
  pub discard_stacks : List (List ℕ)
  pub hole : List ℕ
  pub cards_remaining_in_the_deck : ℤ
  pub score : ℕ
  pub clue_tokens : ℤ
  pub strikes : List StateStrike
  pub clues : List StateClue
  pub log : List LogEntry

abbrev pub table_of : GameState → Table
table_of s = record {
  hands = s.hands;
  play_stacks = s.play_stacks;
  discard_stacks = s.discard_stacks;
  hole = s.hole;
  cards_remaining_in_the_deck = s.cards_remaining_in_the_deck;
  score = s.score;
  clue_tokens = s.clue_tokens;
  strikes = s.strikes;
  clues = s.clues;
  log = s.log;
}

table_of-ok : {s s' : GameState} → ok s ≡ ok s' → table_of s' ≡ table_of s
table_of-ok {s} {s'} h = ap table_of (let same : s ≡ s' = cc in sym same)

direct_suit-table_of :
    (i : Option ℕ) (s s' : GameState) (variant : Variant)
    → direct_suit i s variant ≡ ok s'
    → table_of s' ≡ table_of s
direct_suit-table_of none s s' variant h = table_of-ok h
direct_suit-table_of (some i) s s' variant h =
    let (_, _, k) = >>=-eq-ok (assert_defined no_play_stack (get_elem? s.play_stacks i)) _ h in
    table_of-ok k

resolve_direction-table_of :
    (s s' : GameState) (action : GameAction) (variant : Variant)
    → resolve_direction s action variant ≡ ok s'
    → table_of s' ≡ table_of s
unfolding resolve_direction
resolve_direction-table_of s s' (play a) variant h =
    elim (Bool-cases (has_reversed_suits variant || variant.sudoku)) [
      | inl moves ↦
          direct_suit-table_of (played_suit a.suit_index a.order s.deck) s s' variant
            (rw moves at h)
      | inr fixed ↦ table_of-ok (rw fixed at h)
    ]
resolve_direction-table_of s s' _ variant h = table_of-ok h

start_suit-table_of :
    (i : Option ℕ) (s s' : GameState) → start_suit i s ≡ ok s' → table_of s' ≡ table_of s
start_suit-table_of none s s' h = table_of-ok h
start_suit-table_of (some i) s s' h =
    let (_, _, k) = >>=-eq-ok (assert_defined no_play_stack (get_elem? s.play_stacks i)) _ h in
    table_of-ok k

resolve_start-table_of :
    (s s' : GameState) (action : GameAction) (variant : Variant)
    → resolve_start s action variant ≡ ok s'
    → table_of s' ≡ table_of s
unfolding resolve_start
resolve_start-table_of s s' (play a) variant h = elim (Bool-cases variant.sudoku) [
  | inl sudoku ↦ start_suit-table_of (played_suit a.suit_index a.order s.deck) s s' (rw sudoku at h)
  | inr fixed ↦ table_of-ok (rw fixed at h)
]
resolve_start-table_of s s' _ variant h = table_of-ok h

resolve_statuses-table_of :
    (s s' : GameState) (action : GameAction) (variant : Variant)
    → resolve_statuses s action variant ≡ ok s'
    → table_of s' ≡ table_of s
unfolding resolve_statuses
resolve_statuses-table_of s s' action variant h = elim (Bool-cases (changes_statuses action)) [
  | inl changes ↦
      let (_, _, k) =
        >>=-eq-ok _ (λ statuses. ok (record s { card_status = statuses })) (rw changes at h) in
      table_of-ok k
  | inr fixed ↦ table_of-ok (rw fixed at h)
]

-- Whatever the action, the derived part of the reducer moves no card, gives no clue and logs nothing.
pub derive_state-table_of :
    (previous s s' : GameState) (action : GameAction) (view : Perspective) (metadata : GameMetadata)
    → derive_state previous s action view metadata ≡ ok s'
    → table_of s' ≡ table_of s
unfolding derive_state
derive_state-table_of previous s s' action view metadata h =
    let variant = metadata.variant in
    let (deck, _, h₁) = >>=-eq-ok (cards_reducer previous.deck action s metadata) _ h in
    let (directed, e₁, h₂) =
      >>=-eq-ok (resolve_direction (record s { deck = deck }) action variant) _ h₁ in
    let (started, e₂, h₃) = >>=-eq-ok (resolve_start directed action variant) _ h₂ in
    let (judged, e₃, h₄) = >>=-eq-ok (resolve_statuses started action variant) _ h₃ in
    let (next, _, h₅) = >>=-eq-ok (turn_reducer previous.turn action judged metadata) _ h₄ in
    let turned : GameState = record judged { turn = next } in
    let (stats, _, h₆) =
      >>=-eq-ok (stats_reducer previous.stats action previous turned view metadata) _ h₅ in
    let (marked, _, h₇) =
      >>=-eq-ok (dda_reducer turned.deck stats.double_discard_card next.current_player_index) _
        h₆ in
    let (known, _, h₈) = >>=-eq-ok (known_trash_reducer marked (stacks_of turned) variant) _ h₇ in
    table_of-ok h₈
    ∙ resolve_statuses-table_of started judged action variant e₃
    ∙ resolve_start-table_of directed started action variant e₂
    ∙ resolve_direction-table_of (record s { deck = deck }) directed action variant e₁

-- ===== src/Reducers/Planning.antt =====
-- packages/game/src/hypotheticalPlanning.ts. The `turn` action at the end of a plan carries no data in
-- the model, since no reducer reads it.
pub mod Drawn
pub mod Shape
pub mod Accepted
use hanabi_live.Prelude.{
  ℕ, suc, ◌+◌, ◌-◌, Bool, true, false, not, ◌&&◌, ◌||◌, Option, none, some, List, [], ◌∷◌, ◌++◌,
  ◌==◌, ltb, all, any, filter, get_elem?, includes, is_none, is_some, length, if◌then◌else◌,
}
use hanabi_live.Result.{Result, ok, assert_defined, all_result, no_play_stack, no_hand, ◌>>=◌}
use hanabi_live.Types.Variant.{Variant}
use hanabi_live.Types.Card.{CardIdentity, CardNote, CardState, SuitRankTuple}
use hanabi_live.Types.Action.{
  Clue, GameAction, MsgClue, clue, discard, draw, msg_color, msg_rank, hidden, play, strike, turn,
}
use hanabi_live.Types.Game.{GameMetadata, GameState}
use hanabi_live.Rules.Clues.{is_card_touched_by_clue, msg_clue_to_clue}
use hanabi_live.Rules.PlayStacks.{get_next_playable_ranks}
use hanabi_live.Reducers.Hypothetical.{is_held_by_another}
use hanabi_live.Reducers.PlannedCards.{
  HypotheticalCardView, HypotheticalCard, HypotheticalCardInput, get_hypothetical_card,
  get_hypothetical_touched_cards,
}

pub data HypotheticalActionIntent : Type 0 where
  intend_play intend_discard : (order : ℕ) → HypotheticalActionIntent
  intend_color_clue intend_rank_clue : (target value : ℕ) → HypotheticalActionIntent

pub record PlanHypotheticalActionContext : Type 0 where
  pub game_state : GameState
  pub metadata : GameMetadata
  pub variant : Variant
  pub card_identities : List CardIdentity
  pub morphed_identities : ℕ → Option CardIdentity
  pub notes : List CardNote
  pub playing : Bool
  pub card_views : List HypotheticalCardView

abbrev pub find_view : ℕ → List HypotheticalCardView → Option HypotheticalCardView
find_view order [] = none
find_view order (view ∷ views) =
    let rest = find_view order views in if view.state.order == order then some view else rest

abbrev pub card_input :
    PlanHypotheticalActionContext
    → ℕ
    → HypotheticalCardView
    → CardNote
    → CardIdentity
    → HypotheticalCardInput
card_input context order view note identity = record {
  view = view;
  identity = identity;
  morphed_identity = context.morphed_identities order;
  note = note;
  playing = context.playing;
}

unfoldable pub card_at : PlanHypotheticalActionContext → ℕ → Option HypotheticalCard
unfolding get_hypothetical_card
card_at context order = elim (find_view order context.card_views) [
  | none ↦ none
  | some view ↦ elim (get_elem? context.notes order) [
    | none ↦ none
    | some note ↦ elim (get_elem? context.card_identities order) [
      | some identity ↦ some (get_hypothetical_card (card_input context order view note identity))
      | none ↦
          if view.is_stack_base
          then some (
              get_hypothetical_card
                (card_input context order view note (record { suit_index = none; rank = none })))
          else none
    ]
  ]
]

-- What becomes of a card that is played: it may go, or it is misplayed.
abbrev pub fits_stack : GameState → Variant → ℕ → ℕ → Result Bool
fits_stack s variant suit_index rank = do
  play_stack ← assert_defined no_play_stack (get_elem? s.play_stacks suit_index)
  direction ← assert_defined no_play_stack (get_elem? s.play_stack_directions suit_index)
  ok (
      includes
        (get_next_playable_ranks suit_index play_stack direction s.play_stack_starts variant s.deck)
        rank)

abbrev pub is_suit_inverted : Variant → ℕ → Bool
is_suit_inverted variant suit_index = elim (get_elem? variant.suits suit_index) [
  | none ↦ false
  | some suit ↦ suit.inverted
]

abbrev pub planned_play : ℕ → ℕ → ℕ → ℕ → GameAction
planned_play player order suit_index rank = play (record {
  player_index = player;
  order = order;
  suit_index = some suit_index;
  rank = some rank;
})

abbrev pub planned_discard : ℕ → ℕ → ℕ → ℕ → Bool → GameAction
planned_discard player order suit_index rank failed = discard (record {
  player_index = player;
  order = order;
  suit_index = some suit_index;
  rank = some rank;
  failed = failed;
})

-- A strike notes the segment; `null`, before the first segment, is written as 0 and never read.
abbrev pub planned_strike : GameState → ℕ → GameAction
planned_strike s order = strike (record {
  num = length s.strikes + 1;
  order = order;
  turn = elim s.turn.segment [ none ↦ 0 | some segment ↦ segment ];
})

abbrev pub planned_moves : GameState → Variant → Bool → ℕ → ℕ → ℕ → ℕ → Result (List GameAction)
planned_moves s variant plays player order suit_index rank =
    if plays
    then (do
      fits ← fits_stack s variant suit_index rank
      ok (
          if fits
          then planned_play player order suit_index rank ∷ []
          else planned_discard player order suit_index rank true ∷ planned_strike s order ∷ []))
    else ok (planned_discard player order suit_index rank false ∷ [])

abbrev pub is_bottom_deck_action : PlanHypotheticalActionContext → ℕ → Bool
is_bottom_deck_action context order =
    context.metadata.options.deck_plays
    && length context.game_state.deck + 1 == length context.card_identities
    && order == length context.game_state.deck

abbrev pub planned_draw : PlanHypotheticalActionContext → ℕ → CardIdentity → GameAction
planned_draw context player next = draw (record {
  player_index = player;
  order = length context.game_state.deck;
  suit_index = next.suit_index;
  rank = next.rank;
})

-- The draw after a move, or before it for a card that is played from the bottom of the deck.
abbrev pub add_draw :
    PlanHypotheticalActionContext → ℕ → ℕ → List GameAction → Option CardIdentity → List GameAction
add_draw context player order moves none = moves
add_draw context player order moves (some next) =
    if is_bottom_deck_action context order
    then planned_draw context player next ∷ moves
    else moves ++ planned_draw context player next ∷ []

abbrev pub with_draw : PlanHypotheticalActionContext → ℕ → ℕ → List GameAction → List GameAction
with_draw context player order moves =
    add_draw context player order moves
      (get_elem? context.card_identities (length context.game_state.deck))

-- An early `return null`.
abbrev pub or_null {ℓ κ} :
    {A : Type ℓ} {B : Type κ} → Option A → (A → Result (Option B)) → Result (Option B)
or_null none next = ok none
or_null (some x) next = next x

unfoldable pub plan_card :
    PlanHypotheticalActionContext → Bool → ℕ → ℕ → ℕ → ℕ → Result (Option (List GameAction))
plan_card context plays player order suit_index rank = do
  let variant = context.variant
  moves ←
      planned_moves context.game_state variant
        (if is_suit_inverted variant suit_index then not plays else plays) player order suit_index
        rank
  ok (some (with_draw context player order moves ++ turn ∷ []))

unfoldable pub plan_move :
    PlanHypotheticalActionContext → Bool → ℕ → ℕ → Result (Option (List GameAction))
unfolding card_at plan_card
plan_move context plays player order =
    if is_held_by_another 0 player order context.game_state.hands
    then ok none
    else or_null (card_at context order) λ card. or_null card.identity.suit_index λ suit_index.
      or_null card.identity.rank λ rank. plan_card context plays player order suit_index rank

abbrev pub cards_at : PlanHypotheticalActionContext → List ℕ → Option (List HypotheticalCard)
cards_at context [] = some []
cards_at context (order ∷ orders) =
    let rest = cards_at context orders in
    elim (card_at context order) [
      | none ↦ none
      | some card ↦ elim rest [ none ↦ none | some cards ↦ some (card ∷ cards) ]
    ]

unfoldable pub plan_clue :
    PlanHypotheticalActionContext → MsgClue → ℕ → ℕ → Result (Option (List GameAction))
unfolding card_at get_hypothetical_touched_cards
plan_clue context msg_clue player target = do
  hand ← assert_defined no_hand (get_elem? context.game_state.hands target)
  or_null (cards_at context hand) λ cards. do
    touched ← get_hypothetical_touched_cards cards msg_clue context.variant
    ok (
        some (
          clue (record {
            clue = msg_clue;
            giver = player;
            list = touched;
            target = target;
            ignore_negative = false;
          })
          ∷ turn
          ∷ []))

abbrev pub plan_for :
    HypotheticalActionIntent → PlanHypotheticalActionContext → ℕ → Result (Option (List GameAction))
plan_for (intend_play order) context player = plan_move context true player order
plan_for (intend_discard order) context player = plan_move context false player order
plan_for (intend_color_clue target value) context player =
    plan_clue context (msg_color value) player target
plan_for (intend_rank_clue target value) context player =
    plan_clue context (msg_rank value) player target

unfoldable pub plan_hypothetical_action :
    HypotheticalActionIntent → PlanHypotheticalActionContext → Result (Option (List GameAction))
unfolding plan_move plan_clue
plan_hypothetical_action intent context =
    or_null context.game_state.turn.current_player_index (plan_for intent context)

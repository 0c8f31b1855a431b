-- ===== src/Reducers/Hypothetical.antt =====
-- packages/game/src/hypotheticalState.ts
pub mod Undo
use hanabi_live.Prelude.{
  ◌+◌, ℕ, Bool, true, false, not, ◌&&◌, ◌||◌, Option, none, some, List, [], ◌∷◌, ◌++◌, ◌==◌, leb,
  option_eq, includes, any, length, last?, is_none, if◌then◌else◌,
}
use hanabi_live.Prelude.Int.{ℤ, pos, leb_ℤ}
use hanabi_live.Result.{Result, ok, ◌>>=◌}
use hanabi_live.Types.Card.{CardIdentity}
use hanabi_live.Types.Action.{ActionClue, ActionDraw, GameAction, clue, discard, draw, play}
use hanabi_live.Types.Game.{GameMetadata, GameState}
use hanabi_live.Reducers.Stats.{Perspective}
use hanabi_live.Reducers.Game.Reducer.{game_reducer}

-- `morphed_identities` is a sparse array: `none` where it has no entry.
pub record HypotheticalState : Type 0 where
  pub ongoing : GameState
  pub states : List GameState
  pub show_drawn_cards : Bool
  pub drawn_cards_in_hypothetical : List ℕ
  pub morphed_identities : ℕ → Option CardIdentity
  pub starting_player_index : Option ℕ

pub record ActionHypotheticalMorph : Type 0 where
  pub suit_index : Option ℕ
  pub rank : Option ℕ
  pub order : ℕ

pub data ActionIncludingHypothetical : Type 0 where
  game_action : GameAction → ActionIncludingHypothetical
  morph : ActionHypotheticalMorph → ActionIncludingHypothetical
  unmorph : (order : ℕ) → ActionIncludingHypothetical

pub data HypotheticalStateAction : Type 0 where
  including : ActionIncludingHypothetical → HypotheticalStateAction
  back : HypotheticalStateAction
  show_drawn_cards : Bool → HypotheticalStateAction

abbrev pub Morphs : Type 0
Morphs = ℕ → Option CardIdentity

abbrev pub morph_at : ℕ → Option CardIdentity → Morphs → Morphs
morph_at order identity morphs = λ o. if o == order then identity else morphs o

abbrev pub blank : CardIdentity
blank = record { suit_index = none; rank = none }

-- `pop`
abbrev pub pop {ℓ} : {A : Type ℓ} → List A → List A
pop [] = []
pop (x ∷ []) = []
pop (x ∷ y ∷ ys) = x ∷ pop (y ∷ ys)

unfoldable pub go_back : HypotheticalState → HypotheticalState
go_back h =
    let states = pop h.states in
    record h {
      states = states;
      ongoing = elim (last? states) [ none ↦ h.ongoing | some state ↦ state ];
    }

-- The loop over the drawn cards.
unfoldable pub show_all : Bool → List ℕ → Morphs → Morphs
show_all show [] morphs = morphs
show_all show (order ∷ orders) morphs =
    show_all show orders (morph_at order (if show then none else some blank) morphs)

-- A draw that does not fit the state.
abbrev pub is_invalid_draw : ActionDraw → GameState → Bool
is_invalid_draw a s =
    leb (length s.hands) a.player_index
    || not (a.order == length s.deck)
    || leb_ℤ s.cards_remaining_in_the_deck (pos 0)

-- A hand of another player that has the card; `index` is that of the first hand.
abbrev pub is_held_by_another : ℕ → ℕ → ℕ → List (List ℕ) → Bool
is_held_by_another index player order [] = false
is_held_by_another index player order (hand ∷ hands) =
    let rest = is_held_by_another (index + 1) player order hands in
    not (index == player) && includes hand order || rest

abbrev pub is_dropped : GameAction → GameState → Bool
is_dropped (draw a) s = is_invalid_draw a s
is_dropped (play a) s = is_held_by_another 0 a.player_index a.order s.hands
is_dropped (discard a) s = is_held_by_another 0 a.player_index a.order s.hands
is_dropped _ s = false

-- "Store every draw to be able to show/hide the cards in the future."
abbrev pub record_draw : GameAction → HypotheticalState → HypotheticalState
record_draw (draw a) h = record h {
  drawn_cards_in_hypothetical = h.drawn_cards_in_hypothetical ++ a.order ∷ [];
  morphed_identities =
      if h.show_drawn_cards
      then h.morphed_identities
      else morph_at a.order (some blank) h.morphed_identities;
}
record_draw _ h = h

abbrev pub without_negative : GameAction → HypotheticalState → GameAction
without_negative (clue a) h =
    if not h.show_drawn_cards && option_eq h.starting_player_index (some a.target)
    then clue (record a { ignore_negative = true })
    else clue a
without_negative action h = action

abbrev pub hypothetical_view : Bool → Perspective
hypothetical_view finished = record {
  playing = true;
  shadowing = false;
  finished = finished;
  hypothetical = true;
  our_notes = none;
}

-- "Save the new segment in case we want to go backwards."
abbrev pub store : HypotheticalState → GameState → HypotheticalState
store h next = record h {
  ongoing = next;
  states =
      if option_eq h.ongoing.turn.segment next.turn.segment
      then h.states
      else h.states ++ next ∷ [];
}

unfoldable pub apply_game_action :
    HypotheticalState → GameAction → Bool → GameMetadata → Result HypotheticalState
apply_game_action h action finished metadata = if is_dropped action h.ongoing then ok h else do
  let noted = record_draw action h
  next ←
      game_reducer noted.ongoing (without_negative action noted) (hypothetical_view finished)
        metadata
  ok (store noted next)

unfoldable pub hypothetical_state_reducer :
    HypotheticalState → HypotheticalStateAction → Bool → GameMetadata → Result HypotheticalState
unfolding go_back show_all apply_game_action
hypothetical_state_reducer h back finished metadata = ok (go_back h)
hypothetical_state_reducer h (show_drawn_cards show) finished metadata = ok (record h {
  show_drawn_cards = show;
  morphed_identities = show_all show h.drawn_cards_in_hypothetical h.morphed_identities;
})
hypothetical_state_reducer h (including (morph a)) finished metadata = ok (record h {
  morphed_identities =
      morph_at a.order (some (record { suit_index = a.suit_index; rank = a.rank }))
        h.morphed_identities;
})
hypothetical_state_reducer h (including (unmorph order)) finished metadata =
    ok (record h { morphed_identities = morph_at order none h.morphed_identities })
hypothetical_state_reducer h (including (game_action action)) finished metadata =
    apply_game_action h action finished metadata

-- The loop over the initial actions.
unfoldable pub apply_all :
    HypotheticalState
    → List ActionIncludingHypothetical
    → Bool
    → GameMetadata
    → Result HypotheticalState
apply_all h [] finished metadata = ok h
apply_all h (action ∷ actions) finished metadata = do
  next ← hypothetical_state_reducer h (including action) finished metadata
  apply_all next actions finished metadata

unfoldable pub initialize_hypothetical_state :
    GameState
    → Bool
    → List ActionIncludingHypothetical
    → Bool
    → GameMetadata
    → Result HypotheticalState
unfolding apply_all hypothetical_state_reducer
initialize_hypothetical_state ongoing show actions finished metadata =
    apply_all
      (record {
        ongoing = ongoing;
        states = ongoing ∷ [];
        show_drawn_cards = show;
        drawn_cards_in_hypothetical = [];
        morphed_identities = λ o. none;
        starting_player_index = ongoing.turn.current_player_index;
      })
      actions finished metadata

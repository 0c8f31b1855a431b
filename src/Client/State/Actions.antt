-- ===== src/Client/State/Actions.antt =====
-- packages/client/src/game/reducers/stateReducer.ts: the state of the client, without the notes, the
-- spectators and the dragged card
use hanabi_live.Prelude.{
  ℕ, ◌-◌, ◌≡◌, String, Bool, true, false, not, ◌&&◌, ◌||◌, Option, none, some, List, [], ◌∷◌, ◌++◌,
  ltb, option_eq, get_elem?, is_none, length, if◌then◌else◌,
}
use text.Mathlib.Text.{◌==◌ as str_eq}
use hanabi_live.Result.{
  Result, ok, throw, assert_defined, map_result, no_replay_state, no_card_identity,
  no_ongoing_segment, early_segment, ◌>>=◌,
}
use hanabi_live.Types.Card.{CardIdentity, CardNote, CardState}
use hanabi_live.Types.Action.{
  GameAction, discard, draw, play, player_times, note_list, receive_note, set_eff_mod, edit_note,
  note_list_player,
}
use hanabi_live.Types.Game.{GameMetadata, GameState}
use hanabi_live.Reducers.Stats.{Perspective}
use hanabi_live.Reducers.Game.Reducer.{game_reducer}
use hanabi_live.Reducers.Initial.{get_initial_game_state}
use hanabi_live.Client.Replay.{ReplayState, ReplayAction, replay_reducer, state_at}
use hanabi_live.Client.State.{Viewer, fold_view, reduce_game_actions, store_segment}

-- types/ClientAction.ts
pub data ClientAction : Type 0 where
  client_play client_discard : (order : ℕ) → ClientAction
  client_color_clue client_rank_clue : (target value : ℕ) → ClientAction

pub record PauseState : Type 0 where
  pub active : Bool
  pub player_index : ℕ
  pub queued : Bool

-- types/State.ts. `our_notes` is `notes.ourNotes`, which only the notes change.
pub record State : Type 0 where
  pub visible_state : Option GameState
  pub ongoing_game : GameState
  pub replay : ReplayState
  pub playing : Bool
  pub shadowing : Bool
  pub finished : Bool
  pub metadata : GameMetadata
  pub datetime_started : Option String
  pub datetime_finished : Option String
  pub card_identities : List CardIdentity
  pub premove : Option ClientAction
  pub pause : PauseState
  pub our_notes : List CardNote

pub record ActionInit : Type 0 where
  pub datetime_started : String
  pub datetime_finished : String
  pub spectating : Bool
  pub shadowing : Bool
  pub replay : Bool
  pub shared_replay : Bool
  pub database_id : ℕ
  pub shared_replay_segment : ℕ
  pub shared_replay_leader : String
  pub paused : Bool
  pub pause_player_index : ℕ

pub record ActionFinishOngoingGame : Type 0 where
  pub database_id : ℕ
  pub shared_replay_leader : String
  pub datetime_finished : String

-- The actions that go to `notesReducer` and not to the default case.
abbrev pub is_note_action : GameAction → Bool
is_note_action note_list = true
is_note_action receive_note = true
is_note_action set_eff_mod = true
is_note_action edit_note = true
is_note_action note_list_player = true
is_note_action _ = false

-- An action of the game, of the default case.
abbrev pub GameEvent : Type 0
GameEvent = (action : GameAction) × (is_note_action action ≡ false)

-- `game` is an action of the default case; the actions of the notes are left out.
pub data Action : Type 0 where
  init : ActionInit → Action
  game_action_list : List GameAction → Action
  card_identities : List CardIdentity → Action
  finish_ongoing_game : ActionFinishOngoingGame → Action
  replay : ReplayAction → Action
  premove : Option ClientAction → Action
  pause : (active : Bool) → (player_index : ℕ) → Action
  pause_queue : (queued : Bool) → Action
  game : GameEvent → Action

abbrev pub viewer_of : State → Viewer
viewer_of s = record { playing = s.playing; shadowing = s.shadowing; finished = s.finished }

-- The point of view of the client itself, with its notes.
abbrev pub view_of : State → Perspective
view_of s = record (fold_view (viewer_of s)) { our_notes = some s.our_notes }

abbrev pub known_or : Option ℕ → Option ℕ → Option ℕ
known_or (some a) b = some a
known_or none b = b

unfoldable pub update_card_identities : List CardState → List CardIdentity → List CardIdentity
update_card_identities [] identities = identities
update_card_identities (card ∷ deck) [] =
    record { suit_index = card.suit_index; rank = card.rank } ∷ update_card_identities deck []
update_card_identities (card ∷ deck) (identity ∷ identities) =
    record {
      suit_index = known_or identity.suit_index card.suit_index;
      rank = known_or identity.rank card.rank;
    }
    ∷ update_card_identities deck identities

abbrev pub identity_at : List CardIdentity → ℕ → Result (ℕ × ℕ)
identity_at identities order = do
  identity ← assert_defined no_card_identity (get_elem? identities order)
  suit_index ← assert_defined no_card_identity identity.suit_index
  rank ← assert_defined no_card_identity identity.rank
  ok (suit_index, rank)

abbrev pub rehydrate : List CardIdentity → GameAction → Result GameAction
rehydrate identities (play a) =
    if is_none a.suit_index || is_none a.rank
    then (do
      found ← identity_at identities a.order
      ok (play (record a { suit_index = some found.0; rank = some found.1 })))
    else ok (play a)
rehydrate identities (discard a) =
    if is_none a.suit_index || is_none a.rank
    then (do
      found ← identity_at identities a.order
      ok (discard (record a { suit_index = some found.0; rank = some found.1 })))
    else ok (discard a)
rehydrate identities (draw a) =
    if is_none a.suit_index || is_none a.rank
    then (do
      found ← identity_at identities a.order
      ok (draw (record a { suit_index = some found.0; rank = some found.1 })))
    else ok (draw a)
rehydrate identities action = ok action

unfoldable pub rehydrate_scrubbed_actions :
    List GameAction → List CardIdentity → Result (List GameAction)
rehydrate_scrubbed_actions actions identities = map_result (rehydrate identities) actions

abbrev pub is_player_times : Action → Bool
is_player_times (game (player_times a, e)) = true
is_player_times _ = false

abbrev replay_view : ReplayState → Result (Option GameState)
replay_view r = elim r.hypothetical [
  | none ↦ do state ← assert_defined no_replay_state (state_at r.states r.segment); ok (some state)
  | some hypothetical ↦ ok (some hypothetical.ongoing)
]

-- `at(-2)`
abbrev penultimate : List (Option GameState) → Option GameState
penultimate states = if ltb (length states) 2 then none else state_at states (length states - 2)

unfoldable pub visual_state_to_show : State → Action → Result (Option GameState)
visual_state_to_show s action =
    if is_none s.visible_state
    then ok none
    else if s.replay.active
    then replay_view s.replay
    else ok (if is_player_times action then penultimate s.replay.states else some s.ongoing_game)

unfoldable pub load_action_list : State → List GameAction → Result State
load_action_list s actions = do
  initial ← get_initial_game_state s.metadata
  reduced ← reduce_game_actions actions initial (viewer_of s) s.metadata
  ok (record s {
    ongoing_game = reduced.game;
    visible_state = some reduced.game;
    card_identities = update_card_identities reduced.game.deck s.card_identities;
    replay = record s.replay { states = reduced.states; actions = actions };
  })

-- "Recalculate the whole game as a spectator to fix card possibilities."
unfoldable pub recalculate : State → Result State
recalculate s = do
  let spectating = record s { playing = false; shadowing = false }
  initial ← get_initial_game_state s.metadata
  reduced ←
      reduce_game_actions s.replay.actions initial
        (record { playing = false; shadowing = false; finished = true }) s.metadata
  ok (record spectating {
    ongoing_game = reduced.game;
    visible_state = some reduced.game;
    replay = record s.replay { states = reduced.states };
  })

unfoldable pub finish : State → ActionFinishOngoingGame → Result State
unfolding recalculate
finish s a = do
  watched ← if s.playing || s.shadowing then recalculate s else ok s
  segment ← assert_defined no_ongoing_segment watched.ongoing_game.turn.segment
  let in_replay = watched.replay.active
  if ltb segment 1
      then throw early_segment
      else ok (record watched {
        finished = true;
        datetime_finished = some a.datetime_finished;
        replay = record watched.replay {
          database_id = some a.database_id;
          active = true;
          segment = if in_replay then watched.replay.segment else segment - 1;
          shared = some (record {
            segment = segment - 1;
            use_shared_segments = not in_replay;
            leader = a.shared_replay_leader;
            am_leader = str_eq a.shared_replay_leader s.metadata.our_username;
          });
        };
      })

-- The replay that a client opens with.
abbrev pub open_replay : ReplayState → ActionInit → GameMetadata → ReplayState
open_replay r a metadata = record r {
  active = true;
  segment = if a.shared_replay then a.shared_replay_segment else 0;
  database_id = some a.database_id;
  shared =
      if a.shared_replay
      then some (record {
        segment = a.shared_replay_segment;
        use_shared_segments = true;
        leader = a.shared_replay_leader;
        am_leader = str_eq a.shared_replay_leader metadata.our_username;
      })
      else r.shared;
}

unfoldable pub initialize : State → ActionInit → State
initialize s a = record s {
  datetime_started = some a.datetime_started;
  datetime_finished = some a.datetime_finished;
  playing = if a.spectating || a.replay then false else s.playing;
  shadowing = if a.replay then false else a.shadowing || s.shadowing;
  finished = a.replay || s.finished;
  replay = if a.replay then open_replay s.replay a s.metadata else s.replay;
  pause =
      if a.paused
      then record s.pause { active = true; player_index = a.pause_player_index }
      else s.pause;
}

unfoldable pub set_premove : State → Option ClientAction → State
set_premove s none = record s { premove = none }
set_premove s (some action) =
    if not s.finished
      && not (option_eq s.ongoing_game.turn.current_player_index (some s.metadata.our_player_index))
    then record s { premove = some action }
    else s

-- What a new state of the game changes.
abbrev pub with_game : State → GameState → GameAction → State
with_game s next action = record s {
  ongoing_game = next;
  card_identities = update_card_identities next.deck s.card_identities;
  replay = record s.replay {
    states = store_segment s.replay.states next s.ongoing_game.turn.segment action;
    actions = s.replay.actions ++ action ∷ [];
  };
}

-- "A new game action happened."
unfoldable pub play_on : State → GameAction → Result State
play_on s action = do
  next ← game_reducer s.ongoing_game action (view_of s) s.metadata
  ok (with_game s next action)

unfoldable pub state_switch : State → Action → Result State
unfolding load_action_list rehydrate_scrubbed_actions finish initialize set_premove play_on
state_switch s (init a) = ok (initialize s a)
state_switch s (game_action_list actions) = load_action_list s actions
state_switch s (card_identities identities) = do
  actions ← rehydrate_scrubbed_actions s.replay.actions identities
  ok (record s { card_identities = identities; replay = record s.replay { actions = actions } })
state_switch s (finish_ongoing_game a) = finish s a
state_switch s (replay a) = do
  r ← replay_reducer s.replay a s.finished s.metadata
  ok (record s { replay = r })
state_switch s (premove action) = ok (set_premove s action)
state_switch s (pause active player) = ok (record s {
  pause = record {
    active = active;
    player_index = player;
    queued = if active then false else s.pause.queued;
  };
})
state_switch s (pause_queue queued) = ok (record s { pause = record s.pause { queued = queued } })
state_switch s (game event) = play_on s event.0

-- "Show the appropriate state depending on the situation."
unfoldable pub state_reducer : State → Action → Result State
unfolding state_switch visual_state_to_show
state_reducer s action = do
  next ← state_switch s action
  visible ← visual_state_to_show next action
  ok (record next { visible_state = visible })

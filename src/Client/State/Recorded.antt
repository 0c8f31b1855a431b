-- ===== src/Client/State/Recorded.antt =====
-- stateReducer.ts: the states that are recorded by segment
use hanabi_live.Prelude.{
  ℕ, zero, suc, ◌≤◌, ◌<◌, ◌≡◌, ◌∙◌, refl, sym, ap, arith, inl, inr, Bool, true, false, Option, none,
  some, List, [], ◌∷◌, Bool-cases, all, length, is_some, if◌then◌else◌,
}
use mathlib.Core.Path.{subst}
use hanabi_live.Result.{ok, >>=-eq-ok}
use hanabi_live.Types.Action.{GameAction}
use hanabi_live.Types.Game.{GameMetadata, GameState, TurnState}
use hanabi_live.Reducers.Stats.{Perspective}
use hanabi_live.Reducers.Game.Reducer.{game_reducer}
use hanabi_live.Reducers.Game.Reducer.Turns.{game_reducer-Follows}
use hanabi_live.Reducers.Turn.Deal.{Follows}
use hanabi_live.Reducers.Initial.{get_initial_game_state}
use hanabi_live.Reducers.Initial.Empty.{get_initial_game_state_lem}
use hanabi_live.Client.Replay.{state_at}
use hanabi_live.Client.State.{
  Reduced, Viewer, fold_view, reduce_step, write_at, store_segment, should_store_segment,
  reduce_from, reduce_game_actions,
}

-- The states of all segments so far are there: one before the first segment, else one for each.
abbrev pub IsRecorded : Option ℕ → List (Option GameState) → Type 0
IsRecorded none states = (all is_some states ≡ true) × (length states ≡ 1)
IsRecorded (some n) states = (all is_some states ≡ true) × (length states ≡ suc n)

write_at_inside :
    (xs : List (Option GameState)) (n : ℕ) (s : GameState)
    → n < length xs
    → all is_some xs ≡ true
    → (all is_some (write_at xs n s) ≡ true) × (length (write_at xs n s) ≡ length xs)
write_at_inside [] n s h e = elim h [ ]
write_at_inside (x ∷ xs) zero s h e = (ground arith, refl)
write_at_inside (x ∷ xs) (suc n) s h e =
    let (k, l) = write_at_inside xs n s (omega arith) (ground arith) in
    (ground (arith, k), ap suc l)

write_at_end :
    (xs : List (Option GameState)) (s : GameState)
    → all is_some xs ≡ true
    → (all is_some (write_at xs (length xs) s) ≡ true)
      × (length (write_at xs (length xs) s) ≡ suc (length xs))
write_at_end [] s e = (refl, refl)
write_at_end (x ∷ xs) s e =
    let (k, l) = write_at_end xs s (ground arith) in (ground (arith, k), ap suc l)

-- A write at a segment that follows the last one.
write_at-IsRecorded :
    (before : Option ℕ) (n : ℕ) (states : List (Option GameState)) (s : GameState)
    → Follows before (some n)
    → IsRecorded before states
    → IsRecorded (some n) (write_at states n s)
write_at-IsRecorded none n states s (inl e) (h, l) = cc
write_at-IsRecorded none n states s (inr e) (h, l) =
    let (k, m) = write_at_inside states n s (ground arith) h in (k, ground arith)
write_at-IsRecorded (some k) n states s (inl e) (h, l) =
    let (h', m) = write_at_inside states n s (ground arith) h in (h', ground arith)
write_at-IsRecorded (some k) n states s (inr e) (h, l) =
    let same : n ≡ length states = ground arith in
    let (h', m) = write_at_end states s h in
    (
      ap (λ (i : ℕ). all is_some (write_at states i s)) same ∙ h',
      ap (λ (i : ℕ). length (write_at states i s)) same ∙ m ∙ ap suc (sym same),
    )

store_segment-some :
    (n : ℕ) (before : Option ℕ) (states : List (Option GameState)) (next : GameState)
    (action : GameAction)
    → next.turn.segment ≡ some n
    → store_segment states next before action
      ≡ (if should_store_segment (some n) before action then write_at states n next else states)
store_segment-some n before states next action e = ground (arith, e)

-- What is not stored leaves the game in its segment.
not_stored-eq :
    (n : ℕ) (before : Option ℕ) (action : GameAction)
    → should_store_segment (some n) before action ≡ false
    → before ≡ some n
not_stored-eq n before action h = ground arith

store_segment-IsRecorded :
    (before after : Option ℕ) (states : List (Option GameState)) (next : GameState)
    (action : GameAction)
    → next.turn.segment ≡ after
    → Follows before after
    → IsRecorded before states
    → IsRecorded after (store_segment states next before action)
store_segment-IsRecorded none none states next action e follows h =
    subst (IsRecorded none)
      (let same : store_segment states next none action ≡ states = ground (arith, e) in sym same) h
store_segment-IsRecorded (some k) none states next action e follows h = ground arith
store_segment-IsRecorded before (some n) states next action e follows h =
    elim (Bool-cases (should_store_segment (some n) before action)) [
      | inl stored ↦
          subst (IsRecorded (some n))
            (sym (
              store_segment-some n before states next action e
              ∙ ap (λ (b : Bool). if b then write_at states n next else states) stored))
            (write_at-IsRecorded before n states next follows h)
      | inr skipped ↦
          subst (IsRecorded (some n))
            (sym (
              store_segment-some n before states next action e
              ∙ ap (λ (b : Bool). if b then write_at states n next else states) skipped))
            (subst (λ (o : Option ℕ). IsRecorded o states) (not_stored-eq n before action skipped)
              h)
    ]

IsRecorded-at_start :
    (metadata : GameMetadata) (initial : GameState)
    → get_initial_game_state metadata ≡ ok initial
    → IsRecorded initial.turn.segment (some initial ∷ [])
IsRecorded-at_start metadata initial e =
    subst (λ (t : TurnState). IsRecorded t.segment (some initial ∷ []))
      (sym (get_initial_game_state_lem metadata initial e).0) (refl, refl)

-- One action of the game, from any point of view.
pub reduce_step-IsRecorded :
    (action : GameAction) (r : Reduced) (next : GameState) (view : Perspective)
    (metadata : GameMetadata)
    → IsRecorded r.game.turn.segment r.states
    → game_reducer r.game action view metadata ≡ ok next
    → IsRecorded next.turn.segment (reduce_step r next action).states
reduce_step-IsRecorded action r next view metadata recorded e =
    store_segment-IsRecorded r.game.turn.segment next.turn.segment r.states next action refl
      (game_reducer-Follows r.game next action view metadata e) recorded

pub reduce_from-IsRecorded :
    (actions : List GameAction) (r r' : Reduced) (viewer : Viewer) (metadata : GameMetadata)
    → IsRecorded r.game.turn.segment r.states
    → reduce_from r actions viewer metadata ≡ ok r'
    → IsRecorded r'.game.turn.segment r'.states
unfolding reduce_from
reduce_from-IsRecorded [] r r' viewer metadata recorded h =
    let same : r ≡ r' = cc in
    subst (λ (x : Reduced). IsRecorded x.game.turn.segment x.states) same recorded
reduce_from-IsRecorded (action ∷ actions) r r' viewer metadata recorded h =
    let (next, e, h') = >>=-eq-ok (game_reducer r.game action (fold_view viewer) metadata) _ h in
    reduce_from-IsRecorded actions (reduce_step r next action) r' viewer metadata
      (reduce_step-IsRecorded action r next (fold_view viewer) metadata recorded e) h'

state_at-IsRecorded :
    (segment : Option ℕ) (states : List (Option GameState)) (last n : ℕ)
    → IsRecorded segment states
    → segment ≡ some last
    → n ≤ last
    → (s : GameState) × (state_at states n ≡ some s)
state_at-IsRecorded none states last n h e le = cc
state_at-IsRecorded (some k) states last n (h, l) e le = found states n h (ground arith)
  where
    found :
        (xs : List (Option GameState)) (i : ℕ)
        → all is_some xs ≡ true
        → i < length xs
        → (s : GameState) × (state_at xs i ≡ some s)
    found [] i h' lt = elim lt [ ]
    found (none ∷ xs) zero h' lt = ground arith
    found (some x ∷ xs) zero h' lt = (x, refl)
    found (x ∷ xs) (suc i) h' lt = found xs i (ground arith) (omega arith)

-- From the initial state of a game, if the fold over the actions does not throw and has come to a
-- segment: a state is recorded for every segment up to that one, so that a replay can show it.
pub reduce_game_actions-state_at :
    (metadata : GameMetadata) (viewer : Viewer) (actions : List GameAction) (initial : GameState)
    (r : Reduced) (last n : ℕ)
    → get_initial_game_state metadata ≡ ok initial
    → reduce_game_actions actions initial viewer metadata ≡ ok r
    → r.game.turn.segment ≡ some last
    → n ≤ last
    → (s : GameState) × (state_at r.states n ≡ some s)
unfolding reduce_game_actions
reduce_game_actions-state_at metadata viewer actions initial r last n is_initial h e le =
    state_at-IsRecorded r.game.turn.segment r.states last n
      (reduce_from-IsRecorded actions _ r viewer metadata
        (IsRecorded-at_start metadata initial is_initial) h)
      e le

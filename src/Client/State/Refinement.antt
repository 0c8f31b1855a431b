-- ===== src/Client/State/Refinement.antt =====
-- stateReducer.ts: actions that come one at a time, and the fold of `reduceGameActions` over all of them
use hanabi_live.Prelude.{
  ℕ, zero, suc, ◌≡◌, ◌∙◌, refl, sym, ap, Option, none, some, List, [], ◌∷◌, map, Bool-cases, inl,
  inr, if◌then◌else◌,
}
use hanabi_live.Prelude.Int.{ℤ}
use hanabi_live.Result.{Result, ok, ◌>>=◌, >>=-eq-ok}
use hanabi_live.Types.Action.{GameAction}
use hanabi_live.Types.Game.{GameMetadata, GameState}
use hanabi_live.Reducers.Stats.{Perspective}
use hanabi_live.Reducers.Game.Reducer.Notes.{with_notes}
use hanabi_live.Reducers.Game.Reducer.Unnoted.{game_reducer-notes}
use hanabi_live.Client.State.{
  Reduced, reduce_step, reduce_from, write_at, store_segment, should_store_segment,
}
use hanabi_live.Client.State.Actions.{State, GameEvent, game, view_of, viewer_of, state_reducer}
use hanabi_live.Client.State.Playing.{Plays, play_all, action_of, reduced_of, state_reducer-Plays}

-- A recorded state, without the cards gotten by notes.
abbrev pub forget : Option GameState → Option GameState
forget none = none
forget (some s) = some (with_notes none s)

-- A game with its recorded states, without the cards gotten by notes, which only the player's own
-- notes change.
abbrev pub without_notes : Reduced → Reduced
without_notes r = record { game = with_notes none r.game; states = map forget r.states }

write_at-forget :
    (xs : List (Option GameState)) (i : ℕ) (s : GameState)
    → map forget (write_at xs i s) ≡ write_at (map forget xs) i (with_notes none s)
write_at-forget [] zero s = refl
write_at-forget [] (suc i) s =
    ap (λ (ys : List (Option GameState)). none ∷ ys) (write_at-forget [] i s)
write_at-forget (x ∷ xs) zero s = refl
write_at-forget (x ∷ xs) (suc i) s =
    ap (λ (ys : List (Option GameState)). forget x ∷ ys) (write_at-forget xs i s)

-- The recorded states go on to agree.
store_segment-forget :
    (n : Option ℤ) (xs ys : List (Option GameState)) (next : GameState) (previous : Option ℕ)
    (action : GameAction)
    → map forget xs ≡ map forget ys
    → map forget (store_segment xs (with_notes n next) previous action)
      ≡ map forget (store_segment ys next previous action)
store_segment-forget n xs ys next previous action e = by_segment next.turn.segment
  where
    stored : List (Option GameState) → GameState → Option ℕ → List (Option GameState)
    stored states s segment = elim segment [
      | none ↦ states
      | some i ↦
          if should_store_segment (some i) previous action then write_at states i s else states
    ]

    by_segment :
        (segment : Option ℕ)
        → map forget (stored xs (with_notes n next) segment) ≡ map forget (stored ys next segment)
    by_segment none = e
    by_segment (some i) = elim (Bool-cases (should_store_segment (some i) previous action)) [
      | inl saved ↦ rw saved (
          write_at-forget xs i (with_notes n next)
          ∙ ap (λ (zs : List (Option GameState)). write_at zs i (with_notes none next)) e
          ∙ sym (write_at-forget ys i next))
      | inr skipped ↦ rw skipped e
    ]

abbrev unnoted : Option ℤ → GameState → List (Option GameState) → Reduced
unnoted n s states = record { game = with_notes n s; states = states }

-- What the fold does from a game and states that agree with those of the client.
play_all-unnoted :
    (events : List GameEvent) (s s' : State) (n : Option ℤ) (states : List (Option GameState))
    → map forget states ≡ map forget s.replay.states
    → play_all s events ≡ ok s'
    → (r : Reduced) × (reduce_from
          (unnoted n s.ongoing_game states)
          (map action_of events)
          (viewer_of s)
          s.metadata
        ≡ ok r)
      × (without_notes r ≡ without_notes (reduced_of s'))
unfolding reduce_from
play_all-unnoted [] s s' n states e h =
    let same : s ≡ s' = cc in
    (
      unnoted n s.ongoing_game states,
      refl,
      ap (λ (xs : List (Option GameState)). unnoted none s.ongoing_game xs) e
          ∙ ap (λ (x : State). without_notes (reduced_of x)) same,
    )
play_all-unnoted (event ∷ events) s s' n states e h =
    let (t, k, h') = >>=-eq-ok (state_reducer s (game event)) _ h in
    go t (state_reducer-Plays s t event k)
      (λ n' stored agree. play_all-unnoted events t s' n' stored agree h')
  where
    go :
        (t : State)
        → Plays s t event.0
        → ((n' : Option ℤ) (stored : List (Option GameState))
            → map forget stored ≡ map forget t.replay.states
            → (r : Reduced) × (reduce_from
                  (unnoted n' t.ongoing_game stored)
                  (map action_of events)
                  (viewer_of t)
                  t.metadata
                ≡ ok r)
              × (without_notes r ≡ without_notes (reduced_of s')))
        → (r : Reduced) × (reduce_from
              (unnoted n s.ongoing_game states)
              (event.0 ∷ map action_of events)
              (viewer_of s)
              s.metadata
            ≡ ok r)
          × (without_notes r ≡ without_notes (reduced_of s'))
    go t plays later =
        let (n', reduces) =
          game_reducer-notes n s.ongoing_game plays.next event.0 (view_of s) s.metadata
            plays.reduces in
        let stored =
          store_segment states (with_notes n' plays.next) s.ongoing_game.turn.segment event.0 in
        let agree : map forget stored ≡ map forget t.replay.states =
          store_segment-forget n' states s.replay.states plays.next s.ongoing_game.turn.segment
            event.0 e
          ∙ ap (λ (r : Reduced). map forget r.states) (sym plays.reduced) in
        let (r, folded, same) = later n' stored agree in
        (
          r,
          ap
                (λ (g : Result GameState). g >>= (λ (next : GameState).
                  reduce_from (reduce_step (unnoted n s.ongoing_game states) next event.0)
                    (map action_of events) (viewer_of s) s.metadata))
                reduces
              ∙ ap
                  (λ (g : GameState).
                    reduce_from (unnoted n' g stored) (map action_of events) (viewer_of s)
                      s.metadata)
                  (sym (ap (λ (x : Reduced). x.game) plays.reduced))
              ∙ ap
                  (λ (v : Perspective).
                    reduce_from (unnoted n' t.ongoing_game stored) (map action_of events)
                      (record {
                        playing = v.playing;
                        shadowing = v.shadowing;
                        finished = v.finished;
                      })
                      s.metadata)
                  (sym plays.view)
              ∙ ap
                  (λ (m : GameMetadata).
                    reduce_from (unnoted n' t.ongoing_game stored) (map action_of events)
                      (viewer_of t) m)
                  (sym plays.metadata)
              ∙ folded,
          same,
        )

-- If none of the actions that come one at a time throws, then the fold over all of them at once, from
-- the same game and the same recorded states, does not throw either, and leads to the same game and the
-- same recorded states, but for the cards gotten by notes: the fold is not given the player's notes.
pub play_all-reduce_from :
    (events : List GameEvent) (s s' : State)
    → play_all s events ≡ ok s'
    → (r : Reduced) × (reduce_from (reduced_of s) (map action_of events) (viewer_of s) s.metadata
        ≡ ok r)
      × (without_notes r ≡ without_notes (reduced_of s'))
play_all-reduce_from events s s' h =
    play_all-unnoted events s s' s.ongoing_game.stats.cards_gotten_by_notes s.replay.states refl h

-- ===== src/Client/Replay/Segments.antt =====
-- replayReducer.ts: what the actions of a replay may change
use hanabi_live.Prelude.{
  ◌≡◌, ◌∙◌, refl, ap, arith, inl, inr, Bool, not, ◌&&◌, List, is_some, Bool-cases,
}
use hanabi_live.Result.{
  ok, throw, >>=-eq-ok, assert_defined, no_hypothetical, no_shared, no_replay_state,
}
use hanabi_live.Types.Game.{GameMetadata}
use hanabi_live.Reducers.Hypothetical.{
  HypotheticalStateAction, initialize_hypothetical_state, hypothetical_state_reducer,
  ActionIncludingHypothetical,
}
use hanabi_live.Client.Replay.{
  ReplayState, ReplayAction, replay_enter, replay_exit, replay_segment, replay_shared_segment,
  replay_use_shared_segments, replay_leader, hypo_start, hypo_end, hypo_back, hypo_action,
  hypo_show_drawn_cards, enter, share_segment, use_shared, set_leader, start_hypothetical,
  step_hypothetical, join_shared, state_at, natural_segment, is_enter, replay_switch,
  replay_reducer,
}

-- What no action of a replay touches: the recorded states and actions, and the number of the game.
abbrev pub Keeps : ReplayState → ReplayState → Type 0
Keeps s s' = (s'.states ≡ s.states) × (s'.actions ≡ s.actions) × (s'.database_id ≡ s.database_id)

Keeps-ok : (s x s' : ReplayState) → Keeps s x → ok x ≡ ok s' → Keeps s s'
Keeps-ok s x s' (a, b, c) e =
    let same : s' ≡ x = cc in
    (
      ap (λ (r : ReplayState). r.states) same ∙ a,
      ap (λ (r : ReplayState). r.actions) same ∙ b,
      ap (λ (r : ReplayState). r.database_id) same ∙ c,
    )

step_hypothetical-Keeps :
    (s s' : ReplayState) (action : HypotheticalStateAction) (finished : Bool)
    (metadata : GameMetadata)
    → step_hypothetical s action finished metadata ≡ ok s'
    → Keeps s s'
unfolding step_hypothetical
step_hypothetical-Keeps s s' action finished metadata h =
    let (hypothetical, _, h₁) = >>=-eq-ok (assert_defined no_hypothetical s.hypothetical) _ h in
    let (next, _, h₂) =
      >>=-eq-ok (hypothetical_state_reducer hypothetical action finished metadata) _ h₁ in
    Keeps-ok s _ s' (refl, refl, refl) h₂

join_shared-Keeps : (s : ReplayState) → Keeps s (join_shared s)
join_shared-Keeps s = ground arith

start_hypothetical-Keeps :
    (s s' : ReplayState) (show : Bool) (actions : List ActionIncludingHypothetical)
    (finished : Bool) (metadata : GameMetadata)
    → start_hypothetical s show actions finished metadata ≡ ok s'
    → Keeps s s'
unfolding start_hypothetical
start_hypothetical-Keeps s s' show actions finished metadata h =
    elim (Bool-cases (is_some s.hypothetical)) [
      | inl started ↦ let e : throw _ ≡ ok s' = rw started at h in cc
      | inr fresh ↦
          let (ongoing, _, h₁) =
            >>=-eq-ok
              (assert_defined no_replay_state
                (state_at (join_shared s).states (join_shared s).segment))
              _ (rw fresh at h) in
          let (hypothetical, _, h₂) =
            >>=-eq-ok (initialize_hypothetical_state ongoing show actions finished metadata) _ h₁ in
          Keeps-ok s _ s' (join_shared-Keeps s) h₂
    ]

replay_switch-Keeps :
    (s s' : ReplayState) (action : ReplayAction) (finished : Bool) (metadata : GameMetadata)
    → replay_switch s action finished metadata ≡ ok s'
    → Keeps s s'
unfolding replay_switch enter share_segment use_shared set_leader
replay_switch-Keeps s s' (replay_enter segment) finished metadata h = elim (Bool-cases s.active) [
  | inl active ↦ let e : throw _ ≡ ok s' = rw active at h in cc
  | inr idle ↦
      let (n, _, h₁) = >>=-eq-ok (natural_segment segment) _ (rw idle at h) in
      Keeps-ok s _ s' (refl, refl, refl) h₁
]
replay_switch-Keeps s s' replay_exit finished metadata h = Keeps-ok s _ s' (refl, refl, refl) h
replay_switch-Keeps s s' (replay_segment segment) finished metadata h =
    let (n, _, h₁) = >>=-eq-ok (natural_segment segment) _ h in
    Keeps-ok s _ s' (refl, refl, refl) h₁
replay_switch-Keeps s s' (replay_shared_segment segment) finished metadata h =
    let (shared, _, h₁) = >>=-eq-ok (assert_defined no_shared s.shared) _ h in
    let (n, _, h₂) = >>=-eq-ok (natural_segment segment) _ h₁ in
    Keeps-ok s _ s' (refl, refl, refl) h₂
replay_switch-Keeps s s' (replay_use_shared_segments use_segments) finished metadata h =
    let (shared, _, h₁) = >>=-eq-ok (assert_defined no_shared s.shared) _ h in
    Keeps-ok s _ s' (refl, refl, refl) h₁
replay_switch-Keeps s s' (replay_leader name) finished metadata h =
    let (shared, _, h₁) = >>=-eq-ok (assert_defined no_shared s.shared) _ h in
    Keeps-ok s _ s' (refl, refl, refl) h₁
replay_switch-Keeps s s' (hypo_start show actions) finished metadata h =
    start_hypothetical-Keeps s s' show actions finished metadata h
replay_switch-Keeps s s' hypo_end finished metadata h =
    let (hypothetical, _, h₁) = >>=-eq-ok (assert_defined no_hypothetical s.hypothetical) _ h in
    Keeps-ok s _ s' (refl, refl, refl) h₁
replay_switch-Keeps s s' hypo_back finished metadata h =
    step_hypothetical-Keeps s s' _ finished metadata h
replay_switch-Keeps s s' (hypo_action action) finished metadata h =
    step_hypothetical-Keeps s s' _ finished metadata h
replay_switch-Keeps s s' (hypo_show_drawn_cards show) finished metadata h =
    step_hypothetical-Keeps s s' _ finished metadata h

-- Whatever the action of a replay, a hypothetical one included: if it does not throw, the recorded
-- states, the recorded actions and the number of the game are as before.
pub replay_reducer-Keeps :
    (s s' : ReplayState) (action : ReplayAction) (finished : Bool) (metadata : GameMetadata)
    → replay_reducer s action finished metadata ≡ ok s'
    → Keeps s s'
unfolding replay_reducer
replay_reducer-Keeps s s' action finished metadata h =
    elim (Bool-cases (not s.active && not (is_enter action))) [
      | inl outside ↦ let e : throw _ ≡ ok s' = rw outside at h in cc
      | inr inside ↦ replay_switch-Keeps s s' action finished metadata (rw inside at h)
    ]

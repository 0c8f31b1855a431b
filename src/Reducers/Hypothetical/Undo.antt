-- ===== src/Reducers/Hypothetical/Undo.antt =====
-- The saved states of packages/game/src/hypotheticalState.ts, forwards and backwards
use hanabi_live.Prelude.{
  ℕ, zero, suc, ◌+◌, ◌≡◌, ◌∙◌, refl, sym, ap, arith, ◌⊎◌, Bool, true, Option, some, List, [], ◌∷◌,
  ◌++◌, option_eq, length, last?, Bool-cases, inl, inr, length-append,
}
use mathlib.Core.List.{append_assoc, append-nil}
use hanabi_live.Result.{ok, >>=-eq-ok}
use hanabi_live.Types.Game.{GameMetadata, GameState}
use hanabi_live.Types.Action.{GameAction, draw}
use hanabi_live.Reducers.Game.Reducer.{game_reducer}
use hanabi_live.Reducers.Hypothetical.{
  HypotheticalState, HypotheticalStateAction, including, back, show_drawn_cards, game_action, morph,
  unmorph, pop, go_back, is_dropped, record_draw, without_negative, hypothetical_view, store,
  apply_game_action, hypothetical_state_reducer,
}

abbrev pub IsForward : HypotheticalStateAction → Type 0
IsForward back = ⊥
IsForward _ = Unit

-- The states that a forward action saves: at most one, and it is then the ongoing one.
abbrev pub Saved : HypotheticalState → HypotheticalState → Type 0
Saved h h' =
    ((h'.states ≡ h.states) × (h'.ongoing.turn.segment ≡ h.ongoing.turn.segment))
    ⊎ (h'.states ≡ h.states ++ h'.ongoing ∷ [])

option_eq-eq : (a b : Option ℕ) → option_eq a b ≡ true → b ≡ a
option_eq-eq a b h = ground arith

record_draw-same :
    (action : GameAction) (h : HypotheticalState)
    → ((record_draw action h).ongoing ≡ h.ongoing) × ((record_draw action h).states ≡ h.states)
record_draw-same (draw a) h = (refl, refl)
record_draw-same _ h = (refl, refl)

Saved-same : (h h' : HypotheticalState) → h.states ≡ h'.states → h.ongoing ≡ h'.ongoing → Saved h h'
Saved-same h h' e e' = inl (sym e, ap (λ (s : GameState). s.turn.segment) (sym e'))

store-Saved : (h : HypotheticalState) (next : GameState) → Saved h (store h next)
store-Saved h next = elim (Bool-cases (option_eq h.ongoing.turn.segment next.turn.segment)) [
  | inl same ↦
      inl (ground (arith, same), option_eq-eq h.ongoing.turn.segment next.turn.segment same)
  | inr moved ↦ inr (ground (arith, moved))
]

Saved-store :
    (h h' noted : HypotheticalState) (next : GameState)
    → (noted.ongoing ≡ h.ongoing) × (noted.states ≡ h.states)
    → store noted next ≡ h'
    → Saved h h'
Saved-store h h' noted next (e, e') same = elim (store-Saved noted next) [
  | inl (k, k') ↦ inl (
    ap (λ (x : HypotheticalState). x.states) (sym same) ∙ k ∙ e',
    ap (λ (x : HypotheticalState). x.ongoing.turn.segment) (sym same)
        ∙ k'
        ∙ ap (λ (s : GameState). s.turn.segment) e,
  )
  | inr k ↦ inr (
      ap (λ (x : HypotheticalState). x.states) (sym same)
      ∙ k
      ∙ ap (λ (ss : List GameState). ss ++ next ∷ []) e'
      ∙ ap (λ (x : HypotheticalState). h.states ++ x.ongoing ∷ []) same)
]

ok-Saved :
    (h h' noted : HypotheticalState)
    → h.states ≡ noted.states
    → h.ongoing ≡ noted.ongoing
    → ok noted ≡ ok h'
    → Saved h h'
ok-Saved h h' noted e e' k =
    let same : noted ≡ h' = cc in
    Saved-same h h' (e ∙ ap (λ (x : HypotheticalState). x.states) same)
      (e' ∙ ap (λ (x : HypotheticalState). x.ongoing) same)

module _ (finished : Bool) (metadata : GameMetadata) where
  apply_game_action-Saved :
      (h h' : HypotheticalState) (action : GameAction)
      → apply_game_action h action finished metadata ≡ ok h'
      → Saved h h'
  unfolding apply_game_action
  apply_game_action-Saved h h' action e = elim (Bool-cases (is_dropped action h.ongoing)) [
    | inl dropped ↦
        let same : h ≡ h' = let e' : ok h ≡ ok h' = rw dropped at e in cc in
        Saved-same h h' (ap (λ (x : HypotheticalState). x.states) same)
          (ap (λ (x : HypotheticalState). x.ongoing) same)
    | inr kept ↦
        let noted = record_draw action h in
        let (next, k, e') =
          >>=-eq-ok
            (game_reducer noted.ongoing (without_negative action noted) (hypothetical_view finished)
              metadata)
            _ (rw kept at e) in
        let same : store noted next ≡ h' = cc in
        Saved-store h h' noted next (record_draw-same action h) same
  ]

  -- A forward action that does not throw either saves no state and stays in its segment, or it saves
  -- the new ongoing state after those saved before.
  pub hypothetical_state_reducer-Saved :
      (h h' : HypotheticalState) (action : HypotheticalStateAction)
      → IsForward action
      → hypothetical_state_reducer h action finished metadata ≡ ok h'
      → Saved h h'
  unfolding hypothetical_state_reducer
  hypothetical_state_reducer-Saved h h' back forward e = elim forward [ ]
  hypothetical_state_reducer-Saved h h' (show_drawn_cards show) forward e =
      ok-Saved h h' _ refl refl e
  hypothetical_state_reducer-Saved h h' (including (morph a)) forward e =
      ok-Saved h h' _ refl refl e
  hypothetical_state_reducer-Saved h h' (including (unmorph order)) forward e =
      ok-Saved h h' _ refl refl e
  hypothetical_state_reducer-Saved h h' (including (game_action action)) forward e =
      apply_game_action-Saved h h' action e

-- Runs without a step back.
pub data Steps (finished : Bool) (metadata : GameMetadata)
    : HypotheticalState → HypotheticalState → Type 0 where
  stay : (h : HypotheticalState) → Steps finished metadata h h
  step :
      (h h' h'' : HypotheticalState) (action : HypotheticalStateAction)
      → IsForward action
      → hypothetical_state_reducer h action finished metadata ≡ ok h'
      → Steps finished metadata h' h''
      → Steps finished metadata h h''

module _ (finished : Bool) (metadata : GameMetadata) where
  states-Steps :
      {h h' : HypotheticalState}
      → Steps finished metadata h h'
      → (added : List GameState) × (h'.states ≡ h.states ++ added)
  states-Steps (stay h) = ([], sym (append-nil h.states))
  states-Steps (step h h' h'' action forward e rest) =
      let (added, k) = states-Steps rest in
      elim (hypothetical_state_reducer-Saved finished metadata h h' action forward e) [
        | inl (k', _) ↦ (added, k ∙ ap (λ (ss : List GameState). ss ++ added) k')
        | inr k' ↦ (
          h'.ongoing ∷ added,
          k
              ∙ ap (λ (ss : List GameState). ss ++ added) k'
              ∙ append_assoc h.states (h'.ongoing ∷ []) added,
        )
      ]

-- `n` steps back.
abbrev pub go_backs : ℕ → HypotheticalState → HypotheticalState
go_backs zero h = h
go_backs (suc n) h = go_backs n (go_back h)

pop-append :
    (xs : List GameState) (y : GameState) (ys : List GameState)
    → pop (xs ++ y ∷ ys) ≡ xs ++ pop (y ∷ ys)
pop-append [] y ys = refl
pop-append (x ∷ []) y ys = refl
pop-append (x ∷ z ∷ xs) y ys = ap (λ (ss : List GameState). x ∷ ss) (pop-append (z ∷ xs) y ys)

length-pop : (y : GameState) (ys : List GameState) → length (pop (y ∷ ys)) ≡ length ys
length-pop y [] = refl
length-pop y (z ∷ ys) = ap suc (length-pop z ys)

-- Going back over all that was saved after the states `xs`.
go_backs-states :
    (n : ℕ) (h : HypotheticalState) (xs added : List GameState) (s : GameState)
    → h.states ≡ xs ++ added
    → length added ≡ suc n
    → last? xs ≡ some s
    → ((go_backs (suc n) h).states ≡ xs) × ((go_backs (suc n) h).ongoing ≡ s)
unfolding go_back
go_backs-states n h xs [] s e k l = ground arith
go_backs-states zero h xs (y ∷ []) s e k l = (popped, ground (arith, popped, l))
  where
    popped : pop h.states ≡ xs
    popped = ap pop e ∙ pop-append xs y [] ∙ append-nil xs
go_backs-states zero h xs (y ∷ z ∷ ys) s e k l = ground arith
go_backs-states (suc n) h xs (y ∷ ys) s e k l =
    go_backs-states n (go_back h) xs (pop (y ∷ ys)) s (ap pop e ∙ pop-append xs y ys)
      (omega (arith, length-pop y ys)) l

-- Going back over every state saved in a run of forward actions, one at least, restores the saved
-- states of its start, and the ongoing state is the last of them.
pub go_backs-Steps :
    (finished : Bool) (metadata : GameMetadata) (h h' : HypotheticalState) (n : ℕ) (s : GameState)
    → Steps finished metadata h h'
    → length h'.states ≡ length h.states + suc n
    → last? h.states ≡ some s
    → ((go_backs (suc n) h').states ≡ h.states) × ((go_backs (suc n) h').ongoing ≡ s)
go_backs-Steps finished metadata h h' n s steps longer l =
    let (added, e) = states-Steps finished metadata steps in
    go_backs-states n h' h.states added s e
      (omega (arith, ap length e, length-append h.states added, longer)) l

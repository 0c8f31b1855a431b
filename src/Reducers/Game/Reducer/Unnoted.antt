-- ===== src/Reducers/Game/Reducer/Unnoted.antt =====
-- reducers/gameReducer.ts with and without the player's own notes
use hanabi_live.Prelude.{◌≡◌, ◌∙◌, Option, none, Bool-cases, inl, inr, if◌then◌else◌}
use hanabi_live.Prelude.Int.{ℤ}
use hanabi_live.Result.{Result, ok, ◌>>=◌, >>=-eq-ok}
use hanabi_live.Types.Action.{GameAction}
use hanabi_live.Types.Game.{GameMetadata, GameState}
use hanabi_live.Rules.DoubleDiscard.{stacks_of}
use hanabi_live.Reducers.Stats.{Perspective, stats_reducer}
use hanabi_live.Reducers.Marks.{dda_reducer, known_trash_reducer}
use hanabi_live.Reducers.Turn.{turn_reducer}
use hanabi_live.Reducers.Cards.Reducer.{cards_reducer}
use hanabi_live.Reducers.Game.Actions.{game_switch}
use hanabi_live.Reducers.Game.Reducer.{
  game_reducer, derive_state, is_ignored, resolve_direction, resolve_start, resolve_statuses,
}
use hanabi_live.Reducers.Game.Reducer.Notes.{
  with_notes, without_our_notes, >>=-ok, done, switch-notes,
}
use hanabi_live.Reducers.Game.Reducer.Derived.{
  cards_reducer-notes, turn_reducer-notes, resolve_direction-notes, resolve_start-notes,
  resolve_statuses-notes,
}
use hanabi_live.Reducers.Game.Reducer.Statistics.{stats_reducer-notes}

>>=-elim :
    {A B C : Type 0} (first : Result A) (next : A → Result B) {r : B}
    → (first >>= next) ≡ ok r
    → ((x : A) → first ≡ ok x → next x ≡ ok r → C)
    → C
>>=-elim first next h f = let (x, k, h') = >>=-eq-ok first next h in f x k h'

derive_state-notes :
    (n : Option ℤ) (previous s s' : GameState) (action : GameAction) (view : Perspective)
    (metadata : GameMetadata)
    → derive_state previous s action view metadata ≡ ok s'
    → derive_state (with_notes n previous) (with_notes n s) action (without_our_notes view) metadata
      ≡ ok (with_notes none s')
unfolding derive_state
derive_state-notes n previous s s' action view metadata h =
    let variant = metadata.variant in
    >>=-elim (cards_reducer previous.deck action s metadata) _ h λ deck k₀ h₁.
      >>=-elim (resolve_direction (record s { deck = deck }) action variant) _ h₁ λ directed k₁ h₂.
        >>=-elim (resolve_start directed action variant) _ h₂ λ started k₂ h₃.
          >>=-elim (resolve_statuses started action variant) _ h₃ λ judged k₃ h₄.
            >>=-elim (turn_reducer previous.turn action judged metadata) _ h₄ λ next k₄ h₅.
              >>=-elim
                (stats_reducer previous.stats action previous (record judged { turn = next }) view
                  metadata)
                _ h₅
                λ stats k₅ h₆.
                  >>=-elim
                    (dda_reducer judged.deck stats.double_discard_card next.current_player_index) _
                    h₆
                    λ marked k₆ h₇.
                      >>=-elim (known_trash_reducer marked (stacks_of judged) variant) _ h₇
                        λ known k₇ h₈.
                          >>=-ok _ (cards_reducer-notes n previous.deck action s metadata ∙ k₀) (
                            >>=-ok _
                              (resolve_direction-notes n (record s { deck = deck }) directed variant
                                action k₁)
                              (>>=-ok _ (resolve_start-notes n directed started variant action k₂) (
                                >>=-ok _ (resolve_statuses-notes n started judged variant action k₃)
                                  (>>=-ok _
                                    (turn_reducer-notes n previous.turn action judged metadata ∙ k₄)
                                    (>>=-ok _
                                      (stats_reducer-notes n n action previous
                                        (record judged { turn = next }) view metadata previous.stats
                                        stats k₅)
                                      (>>=-ok _ k₆ (>>=-ok _ k₇ (done none h₈))))))))

-- If the game reducer does not throw, then run without the notes, on a state that may differ in the
-- cards gotten by notes, it gives a state that differs from its own at most there.
pub game_reducer-notes :
    (n : Option ℤ) (s s' : GameState) (action : GameAction) (view : Perspective)
    (metadata : GameMetadata)
    → game_reducer s action view metadata ≡ ok s'
    → (n' : Option ℤ) × (game_reducer (with_notes n s) action (without_our_notes view) metadata
        ≡ ok (with_notes n' s'))
unfolding game_reducer
game_reducer-notes n s s' action view metadata h =
    >>=-elim (game_switch s action view metadata) _ h
      λ switched k h₁. rest switched (switch-notes n view metadata s switched action k) h₁
  where
    rest :
        (switched : GameState)
        → game_switch (with_notes n s) action (without_our_notes view) metadata
          ≡ ok (with_notes n switched)
        → (if is_ignored action then ok switched else derive_state s switched action view metadata)
          ≡ ok s'
        → (n' : Option ℤ) × (game_reducer (with_notes n s) action (without_our_notes view) metadata
            ≡ ok (with_notes n' s'))
    rest switched k h₁ = elim (Bool-cases (is_ignored action)) [
      | inl ignored ↦ (n, >>=-ok _ k (rw ignored (done n (rw ignored at h₁))))
      | inr derived ↦ (
        none,
        >>=-ok _ k (
            rw derived
              (derive_state-notes n s switched s' action view metadata (rw derived at h₁))),
      )
    ]

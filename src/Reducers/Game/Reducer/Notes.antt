-- ===== src/Reducers/Game/Reducer/Notes.antt =====
-- What the player's own notes change in reducers/gameReducer.ts: the cards gotten by notes alone.
use hanabi_live.Prelude.{
  ℕ, ◌+◌, ◌≡◌, ◌∙◌, refl, ap, Bool, Option, none, List, [], ◌∷◌, Bool-cases, inl, inr, get_elem?,
  if◌then◌else◌,
}
use hanabi_live.Prelude.Int.{ℤ, pos, ◌-ℤ◌}
use hanabi_live.Result.{
  Result, ok, ◌>>=◌, assert_defined, no_segment, no_hand, no_card, no_suit_index, no_discard_stack,
  no_play_stack, >>=-eq-ok,
}
use hanabi_live.Types.Variant.{Variant}
use hanabi_live.Types.Action.{
  ActionClue, ActionDiscard, ActionDraw, ActionPlay, CardAction, GameAction, card_identity, clue,
  discard, draw, game_over, play, player_times, strike, played, discarded, turn, set_eff_mod,
  edit_note, note_list, note_list_player, receive_note,
}
use hanabi_live.Types.Game.{player_time_text, duration_text, GameMetadata, GameState}
use hanabi_live.Rules.Deck.{is_initial_deal_finished}
use hanabi_live.Reducers.Stats.{Perspective}
use hanabi_live.Reducers.Game.Piles.{
  remove_from_hand, lay_down, put_on_stack, put_on_play_stack, put_on_discard_stack,
  is_thrown_in_hole,
}
use hanabi_live.Reducers.Game.Actions.{
  game_switch, game_after_clue, game_after_discard, game_after_draw, game_after_play,
  game_after_game_over, game_after_player_times, game_after_strike, is_critical_and_needed,
  log_times, push_log, negate,
}

-- A state with another number of cards gotten by notes.
abbrev pub with_notes : Option ℤ → GameState → GameState
with_notes n s = record s { stats = record s.stats { cards_gotten_by_notes = n } }

abbrev pub without_our_notes : Perspective → Perspective
without_our_notes view = record view { our_notes = none }

pub >>=-ok :
    {A B : Type 0} {first : Result A} {x : A} {r : Result B} (next : A → Result B)
    → first ≡ ok x
    → next x ≡ r
    → (first >>= next) ≡ r
>>=-ok next e k = ap (λ m. m >>= next) e ∙ k

pub done :
    {s s' : GameState} (n : Option ℤ) → ok s ≡ ok s' → ok (with_notes n s) ≡ ok (with_notes n s')
done {s} {s'} n h = ap (λ (x : GameState). ok (with_notes n x)) (let same : s ≡ s' = cc in same)

module _ (n : Option ℤ) (view : Perspective) (metadata : GameMetadata) (s s' : GameState) where
  clue-notes :
      (a : ActionClue)
      → game_after_clue s a view metadata ≡ ok s'
      → game_after_clue (with_notes n s) a (without_our_notes view) metadata ≡ ok (with_notes n s')
  unfolding game_after_clue
  clue-notes a h =
      let (segment, k₁, h₁) = >>=-eq-ok (assert_defined no_segment s.turn.segment) _ h in
      let (target, k₂, h₂) = >>=-eq-ok (assert_defined no_hand (get_elem? s.hands a.target)) _ h₁ in
      let (giver, k₃, h₃) = >>=-eq-ok (assert_defined no_hand (get_elem? s.hands a.giver)) _ h₂ in
      >>=-ok _ k₁ (>>=-ok _ k₂ (>>=-ok _ k₃ (done n h₃)))

  draw-notes :
      (a : ActionDraw)
      → game_after_draw s a metadata ≡ ok s'
      → game_after_draw (with_notes n s) a metadata ≡ ok (with_notes n s')
  unfolding game_after_draw
  draw-notes a h =
      let (finished, k, h₁) =
        >>=-eq-ok (is_initial_deal_finished (s.cards_remaining_in_the_deck -ℤ pos 1) metadata) _
          h in
      rw k (elim (Bool-cases finished) [
        | inl is_done ↦ rw is_done (done n (rw is_done at h₁))
        | inr dealing ↦ rw dealing (done n (rw dealing at h₁))
      ])

  remove-notes :
      (player order : ℕ) (slot : Option ℕ)
      → remove_from_hand s player order ≡ ok (s', slot)
      → remove_from_hand (with_notes n s) player order ≡ ok (with_notes n s', slot)
  unfolding remove_from_hand
  remove-notes player order slot h =
      let (hand, k, h₁) = >>=-eq-ok (assert_defined no_hand (get_elem? s.hands player)) _ h in
      rw k (
        ap
          (λ (r : Result (GameState × Option ℕ)).
            r >>= (λ (p : GameState × Option ℕ). ok (with_notes n p.0, p.1)))
          h₁)

  lay_down-notes :
      (action : CardAction) (variant : Variant)
      → lay_down action s variant view ≡ ok s'
      → lay_down action (with_notes n s) variant (without_our_notes view) ≡ ok (with_notes n s')
  unfolding lay_down put_on_play_stack put_on_discard_stack
  lay_down-notes action variant h = elim (Bool-cases (is_thrown_in_hole action variant view)) [
    | inl thrown ↦ rw thrown (done n (rw thrown at h))
    | inr laid ↦ rw laid (put_on_stack-notes action (rw laid at h))
  ]
    where
      put_on_stack-notes :
          (action : CardAction)
          → put_on_stack action s variant ≡ ok s'
          → put_on_stack action (with_notes n s) variant ≡ ok (with_notes n s')
      put_on_stack-notes (played a) k =
          let (suit_index, k₁, h₁) = >>=-eq-ok (assert_defined no_suit_index a.suit_index) _ k in
          let (stack, k₂, h₂) =
            >>=-eq-ok (assert_defined no_play_stack (get_elem? s.play_stacks suit_index)) _ h₁ in
          rw k₁ (rw k₂ (done n h₂))
      put_on_stack-notes (discarded a) k =
          let (suit_index, k₁, h₁) = >>=-eq-ok (assert_defined no_suit_index a.suit_index) _ k in
          let (stack, k₂, h₂) =
            >>=-eq-ok (assert_defined no_discard_stack (get_elem? s.discard_stacks suit_index)) _
              h₁ in
          rw k₁ (rw k₂ (done n h₂))

log_times-notes :
    (n : Option ℤ) (s : GameState) (player : ℕ) (times : List ℤ) (timed : Bool)
    → log_times (with_notes n s) player times timed ≡ with_notes n (log_times s player times timed)
unfolding log_times
log_times-notes n s player [] timed = refl
log_times-notes n s player (time ∷ times) timed =
    log_times-notes n
      (push_log s (player_time_text player (if timed then time else negate time) timed))
      (player + 1) times timed

critical-notes :
    (n : Option ℤ) (s : GameState) (a : ActionDiscard) (variant : Variant) (critical : Bool)
    → is_critical_and_needed a s variant ≡ ok critical
    → is_critical_and_needed a (with_notes n s) variant ≡ ok critical
unfolding is_critical_and_needed
critical-notes n s a variant critical h = h

module _ (n : Option ℤ) (view : Perspective) (metadata : GameMetadata) (s s' : GameState) where
  play-notes :
      (a : ActionPlay)
      → game_after_play s a view metadata ≡ ok s'
      → game_after_play (with_notes n s) a (without_our_notes view) metadata ≡ ok (with_notes n s')
  unfolding game_after_play
  play-notes a h =
      let ((removed, slot), k₁, h₁) = >>=-eq-ok (remove_from_hand s a.player_index a.order) _ h in
      let (laid, k₂, h₂) = >>=-eq-ok (lay_down (played a) removed metadata.variant view) _ h₁ in
      let (card, k₃, h₃) = >>=-eq-ok (assert_defined no_card (get_elem? laid.deck a.order)) _ h₂ in
      >>=-ok _ (remove-notes n view metadata s removed a.player_index a.order slot k₁) (
        >>=-ok _ (lay_down-notes n view metadata removed laid (played a) metadata.variant k₂)
          (>>=-ok _ k₃ (done n h₃)))

  discard-notes :
      (a : ActionDiscard)
      → game_after_discard s a view metadata ≡ ok s'
      → game_after_discard (with_notes n s) a (without_our_notes view) metadata
        ≡ ok (with_notes n s')
  unfolding game_after_discard
  discard-notes a h =
      let ((removed, slot), k₁, h₁) = >>=-eq-ok (remove_from_hand s a.player_index a.order) _ h in
      let (laid, k₂, h₂) = >>=-eq-ok (lay_down (discarded a) removed metadata.variant view) _ h₁ in
      let (card, k₃, h₃) = >>=-eq-ok (assert_defined no_card (get_elem? laid.deck a.order)) _ h₂ in
      let (critical, k₄, h₄) = >>=-eq-ok (is_critical_and_needed a laid metadata.variant) _ h₃ in
      >>=-ok _ (remove-notes n view metadata s removed a.player_index a.order slot k₁) (
        >>=-ok _ (lay_down-notes n view metadata removed laid (discarded a) metadata.variant k₂) (
          >>=-ok _ k₃
            (>>=-ok _ (critical-notes n laid a metadata.variant critical k₄) (done n h₄))))

  pub switch-notes :
      (action : GameAction)
      → game_switch s action view metadata ≡ ok s'
      → game_switch (with_notes n s) action (without_our_notes view) metadata ≡ ok (with_notes n s')
  unfolding game_switch game_after_game_over game_after_player_times game_after_strike
  switch-notes (clue a) h = clue-notes n view metadata s s' a h
  switch-notes (discard a) h = discard-notes a h
  switch-notes (draw a) h = draw-notes n view metadata s s' a h
  switch-notes (game_over a) h = done n h
  switch-notes (play a) h = play-notes a h
  switch-notes (player_times a) h =
      ap (λ (x : GameState). ok (push_log x (duration_text a.duration)))
        (log_times-notes n s 0 a.player_times metadata.options.timed)
      ∙ done n h
  switch-notes (strike a) h = done n h
  switch-notes (card_identity a) h = done n h
  switch-notes turn h = done n h
  switch-notes set_eff_mod h = done n h
  switch-notes edit_note h = done n h
  switch-notes note_list h = done n h
  switch-notes note_list_player h = done n h
  switch-notes receive_note h = done n h

-- ===== src/Reducers/Game/Reducer/Statistics.antt =====
-- What the player's own notes change in reducers/statsReducer.ts
use hanabi_live.Prelude.{
  ℕ, ◌≡◌, ◌∙◌, refl, ap, Bool, Option, none, some, List, get_elem?, map, length, ◌&&◌,
  if◌then◌else◌,
}
use hanabi_live.Prelude.Int.{ℤ}
use hanabi_live.Result.{Result, ok, >>=-eq-ok}
use hanabi_live.Types.Variant.{Variant}
use hanabi_live.Types.Card.{CardState}
use hanabi_live.Types.Action.{GameAction, clue, discard, play, strike}
use hanabi_live.Types.Game.{GameMetadata, GameState, StatsState}
use hanabi_live.Rules.DoubleDiscard.{
  stacks_of, get_double_discard_card, double_discard_at, double_discard_of, next_player_locked,
}
use hanabi_live.Rules.ClueTokens.{
  get_unadjusted_clue_tokens, get_discard_clue_token_value, get_suit_complete_clue_token_value,
}
use hanabi_live.Rules.Turn.{get_end_game_length}
use hanabi_live.Rules.CluesUsable.{get_clues_still_usable, get_clues_still_usable_not_rounded}
use hanabi_live.Rules.CardsGotten.{get_cards_gotten}
use hanabi_live.Reducers.Stats.{
  Perspective, stats_reducer, clues_lost, stack_wasted, is_blind_play, get_max_score_per_stack,
  double_discard_part, max_score_part, attempted, is_watching_live, by_notes,
}
use hanabi_live.Reducers.Game.Reducer.Notes.{with_notes, without_our_notes, >>=-ok}

module _ (n p : Option ℤ) (action : GameAction) (previous s : GameState) (view : Perspective)
    (variant : Variant) where
  clues_lost-notes :
      clues_lost action (with_notes p previous) (with_notes n s) (without_our_notes view) variant
      ≡ clues_lost action previous s view variant
  unfolding clues_lost
  clues_lost-notes = by_action action
    where
      by_action :
          (a : GameAction)
          → clues_lost a (with_notes p previous) (with_notes n s) (without_our_notes view) variant
            ≡ clues_lost a previous s view variant
      by_action (clue a) = refl
      by_action (strike a) = refl
      by_action (play a) =
          ap (λ (wasted : Bool). if wasted then get_discard_clue_token_value variant else 0)
            (by_suit a.suit_index)
        where
          by_suit :
              (suit : Option ℕ)
              → stack_wasted suit (with_notes p previous) (with_notes n s) variant
                ≡ stack_wasted suit previous s variant
          by_suit none = refl
          by_suit (some suit_index) = refl
      by_action _ = refl

  is_blind_play-notes :
      is_blind_play action (with_notes n s) variant ≡ is_blind_play action s variant
  unfolding is_blind_play
  is_blind_play-notes = by_action action
    where
      by_action :
          (a : GameAction) → is_blind_play a (with_notes n s) variant ≡ is_blind_play a s variant
      by_action (play a) = refl
      by_action (discard a) = refl
      by_action _ = refl

  double_discard_part-notes :
      (stats : StatsState)
      → double_discard_part action
          (record stats { cards_gotten_by_notes = p })
          (with_notes n s)
          variant
        ≡ double_discard_part action stats s variant
  unfolding get_double_discard_card
  double_discard_part-notes stats = by_action action
    where
      by_action :
          (a : GameAction)
          → double_discard_part a
              (record stats { cards_gotten_by_notes = p })
              (with_notes n s)
              variant
            ≡ double_discard_part a stats s variant
      by_action (discard a) = by_card (get_elem? s.deck a.order) s.turn.current_player_index
        where
          by_identity :
              (card : CardState) (suit rank : Option ℕ)
              → double_discard_of a.order card suit rank (with_notes n s) variant
                ≡ double_discard_of a.order card suit rank s variant
          by_identity card none rank = refl
          by_identity card (some suit_index) none = refl
          by_identity card (some suit_index) (some rank) = refl

          by_card :
              (card : Option CardState) (current : Option ℕ)
              → double_discard_at a.order card current (with_notes n s) variant
                ≡ double_discard_at a.order card current s variant
          by_card none current = refl
          by_card (some card) none = refl
          by_card (some card) (some current) =
              ap (λ (r : Result (Option ℕ)). if next_player_locked s current then ok none else r)
                (by_identity card card.suit_index card.rank)
      by_action (play a) = refl
      by_action (clue a) = refl
      by_action _ = refl

stats-ok :
    {x y : StatsState}
    → ok x ≡ ok y
    → ok (record x { cards_gotten_by_notes = none })
      ≡ ok (record y { cards_gotten_by_notes = none })
stats-ok {x} {y} h =
    ap (λ (z : StatsState). ok (record z { cards_gotten_by_notes = none }))
      (let same : x ≡ y = cc in same)

pub stats_reducer-notes :
    (n p : Option ℤ) (action : GameAction) (previous s : GameState) (view : Perspective)
    (metadata : GameMetadata) (stats stats' : StatsState)
    → stats_reducer stats action previous s view metadata ≡ ok stats'
    → stats_reducer
        (record stats { cards_gotten_by_notes = p })
        action
        (with_notes p previous)
        (with_notes n s)
        (without_our_notes view)
        metadata
      ≡ ok (record stats' { cards_gotten_by_notes = none })
unfolding stats_reducer get_max_score_per_stack
stats_reducer-notes n p action previous s view metadata stats stats' h =
    let variant = metadata.variant in
    let (end_game_turns, k₁, h₁) =
      >>=-eq-ok (get_end_game_length metadata.options metadata.character_assignments) _ h in
    let (maximum, k₂, h₂) = >>=-eq-ok (max_score_part action stats s variant) _ h₁ in
    let score : ℕ =
      if variant.throw_it_in_a_hole && is_watching_live view
      then attempted action stats
      else s.score in
    let deck_size = s.cards_remaining_in_the_deck in
    let scores : List ℕ = map (λ (stack : List ℕ). length stack) s.play_stacks in
    let tokens = get_unadjusted_clue_tokens s.clue_tokens variant in
    let (gotten, k₃, h₃) =
      >>=-eq-ok
        (get_cards_gotten s.deck (stacks_of s) view.playing view.shadowing maximum.1 variant) _
        h₂ in
    let (notes, _, h₄) = >>=-eq-ok (by_notes view.our_notes s variant) _ h₃ in
    let (usable, k₅, h₅) =
      >>=-eq-ok
        (get_clues_still_usable score scores maximum.0 variant.stack_size deck_size end_game_turns
          (get_discard_clue_token_value variant) (get_suit_complete_clue_token_value variant)
          tokens)
        _ h₄ in
    let (not_rounded, k₆, h₆) =
      >>=-eq-ok
        (get_clues_still_usable_not_rounded score scores maximum.0 variant.stack_size deck_size
          end_game_turns (get_discard_clue_token_value variant)
          (get_suit_complete_clue_token_value variant) tokens)
        _ h₅ in
    let (double_discard, k₇, h₇) = >>=-eq-ok (double_discard_part action stats s variant) _ h₆ in
    >>=-ok _ k₁ (
      >>=-ok _ k₂ (
        >>=-ok _ k₃ (
          >>=-ok _ k₅ (
            >>=-ok _ k₆ (
              >>=-ok _ (double_discard_part-notes n p action previous s view variant stats ∙ k₇) (
                rw
                  (
                    clues_lost-notes n p action previous s view variant,
                    is_blind_play-notes n p action previous s view variant,
                  )
                  (stats-ok h₇)))))))

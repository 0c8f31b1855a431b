-- ===== src/Reducers/Initial/Empty.antt =====
-- reducers/initialStates/initialGameState.ts: the table before the first card
use hanabi_live.Prelude.{ℕ, zero, suc, ◌≡◌, count, refl, ap, arith, [], replicate, length}
use hanabi_live.Prelude.Int.{pos}
use hanabi_live.Result.{ok, >>=-eq-ok}
use hanabi_live.Types.Variant.{max_clue_num}
use hanabi_live.Types.Game.{GameMetadata, GameState, to_number}
use hanabi_live.Rules.ClueTokens.{get_adjusted_clue_tokens}
use hanabi_live.Rules.Deck.{get_total_cards_in_deck}
use hanabi_live.Rules.Hand.{get_cards_per_hand}
use hanabi_live.Rules.Turn.{get_end_game_length}
use hanabi_live.Rules.Pace.{get_starting_deck_size}
use hanabi_live.Rules.CluesUsable.{get_clues_still_usable_not_rounded}
use hanabi_live.Reducers.Game.Piles.Conservation.{count_all, on_piles}
use hanabi_live.Reducers.Initial.{
  get_initial_game_state, get_initial_turn_state, get_initial_card_status_map, initial_stacks,
}

count_all-replicate : (o n : ℕ) → count_all o (replicate n []) ≡ 0
count_all-replicate o zero = refl
count_all-replicate o (suc n) = omega (arith, count_all-replicate o n)

-- What the initial state holds, by its parts.
pub get_initial_game_state_lem :
    (metadata : GameMetadata) (s : GameState)
    → get_initial_game_state metadata ≡ ok s
    → (s.turn ≡ get_initial_turn_state metadata.options.starting_player)
      × (s.clue_tokens ≡ pos (get_adjusted_clue_tokens max_clue_num metadata.variant))
      × (s.hands ≡ replicate (to_number metadata.options.num_players) [])
      × (s.play_stacks ≡ replicate (length metadata.variant.suits) [])
      × (s.discard_stacks ≡ replicate (length metadata.variant.suits) [])
      × (s.hole ≡ [])
unfolding get_initial_game_state
get_initial_game_state_lem metadata s h =
    let (total, _, h₁) = >>=-eq-ok (get_total_cards_in_deck metadata.variant) _ h in
    let (statuses, _, h₂) =
      >>=-eq-ok (get_initial_card_status_map metadata.variant (initial_stacks metadata.variant)) _
        h₁ in
    let (deck_size, _, h₃) =
      >>=-eq-ok
        (get_starting_deck_size metadata.options.num_players (get_cards_per_hand metadata.options)
          metadata.variant)
        _ h₂ in
    let (end_length, _, h₄) =
      >>=-eq-ok (get_end_game_length metadata.options metadata.character_assignments) _ h₃ in
    let (usable, _, h₅) = >>=-eq-ok (get_clues_still_usable_not_rounded _ _ _ _ _ _ _ _ _) _ h₄ in
    parts _ s h₅
  where
    parts :
        (x y : GameState)
        → ok x ≡ ok y
        → (y.turn ≡ x.turn)
          × (y.clue_tokens ≡ x.clue_tokens)
          × (y.hands ≡ x.hands)
          × (y.play_stacks ≡ x.play_stacks)
          × (y.discard_stacks ≡ x.discard_stacks)
          × (y.hole ≡ x.hole)
    parts x y e =
        let same : y ≡ x = cc in
        (
          ap (λ (z : GameState). z.turn) same,
          ap (λ (z : GameState). z.clue_tokens) same,
          ap (λ (z : GameState). z.hands) same,
          ap (λ (z : GameState). z.play_stacks) same,
          ap (λ (z : GameState). z.discard_stacks) same,
          ap (λ (z : GameState). z.hole) same,
        )

-- The state before the first card: nobody has a card and nothing is on the stacks.
pub get_initial_game_state-on_piles :
    (o : ℕ) (metadata : GameMetadata) (s : GameState)
    → get_initial_game_state metadata ≡ ok s
    → on_piles o s ≡ 0
get_initial_game_state-on_piles o metadata s h =
    let (_, _, hands, stacks, discards, hole) = get_initial_game_state_lem metadata s h in
    omega (
      arith,
      ap (count_all o) hands,
      ap (count_all o) stacks,
      ap (count_all o) discards,
      ap (count o) hole,
      count_all-replicate o (to_number metadata.options.num_players),
      count_all-replicate o (length metadata.variant.suits),
    )

-- ===== src/Reducers/Possibilities.antt =====
-- reducers/cardPossibilitiesReducer.ts: what a clue says of a card
use hanabi_live.Prelude.{
  ℕ, Bool, true, false, not, ◌&&◌, List, [], ◌∷◌, ◌++◌, map, ◌==◌, get_elem?, length, replicate,
  any, all, includes, if◌then◌else◌,
}
use hanabi_live.Result.{Result, ok, filter_result, ◌>>=◌}
use hanabi_live.Types.Variant.{Variant, Color, max_players}
use hanabi_live.Types.Card.{CardState, SuitRankTuple}
use hanabi_live.Types.Action.{Clue, color_clue, rank_clue}
use hanabi_live.Rules.Clues.{same_color, is_card_touched_by_clue}

abbrev pub same : Bool → Bool → Bool
same true b = b
same false b = not b

-- The filter that the three lists of possibilities share.
unfoldable pub apply_to : Variant → Clue → Bool → List SuitRankTuple → Result (List SuitRankTuple)
apply_to variant clue positive =
    filter_result
      (λ p. do touched ← is_card_touched_by_clue variant clue p.0 p.1; ok (same touched positive))

unfoldable pub new_positive_color_clues : Clue → Bool → List Color → List Color
new_positive_color_clues (color_clue color) positive colors =
    if positive && not (any (λ c. same_color c color) colors) then colors ++ color ∷ [] else colors
new_positive_color_clues (rank_clue value) positive colors = colors

unfoldable pub new_positive_rank_clues : Variant → Clue → Bool → List ℕ → List ℕ
new_positive_rank_clues variant (color_clue color) positive ranks = ranks
new_positive_rank_clues variant (rank_clue value) positive ranks =
    if positive && not (includes ranks value)
    then ranks
      ++ (if variant.odds_and_evens
          then (if value == 1 then 1 ∷ 3 ∷ 5 ∷ [] else 2 ∷ 4 ∷ [])
          else value ∷ [])
    else ranks

-- Whether the set of the values has size 1.
abbrev pub is_determined : List ℕ → Bool
is_determined [] = false
is_determined (x ∷ xs) = all (λ y. y == x) xs

unfoldable pub update_identity : CardState → List SuitRankTuple → CardState
update_identity card possibilities =
    let suits = map (λ (p : SuitRankTuple). p.0) possibilities in
    let ranks = map (λ (p : SuitRankTuple). p.1) possibilities in
    record card {
      suit_index = if is_determined suits then get_elem? suits 0 else card.suit_index;
      rank = if is_determined ranks then get_elem? ranks 0 else card.rank;
      suit_determined = is_determined suits;
      rank_determined = is_determined ranks;
      revealed_to_player =
          if is_determined suits && is_determined ranks
          then replicate max_players true
          else card.revealed_to_player;
    }

unfoldable pub card_possibilities_reducer : CardState → Clue → Bool → Variant → Result CardState
unfolding apply_to update_identity new_positive_color_clues new_positive_rank_clues
card_possibilities_reducer card clue positive variant =
    if length card.possible_cards_from_clues == 1 then ok card else do
      from_clues ← apply_to variant clue positive card.possible_cards_from_clues
      possible ← apply_to variant clue positive card.possible_cards
      empathy ← apply_to variant clue positive card.possible_cards_for_empathy
      let updated = update_identity card from_clues
      ok (record updated {
        possible_cards_from_clues = from_clues;
        possible_cards = possible;
        possible_cards_for_empathy = empathy;
        positive_color_clues = new_positive_color_clues clue positive card.positive_color_clues;
        positive_rank_clues =
            new_positive_rank_clues variant clue positive card.positive_rank_clues;
      })

-- ===== src/Rules/CardsGotten.antt =====
-- rules/stats.ts: the cards that are gotten, by clues and by notes
pub mod Bounds
use hanabi_live.Prelude.{
  ℕ, suc, ◌+◌, Bool, true, false, not, ◌&&◌, ◌||◌, Option, none, some, List, [], ◌∷◌, get_elem?,
  ltb, if◌then◌else◌,
}
use hanabi_live.Prelude.Int.{ℤ, pos, negsuc, ◌+ℤ◌}
use hanabi_live.Result.{Result, ok, ◌>>=◌}
use hanabi_live.Types.Variant.{Variant}
use hanabi_live.Types.Card.{CardState, CardNote}
use hanabi_live.Rules.CardState.{
  is_card_clued, is_card_played, is_card_discarded, is_card_in_player_hand,
}
use hanabi_live.Rules.Card.{Stacks, is_all_card_possibilities_trash}

-- Played, or a failed discard that the players see as a play.
abbrev pub counts_as_played : CardState → Bool → Bool → Variant → Bool
counts_as_played card playing shadowing variant =
    is_card_played card
    || (is_card_discarded card
        && card.is_misplayed
        && variant.throw_it_in_a_hole
        && (playing || shadowing))

-- Whether the loop counts the card.
unfoldable pub is_gotten : CardState → List CardState → Stacks → Bool → Bool → Variant → Result Bool
is_gotten card deck stacks playing shadowing variant =
    if counts_as_played card playing shadowing variant
    then ok true
    else if is_card_in_player_hand card && is_card_clued card
    then (do
      all_trash ← is_all_card_possibilities_trash card deck stacks variant false
      ok (not all_trash))
    else ok false

-- The loop of `getCardsGotten` over the cards that are left.
unfoldable pub count_gotten :
    List CardState → List CardState → Stacks → Bool → Bool → Variant → Result ℕ
unfolding is_gotten
count_gotten [] deck stacks playing shadowing variant = ok 0
count_gotten (card ∷ rest) deck stacks playing shadowing variant = do
  gotten ← is_gotten card deck stacks playing shadowing variant
  n ← count_gotten rest deck stacks playing shadowing variant
  ok (if gotten then suc n else n)

unfoldable pub get_cards_gotten : List CardState → Stacks → Bool → Bool → ℕ → Variant → Result ℕ
unfolding count_gotten
get_cards_gotten deck stacks playing shadowing max_score variant = do
  gotten ← count_gotten deck deck stacks playing shadowing variant
  ok (if ltb max_score gotten then max_score else gotten)

abbrev adjustment_of_note : Option CardNote → Bool → ℤ
adjustment_of_note none is_clued_for_real = pos 0
adjustment_of_note (some note) is_clued_for_real =
    if is_clued_for_real && (note.unclued || note.known_trash)
    then negsuc 0
    else if is_clued_for_real
    then pos 0
    else if (note.clued || note.finessed) && not note.unclued && not note.known_trash
    then pos 1
    else pos 0

unfoldable pub get_cards_gotten_by_notes_adjustment : List CardNote → ℕ → CardState → ℤ
get_cards_gotten_by_notes_adjustment notes order card =
    adjustment_of_note (get_elem? notes order) (is_card_clued card)

-- The loop from the card at index `order` on.
unfoldable pub count_by_notes :
    ℕ → List CardState → List CardState → Stacks → Variant → List CardNote → Result ℤ
unfolding get_cards_gotten_by_notes_adjustment
count_by_notes order [] deck stacks variant notes = ok (pos 0)
count_by_notes order (card ∷ rest) deck stacks variant notes =
    let later = count_by_notes (order + 1) rest deck stacks variant notes in
    if is_card_in_player_hand card
    then (do
      all_trash ← is_all_card_possibilities_trash card deck stacks variant false
      n ← later
      ok (if all_trash then n else get_cards_gotten_by_notes_adjustment notes order card +ℤ n))
    else later

unfoldable pub get_cards_gotten_by_notes :
    List CardState → Stacks → Variant → List CardNote → Result ℤ
unfolding count_by_notes
get_cards_gotten_by_notes deck stacks variant notes =
    count_by_notes 0 deck deck stacks variant notes

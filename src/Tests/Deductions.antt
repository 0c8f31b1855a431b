-- ===== src/Tests/Deductions.antt =====
-- A round of deductions about one card of a small deck.
use hanabi_live.Prelude.{ℕ, suc, zero, ◌≡◌, refl, inl, inr, [], ◌∷◌, arith}
use hanabi_live.Prelude.Int.{pos}
use hanabi_live.Types.Card.{CardState, SuitRankTuple}
use hanabi_live.Reducers.Deduction.Search.{Counts}
use hanabi_live.Reducers.Deduction.Search.Combination.{Among, Within}
use hanabi_live.Reducers.Deduction.Sources.{
  can_be_used_to_disprove_possibility, get_card_possibilities_for_player,
}
use hanabi_live.Reducers.Deduction.Update.{updated_card}
use hanabi_live.Reducers.Deduction.Update.Truth.{used_truths, AreSourcesTrue, updated_card-truth}
use hanabi_live.Tests.Samples.{sample_deck, known_card}

-- The identities of the four cards.
abbrev what_they_are : ℕ → SuitRankTuple
what_they_are zero = (0, 1)
what_they_are (suc zero) = (0, 2)
what_they_are (suc (suc zero)) = (1, 1)
what_they_are (suc (suc (suc i))) = (1, 2)

-- The card of order 1, as its owner sees it after a clue about 2s.
abbrev half_known : CardState
half_known = record (known_card 1 0 (0, 2)) {
  possible_cards = (0, 2) ∷ (1, 2) ∷ [];
  possible_cards_for_empathy = (0, 2) ∷ (1, 2) ∷ [];
}

-- A copy of each card.
abbrev one_of_each : Counts
one_of_each s r = pos 1

sources_are_true : AreSourcesTrue what_they_are 1 0 0 sample_deck
unfolding can_be_used_to_disprove_possibility get_card_possibilities_for_player
sources_are_true = (inr (inl refl), (inl refl, (inr (inl refl), (inr (inl refl), tt))))

one_of_each-Within : Within one_of_each ((0, 2) ∷ used_truths what_they_are 1 0 0 sample_deck)
unfolding can_be_used_to_disprove_possibility
one_of_each-Within s r = ground arith

updated_card-truth_example :
    Among (0, 2) (updated_card half_known 0 0 sample_deck one_of_each).possible_cards
    × Among (0, 2) (updated_card half_known 0 0 sample_deck one_of_each).possible_cards_for_empathy
updated_card-truth_example =
    updated_card-truth what_they_are 1 0 0 half_known sample_deck one_of_each refl sources_are_true
      one_of_each-Within (inl refl) (inl refl)

-- The owner sees the yellow 2 in the other hand.
yellow_two_is_elsewhere :
    (updated_card half_known 0 0 sample_deck one_of_each).possible_cards ≡ (0, 2) ∷ []
unfolding updated_card hanabi_live.Reducers.Deduction.Search.filter_card_possibilities
    hanabi_live.Reducers.Deduction.Sources.generate_deck_possibilities
    can_be_used_to_disprove_possibility get_card_possibilities_for_player
yellow_two_is_elsewhere = refl

-- ===== src/Rules/Card/Needed.antt =====
-- Which cards rules/card.ts still needs, in variants that are played upwards.
use hanabi_live.Prelude.{ℕ, ◌≡◌, false, some, List, All, get_elem?, e_range}
use hanabi_live.Result.{Result, ok}
use hanabi_live.Types.Variant.{Variant}
use hanabi_live.Types.Card.{CardState}
use hanabi_live.Rules.CardState.{has_reversed_suits}
use hanabi_live.Rules.Deck.{is_all_discarded}
use hanabi_live.Rules.Card.{Stacks, is_rank_played}

module _ (suit_index rank : ℕ) (deck : List CardState) (stacks : Stacks) (variant : Variant)
    (upwards : has_reversed_suits variant ≡ false) (not_sudoku : variant.sudoku ≡ false) where
  -- What a needed card is, for a suit that is played upwards from 1.
  abbrev pub IsAlive : Type 0
  IsAlive =
      (stack : List ℕ) × (get_elem? stacks.play_stacks suit_index ≡ some stack)
      × (is_rank_played stack deck rank ≡ false)
      × All (λ (lower : ℕ). is_all_discarded variant deck suit_index lower ≡ ok false)
          (e_range 1 rank)

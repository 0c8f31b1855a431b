-- ===== src/Rules/Reversible.antt =====
-- rules/variants/reversible.ts. A set of ranks is a list; `has` is `includes`.
use Prim.Native.Nat.{max}
use hanabi_live.Prelude.{
  ℕ, zero, suc, ◌+◌, ◌-◌, Bool, true, false, not, ◌&&◌, ◌||◌, Option, none, some, List, [], ◌∷◌,
  ◌++◌, ◌==◌, get_elem?, length, includes, i_range, keys, if◌then◌else◌,
}
use hanabi_live.Result.{Result, ok, map_result, ◌>>=◌}
use hanabi_live.Types.Variant.{Variant, start_card_rank}
use hanabi_live.Types.Card.{CardState}
use hanabi_live.Types.Game.{StackDirection, undecided, up, down, finished}
use hanabi_live.Rules.Deck.{is_last_copy, is_all_discarded, get_all_discarded_set_for_suit}
use hanabi_live.Rules.PlayStacks.{get_last_played_rank}

-- `for (rank = n; rank >= 1; rank--)`
abbrev pub down_range : ℕ → List ℕ
down_range zero = []
down_range (suc n) = suc n ∷ down_range n

-- The body of a walk: stop at the first rank that is all discarded.
abbrev pub walk : List ℕ → List ℕ → List ℕ
walk dead [] = []
walk dead (rank ∷ ranks) =
    let rest = walk dead ranks in if includes dead rank then [] else rank ∷ rest

-- Neither the end card nor, in "Up or Down", the START card is left.
abbrev pub cannot_start : ℕ → List ℕ → Bool → Bool
cannot_start first dead up_or_down =
    includes dead first && (not up_or_down || includes dead start_card_rank)

abbrev first_ranks : ℕ → Option ℕ → Bool → List ℕ
first_ranks first (some played) up_or_down = []
first_ranks first none up_or_down = first ∷ (if up_or_down then start_card_rank ∷ [] else [])

abbrev next_up : Option ℕ → ℕ
next_up none = 2
next_up (some played) = if played == start_card_rank then 2 else played + 1

abbrev next_down : Option ℕ → ℕ
next_down none = 4
next_down (some played) = if played == start_card_rank then 4 else played - 1

abbrev pub useful_up : Option ℕ → List ℕ → Bool → List ℕ
useful_up last_played dead up_or_down =
    if cannot_start 1 dead up_or_down
    then []
    else first_ranks 1 last_played up_or_down ++ walk dead (i_range (next_up last_played) 5)

abbrev pub useful_down : Option ℕ → List ℕ → Bool → List ℕ
useful_down last_played dead up_or_down =
    if cannot_start 5 dead up_or_down
    then []
    else first_ranks 5 last_played up_or_down ++ walk dead (down_range (next_down last_played))

unfoldable pub reversible_get_ranks_useful_for_max_score :
    Option ℕ → List ℕ → Option StackDirection → Bool → List ℕ
reversible_get_ranks_useful_for_max_score last_played dead none up_or_down = []
reversible_get_ranks_useful_for_max_score last_played dead (some undecided) up_or_down =
    useful_up last_played dead up_or_down ++ useful_down last_played dead up_or_down
reversible_get_ranks_useful_for_max_score last_played dead (some finished) up_or_down = []
reversible_get_ranks_useful_for_max_score last_played dead (some up) up_or_down =
    useful_up last_played dead up_or_down
reversible_get_ranks_useful_for_max_score last_played dead (some down) up_or_down =
    useful_down last_played dead up_or_down

unfoldable pub reversible_is_card_needed_for_max_score :
    ℕ → ℕ → List CardState → List (List ℕ) → List StackDirection → Variant → Result Bool
reversible_is_card_needed_for_max_score suit_index rank deck play_stacks directions variant =
    elim (get_elem? play_stacks suit_index) [
      | none ↦ ok false
      | some play_stack ↦ do
        dead ← get_all_discarded_set_for_suit variant deck suit_index
        let useful =
            reversible_get_ranks_useful_for_max_score (get_last_played_rank play_stack deck) dead
              (get_elem? directions suit_index) variant.up_or_down
        ok (includes useful rank)
    ]

unfoldable pub walk_up : List ℕ → Variant → ℕ
walk_up dead variant =
    if cannot_start 1 dead variant.up_or_down then 0 else 1 + length (walk dead (i_range 2 5))

unfoldable pub walk_down : List ℕ → Variant → ℕ
walk_down dead variant =
    if cannot_start 5 dead variant.up_or_down then 0 else 1 + length (walk dead (down_range 4))

abbrev max_score_of : Option StackDirection → List ℕ → Variant → ℕ
max_score_of none dead variant = 0
max_score_of (some undecided) dead variant = max (walk_up dead variant) (walk_down dead variant)
max_score_of (some up) dead variant = walk_up dead variant
max_score_of (some down) dead variant = walk_down dead variant
max_score_of (some finished) dead variant = variant.stack_size

unfoldable pub reversible_get_max_score_per_stack :
    List CardState → List StackDirection → Variant → Result (List ℕ)
reversible_get_max_score_per_stack deck directions variant =
    map_result
      (λ suit_index. do
        dead ← get_all_discarded_set_for_suit variant deck suit_index
        ok (max_score_of (get_elem? directions suit_index) dead variant))
      (keys variant.suits)

abbrev is_undecided : Option StackDirection → Bool
is_undecided (some undecided) = true
is_undecided _ = false

abbrev is_up : Option StackDirection → Bool
is_up (some up) = true
is_up _ = false

abbrev is_down : Option StackDirection → Bool
is_down (some down) = true
is_down _ = false

-- `a() || b() || c()`
abbrev some_end_discarded : Variant → List CardState → ℕ → Result Bool
some_end_discarded variant deck suit_index = do
  start ← is_all_discarded variant deck suit_index start_card_rank
  if start then ok true else do
    one ← is_all_discarded variant deck suit_index 1
    if one then ok true else is_all_discarded variant deck suit_index 5

unfoldable pub reversible_is_card_critical :
    ℕ → ℕ → List CardState → List StackDirection → Variant → Result Bool
reversible_is_card_critical suit_index rank deck directions variant = do
  last_copy ← is_last_copy variant deck suit_index rank
  let direction = get_elem? directions suit_index
  if not variant.up_or_down
      then ok last_copy
      else if not last_copy
      then ok false
      else if (rank == 1 || rank == 5 || rank == start_card_rank) && is_undecided direction
      then some_end_discarded variant deck suit_index
      else if rank == 1
      then ok (is_down direction)
      else if rank == 5
      then ok (is_up direction)
      else ok true

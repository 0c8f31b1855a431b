-- ===== src/Reducers/Marks.antt =====
-- reducers/ddaReducer.ts and reducers/knownTrashReducer.ts: marks on every card of the deck
use hanabi_live.Prelude.{ℕ, Bool, true, false, ◌&&◌, Option, none, some, List, map, ◌==◌, get_elem?}
use hanabi_live.Result.{Result, ok, assert_defined, no_card, map_result, ◌>>=◌}
use hanabi_live.Types.Variant.{Variant}
use hanabi_live.Types.Card.{CardState, Location}
use hanabi_live.Rules.Card.{
  Stacks, can_card_possibly_be_from_clues_only, is_all_card_possibilities_trash,
}

-- `card.location === playerIndex`
abbrev pub is_at : Location → ℕ → Bool
is_at (Location.player i) player = i == player
is_at _ player = false

abbrev mark_double_discard : CardState → ℕ → CardState → CardState
mark_double_discard dda_card current card = record card {
  in_double_discard =
      is_at card.location current
      && can_card_possibly_be_from_clues_only card dda_card.suit_index dda_card.rank;
}

abbrev unmark : CardState → CardState
unmark card = record card { in_double_discard = false }

unfoldable pub dda_reducer : List CardState → Option ℕ → Option ℕ → Result (List CardState)
dda_reducer deck none current = ok (map unmark deck)
dda_reducer deck (some dda) none = ok (map unmark deck)
dda_reducer deck (some dda) (some current) = do
  dda_card ← assert_defined no_card (get_elem? deck dda)
  ok (map (mark_double_discard dda_card current) deck)

unfoldable pub known_trash_reducer : List CardState → Stacks → Variant → Result (List CardState)
known_trash_reducer deck stacks variant =
    map_result
      (λ card. do
        known ← is_all_card_possibilities_trash card deck stacks variant true
        ok (record card { is_known_trash_from_empathy = known }))
      deck

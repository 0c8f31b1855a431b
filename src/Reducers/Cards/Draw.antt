-- ===== src/Reducers/Cards/Draw.antt =====
-- reducers/cardsReducer.ts: the "draw" action, and reducers/initialStates/initialCardState.ts
pub mod Visibility
use hanabi_live.Prelude.{
  ℕ, ◌+◌, ◌-◌, ◌%◌, Bool, true, false, not, Option, none, some, is_none, List, [], ◌∷◌, ◌++◌, map,
  ◌==◌, length, ltb, replicate, keys, e_range, if◌then◌else◌,
}
use hanabi_live.Prelude.Int.{ℤ, pos, negsuc, eq_ℤ}
use hanabi_live.Result.{Result, ok, map_result, ◌>>=◌}
use hanabi_live.Types.Variant.{Variant}
use hanabi_live.Types.Card.{CardState, Location, SuitRankTuple}
use hanabi_live.Types.Action.{ActionDraw}
use hanabi_live.Types.Game.{
  GameMetadata, GameState, NumPlayers, to_number, CharacterName, oblivious, blind_spot, slow_witted,
}
use hanabi_live.Rules.Characters.{get_character_name_for_player}
use hanabi_live.Rules.Deck.{get_total_cards_in_deck}
use hanabi_live.Reducers.Deduction.Update.{write_card}

-- All identities, suit by suit.
abbrev pub identities_of : List ℕ → List ℕ → List SuitRankTuple
identities_of [] ranks = []
identities_of (suit_index ∷ suits) ranks =
    map (λ rank. (suit_index, rank)) ranks ++ identities_of suits ranks

unfoldable pub all_identities : Variant → List SuitRankTuple
all_identities variant = identities_of (keys variant.suits) variant.ranks

unfoldable pub get_initial_card_state : ℕ → Variant → NumPlayers → Result CardState
unfolding all_identities
get_initial_card_state order variant num_players = do
  total ← get_total_cards_in_deck variant
  let possible = all_identities variant
  ok (record {
    order = order;
    location = if ltb order total then Location.deck else Location.play_stack;
    suit_index = none;
    rank = none;
    possible_cards_from_clues = possible;
    possible_cards = possible;
    possible_cards_for_empathy = possible;
    revealed_to_player = replicate (to_number num_players) false;
    positive_color_clues = [];
    positive_rank_clues = [];
    suit_determined = false;
    rank_determined = false;
    has_clue_applied = false;
    num_positive_clues = 0;
    segment_first_clued = none;
    segment_drawn = none;
    segment_discarded = none;
    segment_played = none;
    in_double_discard = false;
    is_known_trash_from_empathy = false;
    is_misplayed = false;
    dealt_to_starting_hand = false;
    first_clued_while_on_chop = none;
  })

-- JavaScript's `(playerIndex - 1) % numPlayers`, which takes the sign of its left operand: it is -1
-- for player 0.
abbrev pub index_before : ℕ → ℕ → ℤ
index_before player num_players = if player == 0 then negsuc 0 else pos ((player - 1) % num_players)

unfoldable pub sees_drawn_card : CharacterName → ℕ → ℕ → ℕ → Bool
sees_drawn_card slow_witted player draw_location num_players = false
sees_drawn_card oblivious player draw_location num_players =
    not (eq_ℤ (pos draw_location) (index_before player num_players))
sees_drawn_card blind_spot player draw_location num_players =
    not (draw_location == (player + 1) % num_players)
sees_drawn_card _ player draw_location num_players = true

unfoldable pub can_player_see_drawn_card : ℕ → ℕ → ℕ → List (Option ℕ) → Result Bool
unfolding sees_drawn_card
can_player_see_drawn_card player draw_location num_players assignments =
    if player == draw_location then ok false else do
      name ← get_character_name_for_player (some player) assignments
      ok (sees_drawn_card name player draw_location num_players)

unfoldable pub drawn_card_revealed_to_player : ℕ → ℕ → List (Option ℕ) → Result (List Bool)
unfolding can_player_see_drawn_card
drawn_card_revealed_to_player draw_location num_players assignments =
    map_result (λ player. can_player_see_drawn_card player draw_location num_players assignments)
      (e_range 0 num_players)

abbrev drawn_possibilities : Option ℕ → Option ℕ → List SuitRankTuple → List SuitRankTuple
drawn_possibilities (some suit_index) (some rank) possible = (suit_index, rank) ∷ []
drawn_possibilities _ _ possible = possible

unfoldable pub drawn_card : ActionDraw → GameState → GameMetadata → Result CardState
unfolding get_initial_card_state drawn_card_revealed_to_player
drawn_card a game metadata = do
  initial ← get_initial_card_state a.order metadata.variant metadata.options.num_players
  revealed ←
      drawn_card_revealed_to_player a.player_index (length game.hands)
        metadata.character_assignments
  ok (record initial {
    location = Location.player a.player_index;
    suit_index = a.suit_index;
    rank = a.rank;
    segment_drawn = game.turn.segment;
    revealed_to_player = revealed;
    possible_cards = drawn_possibilities a.suit_index a.rank initial.possible_cards;
    dealt_to_starting_hand = is_none game.turn.segment;
  })

-- The two warnings on a wrong turn are only logged.
unfoldable pub cards_after_draw :
    List CardState → ActionDraw → GameState → GameMetadata → Result (List CardState)
unfolding drawn_card
cards_after_draw deck a game metadata = do
  card ← drawn_card a game metadata
  write_card deck a.order card

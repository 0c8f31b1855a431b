-- ===== src/Tests/Texts.antt =====
-- Runs of the strings of lobby/hypoCompress.ts, with a catalogue of one variant.
use hanabi_live.Prelude.{
  ℕ, zero, suc, ◌+◌, ◌-◌, ◌*◌, ◌/◌, ◌%◌, ◌≤◌, ◌≡◌, refl, ap, arith, Bool, true, Option, some, [],
  ◌∷◌, ◌++◌, String, inr,
}
use hanabi_live.Prelude.Int.{ℤ, pos}
use hanabi_live.Result.{ok}
use hanabi_live.Client.HypoCompress.Text.{Text, to_string, decimal}
use hanabi_live.Client.HypoCompress.Codec.{
  DeckCard, Action, string_to_deck_card, deck_card_to_string,
}
use hanabi_live.Client.HypoCompress.Codec.Cards.{
  card_of, range_of, string_to_deck_card-deck_card_to_string,
}
use hanabi_live.Client.HypoCompress.Codec.Actions.{action_of}
use hanabi_live.Client.HypoCompress.Game.{GameJson, shrink, expand}
use hanabi_live.Client.HypoCompress.Game.RoundTrip.{expand-shrink}

-- The number that digits write.
abbrev number : ℕ → Text → ℕ
number acc [] = acc
number acc (c ∷ cs) = number (acc * 10 + (c - 48)) cs

number-snoc :
    (acc : ℕ) (xs : Text) (c : ℕ) → number acc (xs ++ c ∷ []) ≡ number acc xs * 10 + (c - 48)
number-snoc acc [] c = refl
number-snoc acc (x ∷ xs) c = number-snoc (acc * 10 + (x - 48)) xs c

number-decimal : (fuel n : ℕ) → n ≤ fuel → number 0 (decimal fuel n) ≡ n
unfolding decimal
number-decimal zero n h = omega arith
number-decimal (suc fuel) n h = ground (
  arith,
  number-snoc 0 (decimal fuel (n / 10)) (48 + n % 10),
  number-decimal fuel (n / 10) (omega arith),
)

abbrev parse_digits : Text → Option ℤ
parse_digits text = some (pos (number 0 text))

parse_digits-to_string : (n : ℕ) → parse_digits (to_string (pos n)) ≡ some (pos n)
unfolding to_string
parse_digits-to_string n = ap (λ (m : ℕ). some (pos m)) (number-decimal n n (omega arith))

abbrev find_id : String → Option ℤ
find_id name = some (pos 7)

abbrev find_name : ℤ → Option String
find_name id = some "Rainbow (5 Suits)"

abbrev always : GameJson → GameJson → Bool
always g g' = true

abbrev sample_game : GameJson
sample_game = record {
  players = "Alice" ∷ "Bob" ∷ "Cathy" ∷ [];
  deck = card_of 0 1 ∷ card_of 4 5 ∷ card_of 2 3 ∷ [];
  actions = action_of 0 2 0 ∷ action_of 3 1 4 ∷ [];
  variant = some "Rainbow (5 Suits)";
  characters = [];
  id = pos 0;
  notes = [];
  seed = 112 ∷ 51 ∷ 45 ∷ 49 ∷ [];
}

-- "315ayi,03ahtb"… as the code writes it: three players, ranks 1 to 5, types 0 to 3.
sample_text : Text
sample_text =
    51 ∷ 49 ∷ 53 ∷ 97 ∷ 121 ∷ 109 ∷ 44 ∷ 48 ∷ 51 ∷ 97 ∷ 99 ∷ 116 ∷ 98 ∷ 44 ∷ 55 ∷ 44 ∷ 112 ∷ 51 ∷ 45
    ∷ 49 ∷ []

expand-shrink_example :
    (text : Text) × (shrink find_id find_name parse_digits always sample_game ≡ ok (some text))
    × (expand find_name parse_digits text ≡ ok (some sample_game))
unfolding hanabi_live.Client.HypoCompress.Codec.get_rank_min_max
    hanabi_live.Client.HypoCompress.Codec.get_type_min_max
    hanabi_live.Client.HypoCompress.Codec.min_max_from
expand-shrink_example =
    expand-shrink find_id find_name parse_digits always parse_digits-to_string (λ g. refl)
      sample_game
      (
        (3, omega arith, omega arith, refl),
        (
          5,
          refl,
          omega arith,
          omega arith,
          (
            (0, 1, refl, omega arith, omega arith, omega arith),
            (
              (4, 5, refl, omega arith, omega arith, omega arith),
              ((2, 3, refl, omega arith, omega arith, omega arith), tt),
            ),
          ),
        ),
        inr (
          0,
          3,
          refl,
          omega arith,
          omega arith,
          (
            (0, 2, 0, refl, omega arith, omega arith, omega arith, omega arith),
            ((3, 1, 4, refl, omega arith, omega arith, omega arith, omega arith), tt),
          ),
        ),
        refl,
        refl,
        refl,
        refl,
      )
      ("Rainbow (5 Suits)", 7, refl, refl, refl)

-- A deck without a 1 is read back with smaller ranks.
string_to_deck_card-deck_card_to_string_example :
    string_to_deck_card (deck_card_to_string (card_of 1 4) (range_of 2 5)) (range_of 2 5)
    ≡ card_of 1 3
string_to_deck_card-deck_card_to_string_example =
    string_to_deck_card-deck_card_to_string 1 4 2 5 (omega arith) (omega arith) (omega arith)

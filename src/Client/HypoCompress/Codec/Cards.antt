-- ===== src/Client/HypoCompress/Codec/Cards.antt =====
-- lobby/hypoCompress.ts: cards and decks as strings and back
use hanabi_live.Prelude.{
  ℕ, zero, ◌+◌, ◌-◌, ◌*◌, ◌%◌, ◌≤◌, ◌<◌, ◌≡◌, ◌∙◌, refl, ap, sym, arith, true, Option, none, some,
  List, [], ◌∷◌, ◌++◌, all, All, if◌then◌else◌,
}
use hanabi_live.Prelude.Int.{ℤ, pos, ◌-ℤ◌, ◌+ℤ◌}
use hanabi_live.Client.HypoCompress.Text.{
  Text, base62, char_at, base62_index, to_string, times, rem_ℤ, floor_div,
}
use hanabi_live.Client.HypoCompress.Text.Splits.{is_plain}
use hanabi_live.Client.HypoCompress.Codec.{
  DeckCard, MinMax, size, deck_card_to_string, string_to_deck_card, join_cards, compress_deck,
  decode_cards, get_rank_min_max, is_min_max_valid, decompress_deck, parse_range,
}
use hanabi_live.Client.HypoCompress.Codec.Base62.{
  base62_code, pair_mod, pair_div, to_string_digit, digit_plain,
}

-- A card with natural numbers, and a range of them.
abbrev pub card_of : ℕ → ℕ → DeckCard
card_of s k = record { suit_index = pos s; rank = pos k }

abbrev pub range_of : ℕ → ℕ → MinMax
range_of lo hi = record { min = pos lo; max = pos hi }

card_index :
    (s k lo hi : ℕ)
    → lo ≤ k
    → k ≤ hi
    → (times (pos s) (size (range_of lo hi)) +ℤ (pos k -ℤ pos lo))
      ≡ pos (s * (hi + 1 - lo) + (k - lo))
card_index s k lo hi h h' = ground arith

back_by_rank : (i m : ℕ) → m ≤ i → (pos i -ℤ (pos m +ℤ pos 1) +ℤ pos 1) ≡ pos (i - m)
back_by_rank i m h = ground arith

-- The card that stands at an index, as `stringToDeckCard` computes it from the remainder.
card_at : ℕ → ℕ → ℕ → DeckCard
card_at index r m = record {
  suit_index = floor_div (pos index -ℤ (pos m +ℤ pos 1) +ℤ pos 1) r;
  rank = pos m +ℤ pos 1;
}

card_at_lem : (s k r : ℕ) → k < r → card_at (s * r + k) r ((s * r + k) % r) ≡ card_of s (k + 1)
unfolding card_at
card_at_lem s k r h =
    ap (card_at (s * r + k) r) (pair_mod s k r h)
    ∙ ap (λ (z : ℤ). card_with (floor_div z r) (pos k +ℤ pos 1))
        (back_by_rank (s * r + k) k (omega arith) ∙ ap pos (omega arith))
    ∙ ap (λ (q : ℕ). card_with (pos q) (pos k +ℤ pos 1)) (pair_div s zero r (omega arith))
    ∙ ap (card_with (pos s)) (ground arith)
  where
    card_with : ℤ → ℤ → DeckCard
    card_with z m = record { suit_index = z; rank = m }

written :
    (s k lo hi : ℕ)
    → lo ≤ k
    → k ≤ hi
    → deck_card_to_string (card_of s k) (range_of lo hi)
      ≡ char_at base62 (pos (s * (hi + 1 - lo) + (k - lo)))
unfolding deck_card_to_string
written s k lo hi h h' = ap (char_at base62) (card_index s k lo hi h h')

size_range : (lo hi : ℕ) → lo ≤ hi → size (range_of lo hi) ≡ hi + 1 - lo
size_range lo hi h = ground arith

read_at :
    (c index lo hi : ℕ)
    → lo ≤ hi
    → base62_index (c ∷ []) ≡ pos index
    → string_to_deck_card (c ∷ []) (range_of lo hi)
      ≡ card_at index (hi + 1 - lo) (index % (hi + 1 - lo))
unfolding string_to_deck_card card_at
read_at c index lo hi h e =
    ap (λ (z : ℤ). from_index z (size (range_of lo hi))) e
    ∙ ap (from_index (pos index)) (size_range lo hi h)
  where
    from_index : ℤ → ℕ → DeckCard
    from_index z r = record {
      suit_index = floor_div (z -ℤ (rem_ℤ z r +ℤ pos 1) +ℤ pos 1) r;
      rank = rem_ℤ z r +ℤ pos 1;
    }

-- A card that is written and read again keeps its suit, and its rank counts from 1.
pub string_to_deck_card-deck_card_to_string :
    (s k lo hi : ℕ)
    → lo ≤ k
    → k ≤ hi
    → s * (hi + 1 - lo) + (k - lo) < 62
    → string_to_deck_card (deck_card_to_string (card_of s k) (range_of lo hi)) (range_of lo hi)
      ≡ card_of s (k - lo + 1)
string_to_deck_card-deck_card_to_string s k lo hi h h' lt =
    let (c, e, e', _) = base62_code (s * (hi + 1 - lo) + (k - lo)) lt in
    ap (λ (t : Text). string_to_deck_card t (range_of lo hi)) (written s k lo hi h h' ∙ e)
    ∙ read_at c (s * (hi + 1 - lo) + (k - lo)) lo hi (omega arith) e'
    ∙ card_at_lem s (k - lo) (hi + 1 - lo) (omega arith)

-- A card of a deck whose ranks are 1 to `top`, with an index in the alphabet.
abbrev pub FitsCard : ℕ → DeckCard → Type 0
FitsCard top card =
    (s : ℕ) × (k : ℕ) × (card ≡ card_of s k) × (1 ≤ k) × (k ≤ top) × (s * top + (k - 1) < 62)

card_char :
    (top : ℕ) (card : DeckCard)
    → FitsCard top card
    → (c : ℕ) × (deck_card_to_string card (range_of 1 top) ≡ c ∷ [])
      × (string_to_deck_card (c ∷ []) (range_of 1 top) ≡ card)
      × (is_plain c ≡ true)
card_char top card (s, k, e, h, h', lt) =
    let (c, e₁, e₂, plain) = base62_code (s * top + (k - 1)) lt in
    let is_written =
      ap (λ x. deck_card_to_string x (range_of 1 top)) e
      ∙ written s k 1 top h h'
      ∙ ap (λ (r : ℕ). char_at base62 (pos (s * r + (k - 1)))) (omega arith)
      ∙ e₁ in
    (
      c,
      is_written,
      ap (λ (t : Text). string_to_deck_card t (range_of 1 top))
            (sym is_written ∙ ap (λ x. deck_card_to_string x (range_of 1 top)) e)
          ∙ string_to_deck_card-deck_card_to_string s k 1 top h h' (ground arith)
          ∙ ap (card_of s) (omega arith)
          ∙ sym e,
      plain,
    )

pub join_cards-text :
    (top : ℕ) (deck : List DeckCard)
    → All (FitsCard top) deck
    → (decode_cards (join_cards deck (range_of 1 top)) (range_of 1 top) ≡ deck)
      × (all is_plain (join_cards deck (range_of 1 top)) ≡ true)
unfolding decode_cards
join_cards-text top [] _ = (refl, refl)
join_cards-text top (card ∷ deck) (fits, rest) =
    let (c, e, back, plain) = card_char top card fits in
    let (backs, plains) = join_cards-text top deck rest in
    (ground (arith, e, back, backs), ground (arith, e, plain, plains))

pub is_min_max_valid_range : (lo hi : ℕ) → lo ≤ hi → is_min_max_valid (range_of lo hi) ≡ true
is_min_max_valid_range lo hi h = ground arith

pub parse_range-digits :
    (parse_int_safe : Text → Option ℤ)
    → ((n : ℕ) → parse_int_safe (to_string (pos n)) ≡ some (pos n))
    → (lo hi : ℕ) → lo < 10
    → hi < 10
    → (rest : Text)
    → parse_range parse_int_safe ((48 + lo) ∷ (48 + hi) ∷ rest) ≡ some (range_of lo hi)
unfolding parse_range
parse_range-digits parse_int_safe parses lo hi h h' rest = ground (arith, read lo h, read hi h')
  where
    read : (n : ℕ) → n < 10 → parse_int_safe ((48 + n) ∷ []) ≡ some (pos n)
    read n lt = ap parse_int_safe (sym (to_string_digit n lt)) ∙ parses n

decompress_deck-digits :
    (parse_int_safe : Text → Option ℤ)
    → ((n : ℕ) → parse_int_safe (to_string (pos n)) ≡ some (pos n))
    → (lo hi : ℕ) → lo ≤ hi
    → hi < 10
    → (rest : Text)
    → decompress_deck parse_int_safe ((48 + lo) ∷ (48 + hi) ∷ rest)
      ≡ some (decode_cards rest (range_of lo hi))
unfolding decompress_deck
decompress_deck-digits parse_int_safe parses lo hi h lt rest = ground (
  arith,
  parse_range-digits parse_int_safe parses lo hi (omega arith) lt rest,
  is_min_max_valid_range lo hi h,
)

pub decompress_deck-compress_deck :
    (parse_int_safe : Text → Option ℤ)
    → ((n : ℕ) → parse_int_safe (to_string (pos n)) ≡ some (pos n))
    → (deck : List DeckCard) (top : ℕ) → get_rank_min_max deck ≡ range_of 1 top
    → 1 ≤ top
    → top < 10
    → All (FitsCard top) deck
    → (text : Text) × (compress_deck deck ≡ some text)
      × (decompress_deck parse_int_safe text ≡ some deck)
      × (all is_plain text ≡ true)
unfolding compress_deck
decompress_deck-compress_deck parse_int_safe parses deck top is_range h lt fits =
    let (back, plain) = join_cards-text top deck fits in
    let is_text : compress_deck deck ≡ some (49 ∷ (48 + top) ∷ join_cards deck (range_of 1 top)) =
      ap (compress_in deck) is_range
      ∙ ground (
        arith,
        is_min_max_valid_range 1 top h,
        to_string_digit top lt,
        to_string_digit 1 (omega arith),
      ) in
    (
      49 ∷ (48 + top) ∷ join_cards deck (range_of 1 top),
      is_text,
      decompress_deck-digits parse_int_safe parses 1 top h lt (join_cards deck (range_of 1 top))
          ∙ ap some back,
      ground (arith, digit_plain top lt, plain),
    )
  where
    compress_in : List DeckCard → MinMax → Option Text
    compress_in xs range =
        if is_min_max_valid range
        then some (to_string range.min ++ to_string range.max ++ join_cards xs range)
        else none

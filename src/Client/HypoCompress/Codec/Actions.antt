-- ===== src/Client/HypoCompress/Codec/Actions.antt =====
-- lobby/hypoCompress.ts: actions as strings and back
use hanabi_live.Prelude.{
  ℕ, zero, suc, ◌+◌, ◌-◌, ◌*◌, ◌%◌, ◌≤◌, ◌<◌, ◌≡◌, ◌∙◌, refl, ap, sym, arith, true, Option, none,
  some, List, [], ◌∷◌, ◌++◌, all, All, if◌then◌else◌, inl, inr, ◌⊎◌,
}
use hanabi_live.Prelude.Int.{ℤ, pos, ◌-ℤ◌, ◌+ℤ◌}
use hanabi_live.Client.HypoCompress.Text.{
  Text, base62, char_at, base62_index, to_string, times, rem_ℤ, floor_div,
}
use hanabi_live.Client.HypoCompress.Text.Splits.{is_plain}
use hanabi_live.Client.HypoCompress.Codec.{
  Action, MinMax, size, action_to_string, string_to_action, join_actions, compress_actions,
  decode_actions, get_type_min_max, is_min_max_valid, decompress_actions, coded_value,
  decoded_value, min_max_from,
}
use hanabi_live.Client.HypoCompress.Codec.Base62.{
  base62_code, pair_mod, pair_div, to_string_digit, digit_plain,
}
use hanabi_live.Client.HypoCompress.Codec.Cards.{
  range_of, is_min_max_valid_range, parse_range-digits,
}

-- The value that a code stands for: 0 for `undefined`, else one less.
abbrev pub value_coded : ℕ → Option ℤ
value_coded zero = none
value_coded (suc v) = some (pos v)

abbrev pub action_of : ℕ → ℕ → ℕ → Action
action_of t g w = record { type = pos t; target = pos g; value = value_coded w }

coded_value-value_coded : (w : ℕ) → coded_value (value_coded w) ≡ pos w
coded_value-value_coded zero = refl
coded_value-value_coded (suc v) = ground arith

decoded_value_lem : (w : ℕ) → decoded_value (pos w) ≡ value_coded w
decoded_value_lem zero = refl
decoded_value_lem (suc v) = ground arith

action_index :
    (t w lo hi : ℕ)
    → lo ≤ t
    → t ≤ hi
    → (times (pos w) (size (range_of lo hi)) +ℤ pos t -ℤ pos lo)
      ≡ pos (w * (hi + 1 - lo) + (t - lo))
action_index t w lo hi h h' = ground arith

written :
    (t g w lo hi : ℕ)
    → lo ≤ t
    → t ≤ hi
    → action_to_string (action_of t g w) (range_of lo hi)
      ≡ char_at base62 (pos (w * (hi + 1 - lo) + (t - lo))) ++ char_at base62 (pos g)
unfolding action_to_string
written t g w lo hi h h' =
    ap
      (λ (z : ℤ).
        char_at base62 (times z (size (range_of lo hi)) +ℤ pos t -ℤ pos lo)
        ++ char_at base62 (pos g))
      (coded_value-value_coded w)
    ∙ ap (λ (z : ℤ). char_at base62 z ++ char_at base62 (pos g)) (action_index t w lo hi h h')

size_range : (lo hi : ℕ) → lo ≤ hi → size (range_of lo hi) ≡ hi + 1 - lo
size_range lo hi h = ground arith

back_by : (a k : ℕ) → (pos (a + k) -ℤ pos k) ≡ pos (a + 0)
back_by a k = ground arith

-- The action that stands at an index, as `stringToAction` computes it from the remainder.
action_at : ℕ → ℕ → ℕ → ℕ → ℕ → Action
action_at index r m g lo = record {
  type = pos m +ℤ pos lo;
  target = pos g;
  value = decoded_value (floor_div (pos index -ℤ pos m) r);
}

action_at_lem :
    (w k r g lo : ℕ)
    → k < r
    → action_at (w * r + k) r ((w * r + k) % r) g lo ≡ action_of (k + lo) g w
unfolding action_at
action_at_lem w k r g lo h =
    ap (λ (m : ℕ). action_at (w * r + k) r m g lo) (pair_mod w k r h)
    ∙ ap (λ (z : ℤ). action_with (pos k +ℤ pos lo) (decoded_value (floor_div z r)))
        (back_by (w * r) k)
    ∙ ap (λ (q : ℕ). action_with (pos k +ℤ pos lo) (decoded_value (pos q)))
        (pair_div w zero r (omega arith))
    ∙ ap (action_with (pos k +ℤ pos lo)) (decoded_value_lem w)
    ∙ ap (λ (z : ℤ). action_with z (value_coded w)) (ground arith)
  where
    action_with : ℤ → Option ℤ → Action
    action_with z v = record { type = z; target = pos g; value = v }

read_at :
    (c d index g lo hi : ℕ)
    → lo ≤ hi
    → base62_index (c ∷ []) ≡ pos index
    → base62_index (d ∷ []) ≡ pos g
    → string_to_action (c ∷ d ∷ []) (range_of lo hi)
      ≡ action_at index (hi + 1 - lo) (index % (hi + 1 - lo)) g lo
unfolding string_to_action action_at
read_at c d index g lo hi h e e' =
    ap (λ (z : ℤ). from_index z (base62_index (d ∷ [])) (size (range_of lo hi))) e
    ∙ ap (λ (z : ℤ). from_index (pos index) z (size (range_of lo hi))) e'
    ∙ ap (from_index (pos index) (pos g)) (size_range lo hi h)
  where
    from_index : ℤ → ℤ → ℕ → Action
    from_index z t r = record {
      type = rem_ℤ z r +ℤ pos lo;
      target = t;
      value = decoded_value (floor_div (z -ℤ rem_ℤ z r) r);
    }

-- An action whose type is in the range, with both indexes in the alphabet; `w` codes its value.
abbrev pub FitsAction : ℕ → ℕ → Action → Type 0
FitsAction lo hi action =
    (t : ℕ) × (g : ℕ) × (w : ℕ) × (action ≡ action_of t g w)
    × (lo ≤ t)
    × (t ≤ hi)
    × (g < 62)
    × (w * (hi + 1 - lo) + (t - lo) < 62)

action_chars :
    (lo hi : ℕ) (action : Action)
    → FitsAction lo hi action
    → (c : ℕ) × (d : ℕ) × (action_to_string action (range_of lo hi) ≡ c ∷ d ∷ [])
      × (string_to_action (c ∷ d ∷ []) (range_of lo hi) ≡ action)
      × (is_plain c ≡ true)
      × (is_plain d ≡ true)
action_chars lo hi action (t, g, w, e, h, h', lt, lt') =
    let (c, e₁, e₂, plain) = base62_code (w * (hi + 1 - lo) + (t - lo)) lt' in
    let (d, e₃, e₄, plain') = base62_code g lt in
    (
      c,
      d,
      ap (λ x. action_to_string x (range_of lo hi)) e
          ∙ written t g w lo hi h h'
          ∙ ap (λ (xs : Text). xs ++ char_at base62 (pos g)) e₁
          ∙ ap (λ (xs : Text). c ∷ xs) e₃,
      read_at c d (w * (hi + 1 - lo) + (t - lo)) g lo hi (omega arith) e₂ e₄
          ∙ action_at_lem w (t - lo) (hi + 1 - lo) g lo (omega arith)
          ∙ ap (λ (n : ℕ). action_of n g w) (omega arith)
          ∙ sym e,
      plain,
      plain',
    )

pub join_actions-text :
    (lo hi : ℕ) (actions : List Action)
    → All (FitsAction lo hi) actions
    → (decode_actions (join_actions actions (range_of lo hi)) (range_of lo hi) ≡ actions)
      × (all is_plain (join_actions actions (range_of lo hi)) ≡ true)
unfolding decode_actions
join_actions-text lo hi [] _ = (refl, refl)
join_actions-text lo hi (action ∷ actions) (fits, rest) =
    let (c, d, e, back, plain, plain') = action_chars lo hi action fits in
    let (backs, plains) = join_actions-text lo hi actions rest in
    (ground (arith, e, back, backs), ground (arith, e, plain, plain', plains))

-- The range of types is two digits; a game without actions has the text "00".
abbrev pub FitsActions : List Action → Type 0
FitsActions actions =
    (actions ≡ [])
    ⊎ ((lo : ℕ) × (hi : ℕ) × (get_type_min_max actions ≡ range_of lo hi)
        × (lo ≤ hi)
        × (hi < 10)
        × All (FitsAction lo hi) actions)

pub decompress_actions-compress_actions :
    (parse_int_safe : Text → Option ℤ)
    → ((n : ℕ) → parse_int_safe (to_string (pos n)) ≡ some (pos n))
    → (actions : List Action) → FitsActions actions
    → (decompress_actions parse_int_safe (compress_actions actions) ≡ some actions)
      × (all is_plain (compress_actions actions) ≡ true)
unfolding compress_actions decompress_actions decode_actions get_type_min_max min_max_from
decompress_actions-compress_actions parse parses actions (inl e) =
    let is_text : compress_actions actions ≡ 48 ∷ 48 ∷ [] = ap compress_actions e in
    (
      ap (decompress_actions parse) is_text
          ∙ ground (arith, e, parse_range-digits parse parses 0 0 (omega arith) (omega arith) []),
      ap (all is_plain) is_text,
    )
decompress_actions-compress_actions parse parses actions (inr (lo, hi, e, h, lt, fits)) =
    let (back, plain) = join_actions-text lo hi actions fits in
    let is_text : compress_actions actions
        ≡ (48 + lo) ∷ (48 + hi) ∷ join_actions actions (range_of lo hi) =
      ap (compress_in actions) e
      ∙ ground (
        arith,
        is_min_max_valid_range lo hi h,
        to_string_digit lo (omega arith),
        to_string_digit hi lt,
      ) in
    (
      ap (decompress_actions parse) is_text
          ∙ ground (
            arith,
            parse_range-digits parse parses lo hi (omega arith) lt
                (join_actions actions (range_of lo hi)),
            back,
            is_min_max_valid_range lo hi h,
          ),
      ap (all is_plain) is_text
          ∙ ground (arith, digit_plain lo (omega arith), digit_plain hi lt, plain),
    )
  where
    compress_in : List Action → MinMax → Text
    compress_in xs range =
        if is_min_max_valid range
        then to_string range.min ++ to_string range.max ++ join_actions xs range
        else 48 ∷ 48 ∷ []

-- ===== src/Client/HypoCompress/Codec/Base62.antt =====
-- lobby/hypoCompress.ts: the alphabet `BASE62` and the digits of the small numbers
use native.Mathlib.Nat.{mul-add-div_right, mul-add-mod_self_right, mod-eq_of_lt, div-eq_of_lt}
use hanabi_live.Prelude.{
  ℕ, zero, suc, ◌+◌, ◌*◌, ◌/◌, ◌%◌, ◌≤◌, ◌<◌, ◌≡◌, ◌∙◌, refl, ap, arith, Bool, true, false, ◌&&◌,
  none, some, [], ◌∷◌, ◌==◌, get_elem?, index_of, option_eq, all, Bool-cases, Option-cases, inl,
  inr, ==_iff,
}
use hanabi_live.Prelude.Int.{pos}
use hanabi_live.Client.HypoCompress.Text.{base62, char_at, base62_index, decimal, to_string}
use hanabi_live.Client.HypoCompress.Text.Splits.{is_plain, all-append, get_elem?-all}

-- A test that holds of all the numbers below `n`.
abbrev all_below : ℕ → (ℕ → Bool) → Bool
all_below zero p = true
all_below (suc n) p = p n && all_below n p

all_below-lt : (n : ℕ) (p : ℕ → Bool) (i : ℕ) → all_below n p ≡ true → i < n → p i ≡ true
all_below-lt zero p i h lt = elim lt [ ]
all_below-lt (suc n) p i h lt = elim (Bool-cases (i == n)) [
  | inl e ↦ ground (arith, ==_iff i n, ap p)
  | inr e ↦ all_below-lt n p i (ground arith) (ground (arith, ==_iff i n))
]

abbrev reads_back : ℕ → Bool
reads_back i = elim (get_elem? base62 i) [
  | none ↦ false
  | some c ↦ option_eq (index_of base62 c) (some i)
]

reads_back_all : all_below 62 reads_back ≡ true
unfolding base62
reads_back_all = refl

base62_plain : all is_plain base62 ≡ true
unfolding base62
base62_plain = refl

-- A number below 62 is written as a character that is read back.
pub base62_code :
    (i : ℕ)
    → i < 62
    → (c : ℕ) × (char_at base62 (pos i) ≡ c ∷ [])
      × (base62_index (c ∷ []) ≡ pos i)
      × (is_plain c ≡ true)
unfolding base62_index
base62_code i h = elim (Option-cases (get_elem? base62 i)) [
  | inl e ↦ ground (arith, all_below-lt 62 reads_back i reads_back_all h)
  | inr (c, e) ↦ (
    c,
    ground arith,
    ground (arith, all_below-lt 62 reads_back i reads_back_all h),
    get_elem?-all is_plain base62 i base62_plain e,
  )
]

pub to_string_digit : (n : ℕ) → n < 10 → to_string (pos n) ≡ (48 + n) ∷ []
unfolding to_string decimal
to_string_digit zero h = refl
to_string_digit (suc n) h = ground arith

-- A pair of numbers as one number, read back by `%` and `/`.
pub pair_mod : (s k r : ℕ) → k < r → (s * r + k) % r ≡ k
pair_mod s k r h = mul-add-mod_self_right s r k ∙ mod-eq_of_lt h

pub pair_div : (s k r : ℕ) → k < r → (s * r + k) / r ≡ s
pair_div s k r h = ground (arith, mul-add-div_right {m = r} (omega arith) s k, div-eq_of_lt h)

pub digit_plain : (n : ℕ) → n < 10 → is_plain (48 + n) ≡ true
digit_plain n h = ground arith

decimal_plain : (fuel n : ℕ) → n ≤ fuel → all is_plain (decimal fuel n) ≡ true
unfolding decimal
decimal_plain zero n h = ground arith
decimal_plain (suc fuel) n h = ground (
  arith,
  all-append is_plain (decimal fuel (n / 10)) ((48 + n % 10) ∷ []),
  decimal_plain fuel (n / 10) (omega arith),
)

pub to_string_plain : (n : ℕ) → all is_plain (to_string (pos n)) ≡ true
unfolding to_string
to_string_plain n = decimal_plain n n (omega arith)

-- ===== src/Client/HypoCompress/Text.antt =====
-- The strings of lobby/hypoCompress.ts, as lists of character codes, and what the file uses of
-- JavaScript's numbers and strings.
pub mod Splits
use hanabi_live.Prelude.{
  ℕ, zero, suc, ◌+◌, ◌-◌, ◌*◌, ◌/◌, ◌%◌, Bool, true, false, not, ◌&&◌, ◌||◌, Option, none, some,
  List, [], ◌∷◌, ◌++◌, ◌==◌, ltb, leb, get_elem?, index_of, range_from, filter, if◌then◌else◌,
}
use hanabi_live.Prelude.Int.{ℤ, pos, negsuc, sub_ℕ}

abbrev pub Text : Type 0
Text = List ℕ

abbrev pub comma : ℕ
comma = 44

abbrev pub hyphen : ℕ
hyphen = 45

unfoldable pub base62 : Text
base62 = range_from 97 26 ++ range_from 48 10 ++ range_from 65 26

-- `charAt`: a string of one character, or the empty string.
abbrev pub char_at : Text → ℤ → Text
char_at text (negsuc n) = []
char_at text (pos n) = elim (get_elem? text n) [ none ↦ [] | some c ↦ c ∷ [] ]

-- `BASE62.indexOf` of a string of at most one character: the empty string is at 0, and what is not
-- there at -1.
unfoldable pub base62_index : Text → ℤ
base62_index [] = pos 0
base62_index (c ∷ cs) = elim (index_of base62 c) [ none ↦ negsuc 0 | some i ↦ pos i ]

-- `%`, whose result has the sign of the dividend.
abbrev pub rem_ℤ : ℤ → ℕ → ℤ
rem_ℤ (pos n) r = pos (n % r)
rem_ℤ (negsuc n) r = sub_ℕ 0 (suc n % r)

-- `Math.floor(n / r)`
abbrev pub floor_div : ℤ → ℕ → ℤ
floor_div (pos n) r = pos (n / r)
floor_div (negsuc n) r = negsuc (n / r)

abbrev pub times : ℤ → ℕ → ℤ
times (pos n) r = pos (n * r)
times (negsuc n) r = sub_ℕ 0 (suc n * r)

-- The decimal digits of a number, with fuel for its divisions by 10.
unfoldable pub decimal : ℕ → ℕ → Text
decimal zero n = (48 + n) ∷ []
decimal (suc fuel) n =
    let rest = decimal fuel (n / 10) in
    if ltb n 10 then (48 + n) ∷ [] else rest ++ (48 + n % 10) ∷ []

-- `toString`
unfoldable pub to_string : ℤ → Text
unfolding decimal
to_string (pos n) = decimal n n
to_string (negsuc n) = hyphen ∷ decimal (suc n) (suc n)

-- `replaceAll("-", "")`
abbrev pub remove_hyphens : Text → Text
remove_hyphens text = filter (λ c. not (c == hyphen)) text

-- `match(/.{1,20}/gu)` and `join("-")`: a hyphen before every character that would be the 21st
-- after the last one. `left` characters fit before the next hyphen.
unfoldable pub hyphenate_from : ℕ → Text → Text
hyphenate_from left [] = []
hyphenate_from zero (c ∷ cs) = hyphen ∷ c ∷ hyphenate_from 19 cs
hyphenate_from (suc left) (c ∷ cs) = c ∷ hyphenate_from left cs

-- The first part of a string that is split, with a character more.
abbrev pub add_to_first : ℕ → List Text → List Text
add_to_first c [] = (c ∷ []) ∷ []
add_to_first c (part ∷ parts) = (c ∷ part) ∷ parts

-- `split(",")`
unfoldable pub split_commas : Text → List Text
split_commas [] = [] ∷ []
split_commas (c ∷ cs) =
    let rest = split_commas cs in if c == comma then [] ∷ rest else add_to_first c rest

-- `join(",")`
unfoldable pub join_commas : List Text → Text
join_commas [] = []
join_commas (part ∷ []) = part
join_commas (part ∷ next ∷ parts) = part ++ comma ∷ join_commas (next ∷ parts)

-- `/^[\d\-A-Za-z]*$/`, for one character
abbrev pub is_seed_char : ℕ → Bool
is_seed_char c =
    c == hyphen || leb 48 c && leb c 57 || leb 65 c && leb c 90 || leb 97 c && leb c 122

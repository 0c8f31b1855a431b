-- ===== src/Client/HypoCompress/Text/Splits.antt =====
-- lobby/hypoCompress.ts: the texts that are split at commas and that hyphens wrap
use hanabi_live.Prelude.{
  ℕ, zero, suc, ◌≡◌, ◌∙◌, refl, ap, sym, arith, Bool, true, false, not, ◌&&◌, some, List, [], ◌∷◌,
  ◌++◌, ◌==◌, get_elem?, length, all, count, if◌then◌else◌, Bool-cases, inl, inr, ==_iff,
}
use hanabi_live.Client.HypoCompress.Text.{
  Text, comma, hyphen, remove_hyphens, hyphenate_from, split_commas, join_commas, add_to_first,
  is_seed_char,
}

-- What is neither a comma nor a hyphen.
abbrev pub is_plain : ℕ → Bool
is_plain c = not (c == comma) && not (c == hyphen)

pub all-append {ℓ} :
    {A : Type ℓ} (p : A → Bool) (xs ys : List A)
    → all p xs ≡ true
    → all p ys ≡ true
    → all p (xs ++ ys) ≡ true
all-append p [] ys hs ks = ks
all-append p (x ∷ xs) ys hs ks = ground (arith, all-append p xs ys)

pub get_elem?-all {ℓ} :
    {A : Type ℓ} (p : A → Bool) (xs : List A) (i : ℕ) {x : A}
    → all p xs ≡ true
    → get_elem? xs i ≡ some x
    → p x ≡ true
get_elem?-all p [] i hs e = cc
get_elem?-all p (x ∷ xs) zero hs e = ground arith
get_elem?-all p (x ∷ xs) (suc i) hs e = get_elem?-all p xs i (ground arith) e

pub remove_hyphens-hyphenate_from :
    (left : ℕ) (text : Text) → remove_hyphens (hyphenate_from left text) ≡ remove_hyphens text
unfolding hyphenate_from
remove_hyphens-hyphenate_from left [] = refl
remove_hyphens-hyphenate_from zero (c ∷ cs) = ground (arith, remove_hyphens-hyphenate_from 19 cs)
remove_hyphens-hyphenate_from (suc left) (c ∷ cs) =
    ground (arith, remove_hyphens-hyphenate_from left cs)

pub remove_hyphens-append :
    (xs ys : Text) → remove_hyphens (xs ++ ys) ≡ remove_hyphens xs ++ remove_hyphens ys
remove_hyphens-append [] ys = refl
remove_hyphens-append (x ∷ xs) ys = ground (arith, remove_hyphens-append xs ys)

pub remove_hyphens_plain : (text : Text) → all is_plain text ≡ true → remove_hyphens text ≡ text
remove_hyphens_plain [] h = refl
remove_hyphens_plain (c ∷ cs) h = ground (arith, remove_hyphens_plain cs)

count-hyphenate_from :
    (left : ℕ) (text : Text) → count comma (hyphenate_from left text) ≡ count comma text
unfolding hyphenate_from
count-hyphenate_from left [] = refl
count-hyphenate_from zero (c ∷ cs) = ground (arith, count-hyphenate_from 19 cs)
count-hyphenate_from (suc left) (c ∷ cs) = ground (arith, count-hyphenate_from left cs)

split_commas-cases :
    (text : Text) → (part : Text) × (parts : List Text) × (split_commas text ≡ part ∷ parts)
unfolding split_commas
split_commas-cases [] = ([], [], refl)
split_commas-cases (c ∷ cs) =
    let (part, parts, e) = split_commas-cases cs in
    elim (Bool-cases (c == comma)) [
      | inl h ↦ ([], split_commas cs, ground arith)
      | inr h ↦ (c ∷ part, parts, ground arith)
    ]

length-split_commas : (text : Text) → length (split_commas text) ≡ suc (count comma text)
unfolding split_commas
length-split_commas [] = refl
length-split_commas (c ∷ cs) =
    let (part, parts, e) = split_commas-cases cs in ground (arith, e, length-split_commas cs)

pub length-split_commas-hyphenate_from :
    (left : ℕ) (text : Text)
    → length (split_commas (hyphenate_from left text)) ≡ length (split_commas text)
length-split_commas-hyphenate_from left text =
    length-split_commas (hyphenate_from left text)
    ∙ ap suc (count-hyphenate_from left text)
    ∙ sym (length-split_commas text)

join_commas_add :
    (c : ℕ) (cs : Text) (part : Text) (parts : List Text)
    → join_commas (part ∷ parts) ≡ cs
    → join_commas (if c == comma then [] ∷ part ∷ parts else add_to_first c (part ∷ parts)) ≡ c ∷ cs
unfolding join_commas
join_commas_add c cs part [] h = ground (arith, ==_iff c comma)
join_commas_add c cs part (next ∷ parts) h = ground (arith, ==_iff c comma)

pub join_commas-split_commas : (text : Text) → join_commas (split_commas text) ≡ text
unfolding split_commas join_commas
join_commas-split_commas [] = refl
join_commas-split_commas (c ∷ cs) =
    let (part, parts, e) = split_commas-cases cs in
    ground (arith, join_commas_add c cs part parts, join_commas-split_commas cs)

-- A comma splits a text for good.
pub split_commas-append :
    (xs ys : Text) → split_commas (xs ++ comma ∷ ys) ≡ split_commas xs ++ split_commas ys
unfolding split_commas
split_commas-append [] ys = refl
split_commas-append (x ∷ xs) ys =
    let (part, parts, e) = split_commas-cases xs in ground (arith, split_commas-append xs ys, e)

pub split_commas_plain : (text : Text) → all is_plain text ≡ true → split_commas text ≡ text ∷ []
unfolding split_commas
split_commas_plain [] h = refl
split_commas_plain (c ∷ cs) h = ground (arith, split_commas_plain cs)

seed-comma : (c : ℕ) → is_seed_char c ≡ true → (c == comma) ≡ false
seed-comma c h = elim (Bool-cases (c == comma)) [
  | inl e ↦ ground (arith, ==_iff c comma, arith)
  | inr e ↦ e
]

pub split_commas_seed : (text : Text) → all is_seed_char text ≡ true → split_commas text ≡ text ∷ []
unfolding split_commas
split_commas_seed [] h = refl
split_commas_seed (c ∷ cs) h = ground (arith, split_commas_seed cs, seed-comma c)

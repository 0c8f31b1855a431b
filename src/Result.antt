-- ===== src/Result.antt =====
-- Code that may throw. Each constructor of `Failure` is an assertion or a `throw` of
-- packages/game/src or packages/client/src, or an access to a property of `undefined`. The reducers run inside immer's
-- `produce`, which discards the draft when the recipe throws, so a failure carries no state.
use hanabi_live.Prelude.{
  ◌≡◌, refl, Bool, true, false, Option, none, some, List, [], ◌∷◌, if◌then◌else◌,
}

pub data Failure : Type 0 where
  no_segment no_hand no_discard_stack no_play_stack no_card no_suit_index : Failure
  no_character_assignment no_character no_color no_stack_start no_score start_card : Failure
  stacks_differ discard_value_too_low no_starting_clues no_assignment_entry : Failure
  five_stack_index no_assigned_suit no_start_at_index no_partial_scores : Failure
  -- packages/client/src: the strings of hypothetical games, and replays
  no_compressed_part no_variant not_in_replay already_in_replay negative_segment : Failure
  no_shared has_hypothetical no_hypothetical no_replay_state no_card_identity : Failure
  no_ongoing_segment early_segment : Failure
  -- the model's own: a write past the end of the deck, which would leave a hole in the array, and a
  -- loop whose fuel is spent
  sparse_deck out_of_fuel : Failure

pub data Result {ℓ} (A : Type ℓ) : Type ℓ where
  ok : A → Result A
  throw : Failure → Result A

infixl 5 ◌>>=◌
abbrev pub ◌>>=◌ {ℓ κ} : {A : Type ℓ} {B : Type κ} → Result A → (A → Result B) → Result B
ok a >>= f = f a
throw e >>= f = throw e

-- `assertDefined` and `assertNotNull`
abbrev pub assert_defined {ℓ} : {A : Type ℓ} → Failure → Option A → Result A
assert_defined e none = throw e
assert_defined e (some a) = ok a

module _ {ℓ} {A : Type ℓ} where
  -- `some`, `every`, `filter` and `map` with a callback that may throw. The first two stop at the
  -- first element that decides.
  abbrev pub any_result : (A → Result Bool) → List A → Result Bool
  any_result p [] = ok false
  any_result p (x ∷ xs) = let rest = any_result p xs in do b ← p x; if b then ok true else rest

  abbrev pub all_result : (A → Result Bool) → List A → Result Bool
  all_result p [] = ok true
  all_result p (x ∷ xs) = let rest = all_result p xs in do b ← p x; if b then rest else ok false

  abbrev pub filter_result : (A → Result Bool) → List A → Result (List A)
  filter_result p [] = ok []
  filter_result p (x ∷ xs) = do
    b ← p x
    rest ← filter_result p xs
    ok (if b then x ∷ rest else rest)

  abbrev pub map_result {κ} : {B : Type κ} → (A → Result B) → List A → Result (List B)
  map_result f [] = ok []
  map_result f (x ∷ xs) = do y ← f x; ys ← map_result f xs; ok (y ∷ ys)

-- A chain that returns has a first part that returns.
module _ {ℓ κ} {A : Type ℓ} {B : Type κ} where
  pub >>=-eq-ok :
      (first : Result A) (next : A → Result B) {r : B}
      → (first >>= next) ≡ ok r
      → (x : A) × (first ≡ ok x) × (next x ≡ ok r)
  >>=-eq-ok (throw reason) next h = cc
  >>=-eq-ok (ok x) next h = (x, refl, h)

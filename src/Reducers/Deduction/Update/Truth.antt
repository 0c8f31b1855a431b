-- ===== src/Reducers/Deduction/Update/Truth.antt =====
-- The deductions of reducers/cardDeductionReducer.ts against what the cards really are.
use mathlib.Core.Path.{subst, sym}
use hanabi_live.Prelude.{
  ℕ, ◌≤◌, ◌≡◌, ◌⊎◌, inl, inr, Bool, true, false, ◌==◌, some, List, [], ◌∷◌, All, length, leb, arith,
  if◌then◌else◌,
}
use hanabi_live.Types.Card.{CardState, SuitRankTuple}
use hanabi_live.Reducers.Marks.{is_at}
use hanabi_live.Reducers.Deduction.Search.{Counts, filter_card_possibilities}
use hanabi_live.Reducers.Deduction.Search.Combination.{Among, copies, Within, Chosen, CanBe}
use hanabi_live.Reducers.Deduction.Search.Sound.{filter_card_possibilities-Among_iff}
use hanabi_live.Reducers.Deduction.Sources.{
  get_card_possibilities_for_player, can_be_used_to_disprove_possibility, insert_by_length,
  sort_by_length, is_possible_card, keep_possible, collect_possibilities,
  generate_deck_possibilities,
}
use hanabi_live.Reducers.Deduction.Update.{updated_card}

-- Identities for the cards, and no identity more often than `qs` has it.
abbrev ChosenFrom : List SuitRankTuple → List (List SuitRankTuple) → Type 0
ChosenFrom qs xs =
    (qs' : List SuitRankTuple) × Chosen qs' xs × ((s r : ℕ) → copies s r qs' ≤ copies s r qs)

Chosen-insert :
    (q : SuitRankTuple) (a : List SuitRankTuple) (qs : List SuitRankTuple)
    (xs : List (List SuitRankTuple))
    → Among q a
    → Chosen qs xs
    → ChosenFrom (q ∷ qs) (insert_by_length a xs)
Chosen-insert q a [] [] h k = (q ∷ [], (h, tt), λ s r. omega arith)
Chosen-insert q a (x ∷ qs) [] h k = absurd k
Chosen-insert q a [] (x ∷ xs) h k = absurd k
Chosen-insert q a (p ∷ qs) (x ∷ xs) h k =
    go (leb (length a) (length x)) (Chosen-insert q a qs xs h k.1)
  where
    go :
        (b : Bool)
        → ChosenFrom (q ∷ qs) (insert_by_length a xs)
        → ChosenFrom (q ∷ p ∷ qs) (if b then a ∷ x ∷ xs else x ∷ insert_by_length a xs)
    go true later = (q ∷ p ∷ qs, (h, k), λ s r. omega arith)
    go false (qs', chosen, fewer) = (p ∷ qs', (k.0, chosen), λ s r. ground (arith, fewer s r))

Chosen-sort :
    (qs : List SuitRankTuple) (xs : List (List SuitRankTuple))
    → Chosen qs xs
    → ChosenFrom qs (sort_by_length xs)
Chosen-sort [] [] h = ([], tt, λ s r. omega arith)
Chosen-sort [] (x ∷ xs) h = absurd h
Chosen-sort (q ∷ qs) [] h = absurd h
Chosen-sort (q ∷ qs) (x ∷ xs) h =
    let (sorted, chosen, fewer) = Chosen-sort qs xs h.1 in
    let (inserted, chosen', fewer') = Chosen-insert q x sorted (sort_by_length xs) h.0 chosen in
    (inserted, chosen', λ s r. ground (arith, fewer s r, fewer' s r))

Chosen-keep :
    (qs : List SuitRankTuple) (xs : List (List SuitRankTuple)) (counts : Counts)
    → Chosen qs xs
    → ChosenFrom qs (keep_possible xs counts)
unfolding keep_possible
Chosen-keep [] [] counts h = ([], tt, λ s r. omega arith)
Chosen-keep [] (x ∷ xs) counts h = absurd h
Chosen-keep (q ∷ qs) [] counts h = absurd h
Chosen-keep (q ∷ qs) (x ∷ xs) counts h =
    go (is_possible_card x counts).0 (Chosen-keep qs xs (is_possible_card x counts).1 h.1)
  where
    go :
        (b : Bool)
        → ChosenFrom qs (keep_possible xs (is_possible_card x counts).1)
        → ChosenFrom (q ∷ qs) (
            if b
            then x ∷ keep_possible xs (is_possible_card x counts).1
            else keep_possible xs (is_possible_card x counts).1)
    go true (qs', chosen, fewer) = (q ∷ qs', (h.0, chosen), λ s r. ground (arith, fewer s r))
    go false (qs', chosen, fewer) = (qs', chosen, λ s r. ground (arith, fewer s r))

Chosen-if :
    (b : Bool) (q : SuitRankTuple) (a : List SuitRankTuple) (qs : List SuitRankTuple)
    (xs : List (List SuitRankTuple))
    → (b ≡ false) ⊎ Among q a
    → Chosen qs xs
    → Chosen (if b then q ∷ qs else qs) (if b then a ∷ xs else xs)
Chosen-if true q a qs xs (inl e) k = absurd (cc)
Chosen-if true q a qs xs (inr h) k = (h, k)
Chosen-if false q a qs xs h k = k

Among-if :
    (b : Bool) (q : SuitRankTuple) (xs ys : List SuitRankTuple)
    → Among q xs
    → Among q ys
    → Among q (if b then xs else ys)
Among-if true q xs ys h k = h
Among-if false q xs ys h k = k

Within-fewer :
    (counts : Counts) (p : SuitRankTuple) (qs qs' : List SuitRankTuple)
    → ((s r : ℕ) → copies s r qs' ≤ copies s r qs)
    → Within counts (p ∷ qs)
    → Within counts (p ∷ qs')
Within-fewer counts (ps, pr) qs qs' fewer h s r = ground (arith, fewer s r, h s r)

Within-none : (counts : Counts) (qs : List SuitRankTuple) → Within counts qs → Within counts []
Within-none counts qs h s r = ground (arith, h s r)

module _ (truth : ℕ → SuitRankTuple) (exclude player our_player : ℕ) where
  -- What the cards really are that the player can use.
  abbrev pub used_truths : List CardState → List SuitRankTuple
  used_truths [] = []
  used_truths (card ∷ deck) =
      let rest = used_truths deck in
      if can_be_used_to_disprove_possibility (some card) exclude player
      then truth card.order ∷ rest
      else rest

  -- The possibilities of every card that the player can use hold what it really is.
  abbrev pub AreSourcesTrue : List CardState → Type 0
  AreSourcesTrue deck =
      All
        (λ card.
          (can_be_used_to_disprove_possibility (some card) exclude player ≡ false)
          ⊎ Among (truth card.order)
              (get_card_possibilities_for_player (some card) player our_player))
        deck

  Chosen-collect :
      (deck : List CardState)
      → AreSourcesTrue deck
      → Chosen (used_truths deck) (collect_possibilities exclude deck player our_player)
  unfolding collect_possibilities
  Chosen-collect [] h = tt
  Chosen-collect (card ∷ deck) h =
      Chosen-if (can_be_used_to_disprove_possibility (some card) exclude player) (truth card.order)
        (get_card_possibilities_for_player (some card) player our_player) _ _ h.0
        (Chosen-collect deck h.1)

  -- If the possibilities of the cards that the player can use hold what these cards really are, no
  -- identity is there, this card counted, more often than it has copies, and both lists of
  -- possibilities of the card hold what it really is, then they still do after the update of the
  -- card.
  pub updated_card-truth :
      (card : CardState) (deck : List CardState) (counts : Counts)
      → card.order ≡ exclude
      → AreSourcesTrue deck
      → Within counts (truth card.order ∷ used_truths deck)
      → Among (truth card.order) card.possible_cards
      → Among (truth card.order) card.possible_cards_for_empathy
      → Among (truth card.order) (updated_card card player our_player deck counts).possible_cards
        × Among
            (truth card.order)
            (updated_card card player our_player deck counts).possible_cards_for_empathy
  unfolding updated_card generate_deck_possibilities
  updated_card-truth card deck counts same sources within possible empathy =
      let (sorted, c₁, f₁) =
        Chosen-sort (used_truths deck) (collect_possibilities exclude deck player our_player)
          (Chosen-collect deck sources) in
      let (kept, c₂, f₂) =
        Chosen-keep sorted (sort_by_length (collect_possibilities exclude deck player our_player))
          counts c₁ in
      let can_be : CanBe counts (truth card.order)
          (generate_deck_possibilities card.order deck player our_player counts) =
        subst
          (λ (x : ℕ).
            CanBe counts (truth card.order)
              (generate_deck_possibilities x deck player our_player counts))
          (sym same)
          (
            kept,
            c₂,
            Within-fewer counts (truth card.order) (used_truths deck) kept
                (λ s r. ground (arith, f₁ s r, f₂ s r)) within,
          ) in
      let nonneg = Within-none counts (truth card.order ∷ used_truths deck) within in
      let keeps : (cards : List SuitRankTuple)
          → Among (truth card.order) cards
          → Among (truth card.order) (
              filter_card_possibilities cards
                (generate_deck_possibilities card.order deck player our_player counts) counts) =
        λ cards h.
          (filter_card_possibilities-Among_iff cards
              (generate_deck_possibilities card.order deck player our_player counts) counts nonneg
              (truth card.order)).1
            (h, can_be) in
      (
        Among-if (player == our_player) (truth card.order) _ _ (keeps card.possible_cards possible)
            possible,
        Among-if (is_at card.location player) (truth card.order) _ _
            (keeps card.possible_cards_for_empathy empathy) empathy,
      )

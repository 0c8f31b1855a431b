-- ===== src/Reducers/Deduction/Search/Sound.antt =====
-- What `filterCardPossibilities` of reducers/cardDeductionReducer.ts keeps.
use hanabi_live.Prelude.{
  ◌≡◌, ◌↔◌, refl, sym, ap, ◌∙◌, Bool, true, false, List, [], ◌∷◌, arith, inl, inr, Bool-cases,
  if◌then◌else◌,
}
use mathlib.Core.Path.{subst}
use hanabi_live.Types.Card.{SuitRankTuple}
use hanabi_live.Reducers.Deduction.Search.{
  Counts, SearchState, has_possibility, possibility_valid, check_possibility, filter_from,
  filter_card_possibilities,
}
use hanabi_live.Reducers.Deduction.Search.Combination.{Among, Within, CanBe, Spare, Spare-CanBe}
use hanabi_live.Reducers.Deduction.Search.Outcome.{Outcome, possibility_valid-Outcome}

Among-has_possibility :
    (ps : List SuitRankTuple) (p : SuitRankTuple) → Among p ps → has_possibility ps p ≡ true
Among-has_possibility [] p h = elim h [ ]
Among-has_possibility ((s, r) ∷ ps) (s', r') (inl e) =
    ground (arith, ap (λ (q : SuitRankTuple). q.0) e, ap (λ (q : SuitRankTuple). q.1) e)
Among-has_possibility ((s, r) ∷ ps) (s', r') (inr h) =
    ground (arith, Among-has_possibility ps (s', r') h)

module _ (cards : List SuitRankTuple) (dp : List (List SuitRankTuple)) (counts : Counts)
    (nonneg : Within counts []) where
  -- What is no longer to validate is valid.
  abbrev Validated : List SuitRankTuple → Type 0
  Validated to_validate =
      (q : SuitRankTuple)
      → has_possibility cards q ≡ true
      → has_possibility to_validate q ≡ false
      → CanBe counts q dp

  record Checked (p : SuitRankTuple) (result : Bool × SearchState) : Type 0 where
    counts_kept : result.1.counts ≡ counts
    valid : result.0 ≡ true → CanBe counts p dp
    invalid : result.0 ≡ false → ¬ CanBe counts p dp
    validated : Validated result.1.to_validate

  check_possibility-Checked :
      (p : SuitRankTuple) (s : SearchState)
      → s.counts ≡ counts
      → Validated s.to_validate
      → has_possibility cards p ≡ true
      → Checked p (check_possibility dp p s)
  unfolding check_possibility
  check_possibility-Checked p s same validated member =
      elim (Bool-cases (has_possibility s.to_validate p)) [
        | inr gone ↦ rw gone (record {
          counts_kept = same;
          valid = λ e. validated p member gone;
          invalid = λ e. absurd (cc);
          validated = validated;
        })
        | inl open_one ↦ rw open_one (
            from_search (possibility_valid p dp 0 s) (
              subst
                (λ (c : Counts).
                  Outcome (CanBe c p dp) (Spare c p dp) s (possibility_valid p dp 0 s))
                same
                (possibility_valid-Outcome dp p 0 s
                  (subst (λ (c : Counts). Within c []) (sym same) nonneg))))
      ]
    where
      from_search :
          (result : Bool × SearchState)
          → Outcome (CanBe counts p dp) (Spare counts p dp) s result
          → Checked p result
      from_search result o = record {
        counts_kept = o.counts ∙ same;
        valid = o.found;
        invalid = o.not_found;
        validated = λ q in_cards gone. elim (Bool-cases (has_possibility s.to_validate q)) [
          | inl kept ↦ Spare-CanBe counts p q dp (o.dropped q kept gone)
          | inr before ↦ validated q in_cards before
        ];
      }

  filter_from-Among_iff :
      (ps : List SuitRankTuple) (s : SearchState)
      → s.counts ≡ counts
      → Validated s.to_validate
      → ((q : SuitRankTuple) → Among q ps → has_possibility cards q ≡ true)
      → (p : SuitRankTuple) → Among p (filter_from dp ps s) ↔ Among p ps × CanBe counts p dp
  unfolding filter_from
  filter_from-Among_iff [] s same validated member p = (λ h. absurd h, λ h. h.0)
  filter_from-Among_iff (x ∷ ps) s same validated member p =
      let checked = check_possibility-Checked x s same validated (member x (inl refl)) in
      go checked (check_possibility dp x s).0 refl (
        filter_from-Among_iff ps (check_possibility dp x s).1 checked.counts_kept checked.validated
          (λ q h. member q (inr h)) p)
    where
      go :
          Checked x (check_possibility dp x s)
          → (b : Bool) → (check_possibility dp x s).0 ≡ b
          → (Among p (filter_from dp ps (check_possibility dp x s).1)
              ↔ Among p ps × CanBe counts p dp)
          → Among p (
              if b
              then x ∷ filter_from dp ps (check_possibility dp x s).1
              else filter_from dp ps (check_possibility dp x s).1)
            ↔ Among p (x ∷ ps) × CanBe counts p dp
      go checked true e later = (
        λ h. elim h [
          | inl same_p ↦ (
            inl same_p,
            subst (λ (q : SuitRankTuple). CanBe counts q dp) (sym same_p) (checked.valid e),
          )
          | inr k ↦ let (among, good) = later.0 k in (inr among, good)
        ],
        λ h. elim h.0 [ inl same_p ↦ inl same_p | inr among ↦ inr (later.1 (among, h.1)) ],
      )
      go checked false e later = (
        λ h. let (among, good) = later.0 h in (inr among, good),
        λ h. elim h.0 [
          | inl same_p ↦
              absurd
                (checked.invalid e (subst (λ (q : SuitRankTuple). CanBe counts q dp) same_p h.1))
          | inr among ↦ later.1 (among, h.1)
        ],
      )

-- If no count of copies is negative, the filter keeps exactly the possibilities `p` of the card
-- for which the other cards can have identities, each one of its own possibilities, such that no
-- identity is used more often than copies of it are left.
pub filter_card_possibilities-Among_iff :
    (cards : List SuitRankTuple) (dp : List (List SuitRankTuple)) (counts : Counts)
    → Within counts []
    → (p : SuitRankTuple)
    → Among p (filter_card_possibilities cards dp counts) ↔ Among p cards × CanBe counts p dp
unfolding filter_card_possibilities
filter_card_possibilities-Among_iff cards dp counts nonneg p =
    filter_from-Among_iff cards dp counts nonneg cards
      (record { counts = counts; to_validate = cards }) refl (λ q h k. absurd (cc))
      (λ q h. Among-has_possibility cards q h) p

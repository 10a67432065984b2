-- ===== src/Eviction/Planner/Accounting.antt =====
-- internal/eviction/planner.go: the counters of a plan, and its counts of skips by reason.
use mathlib.Core.Path.{subst}
use mathlib.Core.List.{Perm}
use scrap.Common.{
  ℕ, suc, ◌+◌, ◌≡◌, ◌≢◌, refl, ◌∙◌, inl, inr, false, Option, some, none, List, [], ◌∷◌, ◌++◌,
  if◌then◌else◌, length, length-append, arith,
}
use scrap.Common.Result.{ok}
use scrap.Eviction.{SkipReason, Counts, PlanBlock, Plan}
use scrap.Eviction.Planner.{
  PlanCandidate, PlanInput, plan_block, plan_skip_reason, number, reason_eq, increment,
  increment_some, nil_if_empty, sort_by_id, plan_candidate, plan_candidates, empty_plan,
  recommended_bounds, finish_plan, build_plan,
}
use scrap.Eviction.Planner.Loop.{
  skip_reason, IsSkipped, IsOverBounds, IsSelected, plan_candidate_cases, plan_candidate_same,
}
use scrap.Eviction.Planner.Sort.{length-sort, sort-perm}
use scrap.Eviction.Planner.Partition.{Split, nobody, plan_candidates-Split}
use scrap.Eviction.Planner.Caps.{build_plan-eq-ok}

-- The count of a reason; a reason that has no entry counts zero.
abbrev pub count_of : SkipReason → Counts → ℕ
count_of r [] = 0
count_of r ((s, n) ∷ rest) = if reason_eq s r then n else count_of r rest

abbrev pub count_of_some : SkipReason → Option Counts → ℕ
count_of_some r none = 0
count_of_some r (some counts) = count_of r counts

-- How many Blocks have the reason.
abbrev pub tally : SkipReason → List PlanBlock → ℕ
tally r [] = 0
tally r (b ∷ bs) = (if reason_eq b.reason r then 1 else 0) + tally r bs

tally-append :
    (r : SkipReason) (xs ys : List PlanBlock) → tally r (xs ++ ys) ≡ tally r xs + tally r ys
tally-append r [] ys = omega arith
tally-append r (x ∷ xs) ys = omega (arith, tally-append r xs ys)

count_of-increment :
    (r s : SkipReason) (counts : Counts)
    → count_of r (increment s counts) ≡ (if reason_eq s r then 1 else 0) + count_of r counts
unfolding increment
count_of-increment r s [] = ground arith
count_of-increment r s ((t, n) ∷ rest) = ground (arith, count_of-increment r s rest)

-- What the counters of a plan say after `n` candidates.
record IsCounted (plan : Plan) (n : ℕ) : Type 0 where
  candidates : plan.candidate_blocks ≡ n
  partition : length plan.selected + length plan.skipped ≡ n
  eligible : length plan.selected + tally SkipReason.plan_bounds plan.skipped ≡ plan.eligible_blocks
  live : plan.skip_counts_by_reason ≢ none
  counts : (r : SkipReason) → count_of_some r plan.skip_counts_by_reason ≡ tally r plan.skipped

count_of_some-increment :
    (r s : SkipReason) (counts : Option Counts)
    → counts ≢ none
    → count_of_some r (increment_some s counts)
      ≡ (if reason_eq s r then 1 else 0) + count_of_some r counts
count_of_some-increment r s none h = absurd (h refl)
count_of_some-increment r s (some counts) h = count_of-increment r s counts

increment_some-ne-none :
    (s : SkipReason) (counts : Option Counts) → counts ≢ none → increment_some s counts ≢ none
increment_some-ne-none s none h = h
increment_some-ne-none s (some counts) h = λ e. cc

-- A Block that is skipped, with its reason.
skip-counts :
    (r s : SkipReason) (counts : Option Counts) (skipped : List PlanBlock) (b : PlanBlock)
    → b.reason ≡ s
    → counts ≢ none
    → count_of_some r counts ≡ tally r skipped
    → count_of_some r (increment_some s counts) ≡ tally r (skipped ++ b ∷ [])
skip-counts r s counts skipped b e h ih =
    ground (arith, count_of_some-increment r s counts h, tally-append r skipped (b ∷ []))

plan_skip_reason-ne-bounds :
    (input : PlanInput) (plan : Plan) (c : PlanCandidate)
    → reason_eq (skip_reason input plan c) SkipReason.plan_bounds ≡ false
unfolding plan_skip_reason number
plan_skip_reason-ne-bounds input plan c = ground arith

module _ (input : PlanInput) (plan : Plan) (c : PlanCandidate) (n : ℕ)
    (counted : IsCounted plan n) where
  IsSkipped-IsCounted : IsSkipped input plan c → IsCounted (plan_candidate input plan c) (suc n)
  IsSkipped-IsCounted s =
      let b = record (plan_block c input.config) { reason = skip_reason input plan c } in
      record {
        candidates =
            omega (arith, (plan_candidate_same input plan c).candidate_blocks, counted.candidates);
        partition =
            rw (s.selected, s.skipped)
              (omega (arith, length-append plan.skipped (b ∷ []), counted.partition));
        eligible =
            rw (s.selected, s.skipped, s.eligible_blocks)
              (ground (
                arith,
                tally-append SkipReason.plan_bounds plan.skipped (b ∷ []),
                plan_skip_reason-ne-bounds input plan c,
                counted.eligible,
              ));
        live = rw s.counts (increment_some-ne-none _ _ counted.live);
        counts = λ r.
            rw (s.counts, s.skipped)
              (skip-counts r _ plan.skip_counts_by_reason plan.skipped b refl counted.live
                (counted.counts r));
      }

  IsOverBounds-IsCounted :
      IsOverBounds input plan c → IsCounted (plan_candidate input plan c) (suc n)
  unfolding number
  IsOverBounds-IsCounted s =
      let b = record (plan_block c input.config) { reason = SkipReason.plan_bounds } in
      record {
        candidates =
            omega (arith, (plan_candidate_same input plan c).candidate_blocks, counted.candidates);
        partition =
            rw (s.selected, s.skipped)
              (omega (arith, length-append plan.skipped (b ∷ []), counted.partition));
        eligible =
            rw (s.selected, s.skipped, s.eligible_blocks)
              (omega (
                arith,
                tally-append SkipReason.plan_bounds plan.skipped (b ∷ []),
                counted.eligible,
              ));
        live = rw s.counts (increment_some-ne-none _ _ counted.live);
        counts = λ r.
            rw (s.counts, s.skipped)
              (skip-counts r _ plan.skip_counts_by_reason plan.skipped b refl counted.live
                (counted.counts r));
      }

  IsSelected-IsCounted : IsSelected input plan c → IsCounted (plan_candidate input plan c) (suc n)
  IsSelected-IsCounted s =
      let b = plan_block c input.config in
      record {
        candidates =
            omega (arith, (plan_candidate_same input plan c).candidate_blocks, counted.candidates);
        partition =
            rw (s.selected, s.skipped)
              (omega (arith, length-append plan.selected (b ∷ []), counted.partition));
        eligible =
            rw (s.selected, s.skipped, s.eligible_blocks)
              (omega (arith, length-append plan.selected (b ∷ []), counted.eligible));
        live = rw s.counts counted.live;
        counts = λ r. rw (s.counts, s.skipped) (counted.counts r);
      }

  plan_candidate-IsCounted : IsCounted (plan_candidate input plan c) (suc n)
  plan_candidate-IsCounted = elim (plan_candidate_cases input plan c) [
    | inl s ↦ IsSkipped-IsCounted s
    | inr (inl s) ↦ IsOverBounds-IsCounted s
    | inr (inr s) ↦ IsSelected-IsCounted s
  ]

plan_candidates-IsCounted :
    (input : PlanInput) (cs : List PlanCandidate) (plan : Plan) (n : ℕ)
    → IsCounted plan n
    → IsCounted (plan_candidates input plan cs) (n + length cs)
unfolding plan_candidates
plan_candidates-IsCounted input [] plan n counted =
    rw (let e : n + 0 ≡ n = omega arith in e) counted
plan_candidates-IsCounted input (c ∷ cs) plan n counted =
    rw (let e : n + suc (length cs) ≡ suc n + length cs = omega arith in e) (
      plan_candidates-IsCounted input cs (plan_candidate input plan c) (suc n)
        (plan_candidate-IsCounted input plan c n counted))

-- What the counters of a finished plan say.
pub record IsAccounted (input : PlanInput) (plan : Plan) : Type 0 where
  pub order : List PlanCandidate
  pub permuted : Perm order input.candidates
  pub split : Split order plan.selected plan.skipped
  pub candidates : plan.candidate_blocks ≡ length input.candidates
  pub partition : length plan.selected + length plan.skipped ≡ length input.candidates
  pub eligible :
      length plan.selected + tally SkipReason.plan_bounds plan.skipped ≡ plan.eligible_blocks
  pub counts : (r : SkipReason) → count_of_some r plan.skip_counts_by_reason ≡ tally r plan.skipped

count_of_some-nil_if_empty :
    (r : SkipReason) (counts : Option Counts)
    → count_of_some r (nil_if_empty counts) ≡ count_of_some r counts
count_of_some-nil_if_empty r none = refl
count_of_some-nil_if_empty r (some []) = refl
count_of_some-nil_if_empty r (some (c ∷ cs)) = refl

-- In a built plan the candidates, in some order, are each the next Block that is selected or the
-- next that is skipped, which has a reason; their number is counted, the eligible Blocks are the
-- selected ones and those skipped for the bounds, and the map of counts gives every reason the
-- number of skipped Blocks that have it.
pub build_plan-IsAccounted :
    (input : PlanInput) (plan : Plan) → build_plan input ≡ ok plan → IsAccounted input plan
unfolding finish_plan empty_plan
build_plan-IsAccounted input plan e =
    let (bounds, _, _, built) = build_plan-eq-ok input plan e in
    let counted =
      plan_candidates-IsCounted input (sort_by_id input.candidates)
        (empty_plan input (recommended_bounds input.config) bounds.0 bounds.1) 0
        (record {
          candidates = refl;
          partition = refl;
          eligible = refl;
          live = λ e. cc;
          counts = λ r. refl;
        }) in
    subst (IsAccounted input) built (record {
      order = sort_by_id input.candidates;
      permuted = sort-perm input.candidates;
      split =
          plan_candidates-Split input (sort_by_id input.candidates)
            (empty_plan input (recommended_bounds input.config) bounds.0 bounds.1) [] nobody;
      candidates = omega (arith, counted.candidates, length-sort input.candidates);
      partition = omega (arith, counted.partition, length-sort input.candidates);
      eligible = counted.eligible;
      counts = λ r. count_of_some-nil_if_empty r _ ∙ counted.counts r;
    })

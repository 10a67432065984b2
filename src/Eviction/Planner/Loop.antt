-- ===== src/Eviction/Planner/Loop.antt =====
-- What one round of the loop of `BuildPlan` does, for the proofs about the whole loop.
use scrap.Common.{◌+◌, ◌≡◌, ◌⊎◌, inl, inr, true, false, [], ◌∷◌, ◌++◌, Bool-cases, arith}
use scrap.Common.Int.{add64}
use scrap.Eviction.{SkipReason, PlanBlock, Plan}
use scrap.Eviction.Planner.{
  PlanCandidate, PlanInput, plan_block, plan_skip_reason, is_unset, increment_some, exceeds_bounds,
  plan_candidate,
}

module _ (input : PlanInput) (plan : Plan) (c : PlanCandidate) where
  abbrev pub next : Plan
  next = plan_candidate input plan c

  abbrev pub block : PlanBlock
  block = plan_block c input.config

  abbrev pub skip_reason : SkipReason
  skip_reason =
      plan_skip_reason c input.request input.is_leader plan.generated_at_us block.eligible_at_us

  -- The candidate is skipped for a reason of its own.
  pub record IsSkipped : Type 0 where
    pub reason : is_unset skip_reason ≡ false
    pub skipped : next.skipped ≡ plan.skipped ++ record block { reason = skip_reason } ∷ []
    pub counts : next.skip_counts_by_reason ≡ increment_some skip_reason plan.skip_counts_by_reason
    pub selected : next.selected ≡ plan.selected
    pub selected_bytes : next.selected_bytes ≡ plan.selected_bytes
    pub eligible_blocks : next.eligible_blocks ≡ plan.eligible_blocks

  -- It is eligible, and the plan has no room.
  pub record IsOverBounds : Type 0 where
    pub reason : is_unset skip_reason ≡ true
    pub over : exceeds_bounds plan block plan.effective_bounds ≡ true
    pub skipped :
        next.skipped ≡ plan.skipped ++ record block { reason = SkipReason.plan_bounds } ∷ []
    pub counts :
        next.skip_counts_by_reason
        ≡ increment_some SkipReason.plan_bounds plan.skip_counts_by_reason
    pub selected : next.selected ≡ plan.selected
    pub selected_bytes : next.selected_bytes ≡ plan.selected_bytes
    pub eligible_blocks : next.eligible_blocks ≡ plan.eligible_blocks + 1

  pub record IsSelected : Type 0 where
    pub reason : is_unset skip_reason ≡ true
    pub room : exceeds_bounds plan block plan.effective_bounds ≡ false
    pub skipped : next.skipped ≡ plan.skipped
    pub counts : next.skip_counts_by_reason ≡ plan.skip_counts_by_reason
    pub selected : next.selected ≡ plan.selected ++ block ∷ []
    pub selected_bytes : next.selected_bytes ≡ add64 plan.selected_bytes block.size_bytes
    pub eligible_blocks : next.eligible_blocks ≡ plan.eligible_blocks + 1

  IsSkipped_of : is_unset skip_reason ≡ false → IsSkipped
  unfolding plan_candidate
  IsSkipped_of h = ground arith

  IsOverBounds_of :
      is_unset skip_reason ≡ true
      → exceeds_bounds plan block plan.effective_bounds ≡ true
      → IsOverBounds
  unfolding plan_candidate exceeds_bounds
  IsOverBounds_of h over = ground arith

  IsSelected_of :
      is_unset skip_reason ≡ true
      → exceeds_bounds plan block plan.effective_bounds ≡ false
      → IsSelected
  unfolding plan_candidate exceeds_bounds
  IsSelected_of h room = ground arith

  -- The three ways of a round.
  pub plan_candidate_cases : IsSkipped ⊎ IsOverBounds ⊎ IsSelected
  plan_candidate_cases = elim (Bool-cases (is_unset skip_reason)) [
    | inl h ↦ elim (Bool-cases (exceeds_bounds plan block plan.effective_bounds)) [
      | inl over ↦ inr (inl (IsOverBounds_of h over))
      | inr room ↦ inr (inr (IsSelected_of h room))
    ]
    | inr h ↦ inl (IsSkipped_of h)
  ]

  -- What no round changes.
  pub record IsSamePlan : Type 0 where
    pub generated_at_us : next.generated_at_us ≡ plan.generated_at_us
    pub effective_bounds : next.effective_bounds ≡ plan.effective_bounds
    pub candidate_blocks : next.candidate_blocks ≡ plan.candidate_blocks + 1

  pub plan_candidate_same : IsSamePlan
  unfolding plan_candidate
  plan_candidate_same = ground arith

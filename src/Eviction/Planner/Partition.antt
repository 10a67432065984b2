-- ===== src/Eviction/Planner/Partition.antt =====
-- internal/eviction/planner.go: what the loop does with each candidate.
use mathlib.Core.Path.{subst}
use scrap.Common.{◌≡◌, ◌≢◌, refl, ap, inl, inr, List, [], ◌∷◌, ◌++◌, append-nil, append_assoc}
use scrap.Eviction.{SkipReason, PlanBlock, Plan}
use scrap.Eviction.Planner.{
  PlanCandidate, PlanConfig, PlanInput, plan_block, is_unset, plan_candidate, plan_candidates,
}
use scrap.Eviction.Planner.Loop.{skip_reason, plan_candidate_cases}

-- The Block of a plan for a candidate.
pub record IsBlockOf (c : PlanCandidate) (b : PlanBlock) : Type 0 where
  pub block_id : b.block_id ≡ c.block_id
  pub shard_id : b.shard_id ≡ c.shard_id
  pub size_bytes : b.size_bytes ≡ c.size_bytes
  pub backend_key : b.backend_key ≡ c.backend_key
  pub confirmed_at_us : b.confirmed_at_us ≡ c.confirmed_at_us
  pub restored_at_us : b.restored_at_us ≡ c.restored_at_us
  pub local_state : b.local_state ≡ c.local_state
  pub open_readers : b.open_readers ≡ c.open_readers

pub plan_block-IsBlockOf :
    (c : PlanCandidate) (config : PlanConfig) (reason : SkipReason)
    → IsBlockOf c (record (plan_block c config) { reason = reason })
unfolding plan_block
plan_block-IsBlockOf c config reason = record {
  block_id = refl;
  shard_id = refl;
  size_bytes = refl;
  backend_key = refl;
  confirmed_at_us = refl;
  restored_at_us = refl;
  local_state = refl;
  open_readers = refl;
}

-- Candidates in an order, each as the next Block that is selected or the next that is skipped.
pub data Split : List PlanCandidate → List PlanBlock → List PlanBlock → Type 0 where
  nobody : Split [] [] []
  one_selected :
      (cs : List PlanCandidate) (selected skipped : List PlanBlock) (c : PlanCandidate)
      (b : PlanBlock)
      → IsBlockOf c b
      → b.reason ≡ SkipReason.unset
      → Split cs selected skipped
      → Split (cs ++ c ∷ []) (selected ++ b ∷ []) skipped
  one_skipped :
      (cs : List PlanCandidate) (selected skipped : List PlanBlock) (c : PlanCandidate)
      (b : PlanBlock)
      → IsBlockOf c b
      → b.reason ≢ SkipReason.unset
      → Split cs selected skipped
      → Split (cs ++ c ∷ []) selected (skipped ++ b ∷ [])

plan_candidate-Split :
    (input : PlanInput) (plan : Plan) (c : PlanCandidate) (before : List PlanCandidate)
    → Split before plan.selected plan.skipped
    → let next = plan_candidate input plan c in Split (before ++ c ∷ []) next.selected next.skipped
unfolding plan_block
plan_candidate-Split input plan c before split = elim (plan_candidate_cases input plan c) [
  | inl s ↦
      rw (s.selected, s.skipped)
        (one_skipped before plan.selected plan.skipped c _
          (plan_block-IsBlockOf c input.config (skip_reason input plan c))
          (λ same. let reason = s.reason in let is = ap is_unset same in cc) split)
  | inr (inl s) ↦
      rw (s.selected, s.skipped)
        (one_skipped before plan.selected plan.skipped c _
          (plan_block-IsBlockOf c input.config SkipReason.plan_bounds) (λ same. cc) split)
  | inr (inr s) ↦
      rw (s.selected, s.skipped)
        (one_selected before plan.selected plan.skipped c _
          (plan_block-IsBlockOf c input.config SkipReason.unset) refl split)
]

pub plan_candidates-Split :
    (input : PlanInput) (cs : List PlanCandidate) (plan : Plan) (before : List PlanCandidate)
    → Split before plan.selected plan.skipped
    → let last = plan_candidates input plan cs in Split (before ++ cs) last.selected last.skipped
unfolding plan_candidates
plan_candidates-Split input [] plan before split = rw (append-nil before) split
plan_candidates-Split input (c ∷ cs) plan before split =
    subst
      (λ order.
        let last = plan_candidates input (plan_candidate input plan c) cs in
        Split order last.selected last.skipped)
      (append_assoc before (c ∷ []) cs)
      (plan_candidates-Split input cs (plan_candidate input plan c) (before ++ c ∷ [])
        (plan_candidate-Split input plan c before split))

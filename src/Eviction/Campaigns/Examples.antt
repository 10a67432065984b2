-- ===== src/Eviction/Campaigns/Examples.antt =====
-- The campaign loop and the campaigns at concrete inputs.
use scrap.Common.{
  ℕ, ◌+◌, ◌≤◌, ◌≡◌, ◌≢◌, ◌↔◌, refl, none, some, Option, [], ◌∷◌, String, true, false, length, arith,
  ltb, if◌then◌else◌,
}
use scrap.Common.Int.{pos, floor_div, wrap64}
use scrap.Common.Result.{ok}
use scrap.Common.Assoc.{lookup}
use scrap.Eviction.{
  SkipReason, ApplyStatus, ApplyBlockStatus, Member, Bounds, PlanBlock, Plan, ApplyBlock,
  ApplyResult,
}
use scrap.Eviction.Planner.{unix_micro}
use scrap.Eviction.Apply.{start_result, apply_loop, apply_blocks}
use scrap.Eviction.Apply.Counting.{
  IsTallied, apply_all, apply_blocks_outcome, with_failure, apply_loop_cancelled,
}
use scrap.Eviction.Campaigns.{
  Campaigns, store, start, finish, ask, run, started, valid_found, valid_plan, begin_valid,
  begin_apply, should_cache_apply_result, finish_apply, new_campaigns,
}
use scrap.Eviction.Campaigns.Invariant.{IsCoherent, run-IsCoherent}
use scrap.Eviction.Campaigns.Exclusion.{IsGranted, begin_apply-IsGranted, begin_apply_exclusive}
use scrap.Eviction.Campaigns.Settled.{begin_apply_once}

abbrev block : ℕ → PlanBlock
block id = record {
  block_id = id;
  shard_id = 1;
  size_bytes = pos 10;
  backend_key = "key";
  confirmed_at_us = pos 0;
  restored_at_us = pos 0;
  eligible_at_us = pos 0;
  hot_residency_window_seconds = pos 0;
  local_state = "hot";
  open_readers = pos 0;
  repair_state = "idle";
  reason = SkipReason.unset;
}

abbrev no_bounds : Bounds
no_bounds = record { max_blocks = pos 9; max_bytes = pos 900 }

abbrev plan : Plan
plan = record {
  plan_id = "p";
  generated_at_us = pos 1;
  expires_at_us = pos 100;
  member_hostname = "node-1";
  member_id = "1";
  shard_id = none;
  reason = "evidence_run";
  note = "";
  config = record {
    enabled = true;
    hot_residency_window_seconds = pos 0;
    plan_ttl_seconds = pos 60;
    recommended_max_blocks = pos 9;
    recommended_max_bytes = pos 900;
    max_validate_samples = pos 0;
  };
  recommended_bounds = no_bounds;
  requested_bounds = no_bounds;
  effective_bounds = no_bounds;
  selected = block 1 ∷ block 2 ∷ block 3 ∷ [];
  skipped = [];
  skip_counts_by_reason = none;
  candidate_blocks = 3;
  candidate_bytes = pos 30;
  eligible_blocks = 3;
  eligible_bytes = pos 30;
  selected_bytes = pos 30;
}

-- The callback evicts, and counts its calls.
abbrev evict : ℕ → PlanBlock → ApplyBlock × ℕ
evict calls selected = (
  record {
    block_id = selected.block_id;
    shard_id = selected.shard_id;
    size_bytes = selected.size_bytes;
    status = ApplyBlockStatus.evicted;
    reason = "";
    error = "";
    bytes_freed = selected.size_bytes;
  },
  calls + 1,
)

-- A context that is done from the second round on.
abbrev done_from_one : ℕ → Option String
done_from_one round = if ltb 0 round then some "canceled" else none

apply_blocks_outcome_example :
    let (result, cacheable, _) = apply_blocks done_from_one evict none plan (pos 5) 0 in
    IsTallied result
    × (length result.blocks ≤ 3)
    × (cacheable ≡ true → length result.blocks ≡ 3)
    × ((cacheable ≡ true) ↔ (result.status ≢ ApplyStatus.failed))
apply_blocks_outcome_example = apply_blocks_outcome done_from_one evict none plan (pos 5) 0

apply_loop_cancelled_example :
    apply_loop done_from_one evict none 0 plan.selected (start_result plan (pos 5)) 0 ≡ (
      let (result, calls) = apply_all evict none (block 1 ∷ []) (start_result plan (pos 5)) 0 in
      (with_failure (block 2) "canceled" result, false, calls))
apply_loop_cancelled_example =
    apply_loop_cancelled done_from_one evict none "canceled" (block 1 ∷ []) (block 2) (block 3 ∷ [])
      0 (start_result plan (pos 5)) 0 (λ i h. ground arith) refl

abbrev member : Member
member = record { hostname = "node-1"; id = "1" }

abbrev stored : Campaigns
stored = record { plans = ("p", plan) ∷ []; apply_results = []; apply_running = [] }

granted : (begin_apply "p" member (pos 5000) stored).0 ≡ ok (started plan)
unfolding begin_apply begin_valid valid_plan valid_found lookup unix_micro floor_div wrap64
granted = refl

begin_apply-IsGranted_example :
    IsGranted "p" member (pos 5000) stored plan (begin_apply "p" member (pos 5000) stored).1
begin_apply-IsGranted_example = begin_apply-IsGranted "p" member (pos 5000) stored plan granted

begin_apply_exclusive_example :
    (begin_apply "p" member (pos 7000) (
      run
        (begin_apply "p" member (pos 5000) stored).1
        (ask "p" member (pos 6000) ∷ store plan ∷ []))).0
    ≢ ok (started plan)
begin_apply_exclusive_example =
    begin_apply_exclusive "p" stored member (pos 5000) plan
      (ask "p" member (pos 6000) ∷ store plan ∷ []) member (pos 7000) plan granted (omega arith)

abbrev completed : ApplyResult
completed = record {
  plan_id = "p";
  status = ApplyStatus.completed;
  started_at_us = pos 5;
  completed_at_us = pos 6;
  member_hostname = "node-1";
  member_id = "1";
  selected_blocks = 3;
  evicted_blocks = 3;
  skipped_blocks = 0;
  failed_blocks = 0;
  validated_blocks = 0;
  validation_failed_blocks = 0;
  bytes_freed = pos 30;
  blocks = [];
  validations = [];
}

begin_apply_once_example :
    (begin_apply "p" member (pos 7000) (
      run
        (finish_apply "p" completed true (begin_apply "p" member (pos 5000) stored).1)
        (ask "p" member (pos 6000) ∷ []))).0
    ≢ ok (started plan)
begin_apply_once_example =
    begin_apply_once "p" (begin_apply "p" member (pos 5000) stored).1 completed
      (ask "p" member (pos 6000) ∷ []) member (pos 7000) plan
      (unfold should_cache_apply_result in refl) (tt, tt)

run-IsCoherent_example :
    IsCoherent (
      run new_campaigns (store plan ∷ start "p" member (pos 5000) ∷ finish "p" completed true ∷ []))
run-IsCoherent_example =
    run-IsCoherent (store plan ∷ start "p" member (pos 5000) ∷ finish "p" completed true ∷ [])

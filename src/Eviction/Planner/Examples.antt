-- ===== src/Eviction/Planner/Examples.antt =====
-- The planner at a concrete input.
use scrap.Common.{ℕ, ◌≡◌, refl, map, none, some, [], ◌∷◌, String, All, true, false, arith}
use scrap.Common.Int.{pos, floor_div, wrap64, quot_ℕ, add64, ◌+ℤ◌}
use scrap.Common.Result.{ok}
use scrap.Eviction.{SkipReason, no_durable_copy, Member, PlanBlock, Plan}
use scrap.Eviction.Planner.{
  PlanConfig, PlanCandidate, PlanInput, unix_micro, microseconds, validate_plan_identity,
  validate_plan_request, validate_plan_config, validate_plan_input, plan_cap, plan_bounds,
  eligible_at, plan_block, number, plan_skip_reason, increment, insert_by_id, sort_by_id,
  exceeds_bounds, plan_candidate, plan_candidates, empty_plan, finish_plan, build_plan,
}
use scrap.Eviction.Planner.Caps.{IsWithinCaps, build_plan-IsWithinCaps}
use scrap.Eviction.Planner.Safety.{IsDated, IsEvictable, build_plan-IsEvictable}
use scrap.Eviction.Planner.Accounting.{IsAccounted, build_plan-IsAccounted}

abbrev member : Member
member = record { hostname = "node-1"; id = "1" }

abbrev config : PlanConfig
config = record {
  enabled = true;
  hot_residency_window = pos 1000000;
  plan_ttl = pos 60000000000;
  recommended_max_blocks = pos 2;
  recommended_max_bytes = pos 250;
  max_validate_samples = pos 0;
}

abbrev candidate : ℕ → ℕ → String → PlanCandidate
candidate id size key = record {
  block_id = id;
  shard_id = 1;
  size_bytes = pos size;
  backend_key = key;
  confirmed_at_us = pos 0;
  restored_at_us = pos 0;
  local_state = "hot";
  local_evictable = true;
  open_readers = pos 0;
  repair_state = "";
}

abbrev input : PlanInput
input = record {
  request = record {
    member_hostname = "node-1";
    shard_id = none;
    max_blocks = none;
    max_bytes = some (pos 200);
    reason = "";
    note = "";
  };
  config = config;
  member = member;
  now = pos 5000000;
  plan_id = "plan";
  is_leader = false;
  candidates =
      candidate 3 50 "c" ∷ candidate 2 90 "" ∷ candidate 1 120 "a" ∷ candidate 4 100 "d" ∷ [];
}

abbrev plan : Plan
plan = finish_plan input (
  record { max_blocks = pos 0; max_bytes = pos 200 },
  record { max_blocks = pos 2; max_bytes = pos 200 },
)

built : build_plan input ≡ ok plan
unfolding build_plan validate_plan_input validate_plan_identity validate_plan_request
    validate_plan_config plan_bounds plan_cap
built = refl

-- Block 2 has no copy, and Block 4 finds the plan full.
selects : map (λ (b : PlanBlock). b.block_id) plan.selected ≡ 1 ∷ 3 ∷ []
unfolding finish_plan empty_plan plan_candidates plan_candidate exceeds_bounds sort_by_id
    insert_by_id plan_skip_reason plan_block eligible_at microseconds quot_ℕ unix_micro floor_div
    wrap64 add64
selects = refl

skips : plan.skip_counts_by_reason ≡ some ((no_durable_copy, 1) ∷ (SkipReason.plan_bounds, 1) ∷ [])
unfolding finish_plan empty_plan plan_candidates plan_candidate exceeds_bounds sort_by_id
    insert_by_id plan_skip_reason plan_block eligible_at microseconds quot_ℕ unix_micro floor_div
    wrap64 add64 increment number
skips = refl

build_plan-IsWithinCaps_example : IsWithinCaps input plan
build_plan-IsWithinCaps_example = build_plan-IsWithinCaps input plan (omega arith) built

dated :
    (c : PlanCandidate) → c.confirmed_at_us ≡ pos 0 → c.restored_at_us ≡ pos 0 → IsDated config c
unfolding ◌+ℤ◌ quot_ℕ
dated c confirmed restored = record {
  confirmed = rw confirmed (omega arith, omega arith);
  restored = rw restored (omega arith, omega arith);
}

build_plan-IsEvictable_example : All (IsEvictable input) plan.selected
build_plan-IsEvictable_example =
    build_plan-IsEvictable input plan
      (
        dated (candidate 3 50 "c") refl refl,
        (
          dated (candidate 2 90 "") refl refl,
          (dated (candidate 1 120 "a") refl refl, (dated (candidate 4 100 "d") refl refl, tt)),
        ),
      )
      built

build_plan-IsAccounted_example : IsAccounted input plan
build_plan-IsAccounted_example = build_plan-IsAccounted input plan built

-- ===== src/Eviction/Apply.antt =====
-- internal/eviction/apply.go: the campaign loop over the selected Blocks of a plan. The callback,
-- the observer and the context are parameters: the first two act on a state of the caller's, and
-- the context says at each round whether it is done, and with which text.
pub mod Counting
use scrap.Common.{
  ℕ, zero, suc, ◌+◌, String, Bool, true, false, ◌&&◌, Option, none, some, List, [], ◌∷◌, ◌++◌, ltb,
  ◌==◌, str_eq, not, if◌then◌else◌, length,
}
use mathlib.Core.Option.{get_or}
use scrap.Common.Assoc.{lookup, insert}
use scrap.Common.Int.{ℤ, pos, add64}
use scrap.Eviction.{
  SkipReason, ApplyStatus, ApplyBlockStatus, Plan, PlanBlock, ApplyBlock, ApplyResult,
}
use scrap.Eviction.Planner.{unix_micro}

unfoldable pub skipped_block : PlanBlock → String → ApplyBlock
skipped_block selected reason = record {
  block_id = selected.block_id;
  shard_id = selected.shard_id;
  size_bytes = selected.size_bytes;
  status = ApplyBlockStatus.skipped;
  reason = reason;
  error = "";
  bytes_freed = pos 0;
}

unfoldable pub failed_block : PlanBlock → String → ApplyBlock
failed_block selected error = record {
  block_id = selected.block_id;
  shard_id = selected.shard_id;
  size_bytes = selected.size_bytes;
  status = ApplyBlockStatus.failed;
  reason = "";
  error = error;
  bytes_freed = pos 0;
}

count_status : ApplyBlockStatus → ApplyResult → ApplyBlock → ApplyResult
count_status ApplyBlockStatus.evicted result block = record result {
  evicted_blocks = result.evicted_blocks + 1;
  bytes_freed = add64 result.bytes_freed block.bytes_freed;
}
count_status ApplyBlockStatus.skipped result block = record result {
  skipped_blocks = result.skipped_blocks + 1;
}
count_status ApplyBlockStatus.failed result block = record result {
  failed_blocks = result.failed_blocks + 1;
  bytes_freed = add64 result.bytes_freed block.bytes_freed;
}
count_status ApplyBlockStatus.unknown result block = result

pub count_apply_block : ApplyResult → ApplyBlock → ApplyResult
unfolding count_status
count_apply_block result block = count_status block.status result block

pub apply_status : ApplyResult → ApplyStatus
apply_status result =
    if ltb 0 result.failed_blocks
    then ApplyStatus.failed
    else if result.evicted_blocks == 0
    then ApplyStatus.no_effect
    else if ltb 0 result.skipped_blocks
    then ApplyStatus.completed_with_skips
    else ApplyStatus.completed

-- `result.Blocks = append(result.Blocks, block)`
abbrev pub add_result : ApplyResult → ApplyBlock → ApplyResult
add_result result block = record result { blocks = result.blocks ++ block ∷ [] }

-- The result before the loop.
pub start_result : Plan → ℤ → ApplyResult
start_result plan now = record {
  plan_id = plan.plan_id;
  status = ApplyStatus.no_effect;
  started_at_us = unix_micro now;
  completed_at_us = pos 0;
  member_hostname = plan.member_hostname;
  member_id = plan.member_id;
  selected_blocks = length plan.selected;
  evicted_blocks = 0;
  skipped_blocks = 0;
  failed_blocks = 0;
  validated_blocks = 0;
  validation_failed_blocks = 0;
  bytes_freed = pos 0;
  blocks = [];
  validations = [];
}

-- The round at which the context is done ends the loop.
pub cancel : PlanBlock → ApplyResult → String → ApplyResult
cancel selected result error =
    let failed = add_result result (failed_block selected error) in
    record failed { failed_blocks = failed.failed_blocks + 1 }

abbrev observed : {S : Type 0} → Option (S → ApplyBlock → S) → S → ApplyBlock → S
observed none s block = s
observed (some f) s block = f s block

module _ {S : Type 0} (apply : S → PlanBlock → ApplyBlock × S)
    (observe : Option (S → ApplyBlock → S)) where
  -- One Block: the callback, the observer, and the counters.
  pub apply_one : PlanBlock → ApplyResult → S → ApplyResult × S
  apply_one selected result s =
      let (block, s') = apply s selected in
      (count_apply_block (add_result result block) block, observed observe s' block)

module _ {S : Type 0} (ctx_err : ℕ → Option String) (apply : S → PlanBlock → ApplyBlock × S)
    (observe : Option (S → ApplyBlock → S)) where
  -- The rounds from the given one on: the result, whether it may be cached, and the state.
  pub apply_loop : ℕ → List PlanBlock → ApplyResult → S → ApplyResult × Bool × S
  apply_loop round [] result s = (result, true, s)
  apply_loop round (selected ∷ rest) result s = elim (ctx_err round) [
    | some error ↦ (cancel selected result error, false, s)
    | none ↦
        let (result', s') = apply_one apply observe selected result s in
        apply_loop (round + 1) rest result' s'
  ]

  pub apply_blocks : Plan → ℤ → S → ApplyResult × Bool × S
  unfolding apply_loop
  apply_blocks plan now s =
      let (result, cacheable, s') = apply_loop 0 plan.selected (start_result plan now) s in
      (
        record result { status = apply_status result },
        if ltb 0 result.failed_blocks then false else cacheable,
        s',
      )

abbrev pub is_evicted : ApplyBlockStatus → Bool
is_evicted ApplyBlockStatus.evicted = true
is_evicted _ = false

abbrev pub is_skipped : ApplyBlockStatus → Bool
is_skipped ApplyBlockStatus.skipped = true
is_skipped _ = false

abbrev pub is_failed : ApplyBlockStatus → Bool
is_failed ApplyBlockStatus.failed = true
is_failed _ = false

-- `counts[reason]++`
pub bump : String → List (String × ℕ) → List (String × ℕ)
bump reason counts = insert reason (get_or (lookup reason counts) 0 + 1) counts

pub skip_counts : List ApplyBlock → List (String × ℕ) → List (String × ℕ)
skip_counts [] counts = counts
skip_counts (block ∷ rest) counts = skip_counts rest (
    if is_skipped block.status && not (str_eq block.reason "")
    then bump block.reason counts
    else counts)

abbrev nil_if_empty : List (String × ℕ) → Option (List (String × ℕ))
nil_if_empty [] = none
nil_if_empty (c ∷ cs) = some (c ∷ cs)

-- `none` is the nil map.
pub apply_skip_counts_by_reason : ApplyResult → Option (List (String × ℕ))
unfolding skip_counts bump
apply_skip_counts_by_reason result =
    if result.skipped_blocks == 0 then none else nil_if_empty (skip_counts result.blocks [])

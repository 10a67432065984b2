-- ===== src/Eviction/Planner.antt =====
-- internal/eviction/planner.go: which Blocks a campaign may evict. A `time.Time` is its
-- nanoseconds since the Unix epoch, and a `time.Duration` its nanoseconds, as a ℤ.
mod Examples
pub mod Loop
pub mod Caps
pub mod Safety
pub mod Partition
pub mod Accounting
pub mod Sort
use scrap.Common.{
  ℕ, zero, suc, ◌+◌, String, Bool, true, false, not, ◌&&◌, ◌||◌, Option, none, some, List, [], ◌∷◌,
  ◌++◌, ltb, leb, ◌==◌, str_eq, if◌then◌else◌, length,
}
use scrap.Common.Int.{ℤ, pos, ◌+ℤ◌, ltb_ℤ, leb_ℤ, quot_ℕ, floor_div, wrap64, add64}
use scrap.Common.Result.{Result, ok, err, ◌>>=◌, ◌>>◌, fail_if}
use scrap.Eviction.{
  reason_evidence_run, SkipReason, hot_residency_window, leader_hot_copy_required,
  local_state_not_hot, no_durable_copy, skip_plan_expired, shard_filter, repair_state_idle, Error,
  invalid_plan_request, target_member_mismatch, plan_cap_exceeds_ceiling, Member, Bounds,
  ConfigSnapshot, PlanRequest, PlanBlock, Counts, Plan,
}

pub record PlanConfig : Type 0 where
  pub enabled : Bool
  pub hot_residency_window : ℤ
  pub plan_ttl : ℤ
  pub recommended_max_blocks : ℤ
  pub recommended_max_bytes : ℤ
  pub max_validate_samples : ℤ

pub record PlanCandidate : Type 0 where
  pub block_id : ℕ
  pub shard_id : ℕ
  pub size_bytes : ℤ
  pub backend_key : String
  pub confirmed_at_us : ℤ
  pub restored_at_us : ℤ
  pub local_state : String
  pub local_evictable : Bool
  pub open_readers : ℤ
  pub repair_state : String

pub record PlanInput : Type 0 where
  pub request : PlanRequest
  pub config : PlanConfig
  pub member : Member
  pub now : ℤ
  pub plan_id : String
  pub is_leader : Bool
  pub candidates : List PlanCandidate

-- `time.Time.UnixMicro`.
unfoldable pub unix_micro : ℤ → ℤ
unfolding floor_div wrap64
unix_micro t = wrap64 (floor_div t 1000)

-- `time.Duration.Microseconds`, and `d / time.Second`.
unfoldable pub microseconds : ℤ → ℤ
unfolding quot_ℕ
microseconds d = quot_ℕ d 1000

seconds : ℤ → ℤ
unfolding quot_ℕ
seconds d = quot_ℕ d 1000000000

validate_plan_identity : PlanInput → Result Error (Unit {0})
validate_plan_identity input = do
  fail_if (str_eq input.plan_id "") invalid_plan_request
  fail_if (str_eq input.member.hostname "") invalid_plan_request
  fail_if (str_eq input.member.id "") invalid_plan_request
  fail_if (str_eq input.request.member_hostname "") invalid_plan_request
  fail_if (not (str_eq input.request.member_hostname input.member.hostname)) target_member_mismatch

validate_plan_request : PlanInput → Result Error (Unit {0})
validate_plan_request input =
    fail_if
      (not (str_eq input.request.reason "")
        && not (str_eq input.request.reason reason_evidence_run))
      invalid_plan_request

pub validate_plan_config : PlanConfig → Result Error (Unit {0})
validate_plan_config cfg = do
  fail_if (ltb_ℤ cfg.hot_residency_window (pos 0)) invalid_plan_request
  fail_if (leb_ℤ cfg.plan_ttl (pos 0)) invalid_plan_request
  fail_if (leb_ℤ cfg.recommended_max_blocks (pos 0)) invalid_plan_request
  fail_if (leb_ℤ cfg.recommended_max_bytes (pos 0)) invalid_plan_request
  fail_if (ltb_ℤ cfg.max_validate_samples (pos 0)) invalid_plan_request

pub validate_plan_input : PlanInput → Result Error (Unit {0})
validate_plan_input input = do
  validate_plan_identity input
  validate_plan_request input
  validate_plan_config input.config

-- One of the two caps: what the request asks for and what holds. A cap that is not asked for
-- is zero in the requested bounds and the ceiling in the effective ones.
plan_cap : Option ℤ → ℤ → Result Error (ℤ × ℤ)
plan_cap none ceiling = ok (pos 0, ceiling)
plan_cap (some cap) ceiling = do
  fail_if (leb_ℤ cap (pos 0)) invalid_plan_request
  fail_if (ltb_ℤ ceiling cap) plan_cap_exceeds_ceiling
  ok (cap, cap)

-- The requested and the effective bounds.
pub plan_bounds : PlanRequest → Bounds → Result Error (Bounds × Bounds)
unfolding plan_cap
plan_bounds req recommended = do
  (blocks, eff_blocks) ← plan_cap req.max_blocks recommended.max_blocks
  (bytes, eff_bytes) ← plan_cap req.max_bytes recommended.max_bytes
  ok (
    record { max_blocks = blocks; max_bytes = bytes },
    record { max_blocks = eff_blocks; max_bytes = eff_bytes },
  )

plan_config_snapshot : PlanConfig → ConfigSnapshot
plan_config_snapshot cfg = record {
  enabled = cfg.enabled;
  hot_residency_window_seconds = seconds cfg.hot_residency_window;
  plan_ttl_seconds = seconds cfg.plan_ttl;
  recommended_max_blocks = cfg.recommended_max_blocks;
  recommended_max_bytes = cfg.recommended_max_bytes;
  max_validate_samples = cfg.max_validate_samples;
}

-- The time from which the Block may be evicted.
pub eligible_at : PlanCandidate → PlanConfig → ℤ
eligible_at candidate cfg =
    let basis =
      if ltb_ℤ candidate.confirmed_at_us candidate.restored_at_us
      then candidate.restored_at_us
      else candidate.confirmed_at_us in
    add64 basis (microseconds cfg.hot_residency_window)

pub plan_block : PlanCandidate → PlanConfig → PlanBlock
plan_block candidate cfg = record {
  block_id = candidate.block_id;
  shard_id = candidate.shard_id;
  size_bytes = candidate.size_bytes;
  backend_key = candidate.backend_key;
  confirmed_at_us = candidate.confirmed_at_us;
  restored_at_us = candidate.restored_at_us;
  eligible_at_us = eligible_at candidate cfg;
  hot_residency_window_seconds = seconds cfg.hot_residency_window;
  local_state = candidate.local_state;
  open_readers = candidate.open_readers;
  repair_state =
      if str_eq candidate.repair_state "" then repair_state_idle else candidate.repair_state;
  reason = SkipReason.unset;
}

abbrev shard_filtered : PlanCandidate → Option ℕ → Bool
shard_filtered candidate none = false
shard_filtered candidate (some shard) = not (candidate.shard_id == shard)

-- `unset` means that the candidate is eligible.
pub plan_skip_reason : PlanCandidate → PlanRequest → Bool → ℤ → ℤ → SkipReason
plan_skip_reason candidate req is_leader now_us eligible_at_us =
    if shard_filtered candidate req.shard_id
    then shard_filter
    else if not candidate.local_evictable
    then local_state_not_hot
    else if str_eq candidate.backend_key ""
    then no_durable_copy
    else if is_leader
    then leader_hot_copy_required
    else if ltb_ℤ now_us eligible_at_us
    then hot_residency_window
    else SkipReason.unset

abbrev pub is_unset : SkipReason → Bool
is_unset SkipReason.unset = true
is_unset _ = false

-- A number for each reason, to compare two of them by.
unfoldable pub number : SkipReason → ℕ
number SkipReason.unset = 0
number hot_residency_window = 1
number leader_hot_copy_required = 2
number local_state_not_hot = 3
number no_durable_copy = 4
number skip_plan_expired = 5
number SkipReason.plan_bounds = 6
number shard_filter = 7

abbrev pub reason_eq : SkipReason → SkipReason → Bool
reason_eq r s = number r == number s

-- `counts[reason]++`
unfoldable pub increment : SkipReason → Counts → Counts
increment reason [] = (reason, 1) ∷ []
increment reason ((r, n) ∷ rest) =
    if reason_eq r reason then (r, n + 1) ∷ rest else (r, n) ∷ increment reason rest

abbrev pub increment_some : SkipReason → Option Counts → Option Counts
increment_some reason none = none
increment_some reason (some counts) = some (increment reason counts)

append_skipped_block : Plan → PlanBlock → SkipReason → Plan
append_skipped_block plan block reason = record plan {
  skipped = plan.skipped ++ record block { reason = reason } ∷ [];
  skip_counts_by_reason = increment_some reason plan.skip_counts_by_reason;
}

-- `sort.Slice` by Block ID, as an insertion sort. Go leaves the order of equal IDs open.
pub insert_by_id : PlanCandidate → List PlanCandidate → List PlanCandidate
insert_by_id c [] = c ∷ []
insert_by_id c (d ∷ ds) = if leb c.block_id d.block_id then c ∷ d ∷ ds else d ∷ insert_by_id c ds

pub sort_by_id : List PlanCandidate → List PlanCandidate
unfolding insert_by_id
sort_by_id [] = []
sort_by_id (c ∷ cs) = insert_by_id c (sort_by_id cs)

-- The bounds test of the loop: the plan is full, or the Block would take it past its bytes.
pub exceeds_bounds : Plan → PlanBlock → Bounds → Bool
exceeds_bounds plan block effective =
    leb_ℤ effective.max_blocks (pos (length plan.selected))
    || ltb_ℤ effective.max_bytes (add64 plan.selected_bytes block.size_bytes)

-- One round of the loop over the candidates.
pub plan_candidate : PlanInput → Plan → PlanCandidate → Plan
unfolding append_skipped_block
plan_candidate input plan candidate =
    let block = plan_block candidate input.config in
    let reason =
      plan_skip_reason candidate input.request input.is_leader plan.generated_at_us
        block.eligible_at_us in
    let counted = record plan {
      candidate_blocks = plan.candidate_blocks + 1;
      candidate_bytes = add64 plan.candidate_bytes block.size_bytes;
    } in
    if not (is_unset reason)
    then append_skipped_block counted block reason
    else let eligible = record counted {
      eligible_blocks = plan.eligible_blocks + 1;
      eligible_bytes = add64 plan.eligible_bytes block.size_bytes;
    } in
      if exceeds_bounds eligible block plan.effective_bounds
      then append_skipped_block eligible block SkipReason.plan_bounds
      else record eligible {
        selected = plan.selected ++ block ∷ [];
        selected_bytes = add64 plan.selected_bytes block.size_bytes;
      }

pub plan_candidates : PlanInput → Plan → List PlanCandidate → Plan
plan_candidates input plan [] = plan
plan_candidates input plan (c ∷ cs) = plan_candidates input (plan_candidate input plan c) cs

-- The plan before the loop.
pub empty_plan : PlanInput → Bounds → Bounds → Bounds → Plan
empty_plan input recommended requested effective = record {
  plan_id = input.plan_id;
  generated_at_us = unix_micro input.now;
  expires_at_us = unix_micro (input.now +ℤ input.config.plan_ttl);
  member_hostname = input.member.hostname;
  member_id = input.member.id;
  shard_id = input.request.shard_id;
  reason = if str_eq input.request.reason "" then reason_evidence_run else input.request.reason;
  note = input.request.note;
  config = plan_config_snapshot input.config;
  recommended_bounds = recommended;
  requested_bounds = requested;
  effective_bounds = effective;
  selected = [];
  skipped = [];
  skip_counts_by_reason = some [];
  candidate_blocks = 0;
  candidate_bytes = pos 0;
  eligible_blocks = 0;
  eligible_bytes = pos 0;
  selected_bytes = pos 0;
}

abbrev pub nil_if_empty : Option Counts → Option Counts
nil_if_empty none = none
nil_if_empty (some []) = none
nil_if_empty (some (c ∷ cs)) = some (c ∷ cs)

abbrev pub recommended_bounds : PlanConfig → Bounds
recommended_bounds cfg = record {
  max_blocks = cfg.recommended_max_blocks;
  max_bytes = cfg.recommended_max_bytes;
}

-- The loop, and the map of counts dropped where it is empty.
pub finish_plan : PlanInput → Bounds × Bounds → Plan
finish_plan input (requested, effective) =
    let start = empty_plan input (recommended_bounds input.config) requested effective in
    let plan = plan_candidates input start (sort_by_id input.candidates) in
    record plan { skip_counts_by_reason = nil_if_empty plan.skip_counts_by_reason }

pub build_plan : PlanInput → Result Error Plan
build_plan input = do
  validate_plan_input input
  bounds ← plan_bounds input.request (recommended_bounds input.config)
  ok (finish_plan input bounds)

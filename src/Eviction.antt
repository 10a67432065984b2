-- ===== src/Eviction.antt =====
-- internal/eviction/types.go: the operator-facing eviction campaign contract. A Go string is a
-- `String`, an `int` or `int64` is a ℤ, a counter that grows by one for each list element is an ℕ,
-- a pointer or a map that may be nil is an `Option`.
pub mod Planner
pub mod Apply
pub mod Campaigns
use scrap.Common.{ℕ, String, Bool, Option, List}
use scrap.Common.Int.{ℤ}

abbrev pub reason_evidence_run : String
reason_evidence_run = "evidence_run"

-- The constants `SkipReason…`; `unset` is the empty text of a Block that is not skipped.
pub data SkipReason : Type 0 where
  unset : SkipReason
  hot_residency_window : SkipReason
  leader_hot_copy_required : SkipReason
  local_state_not_hot : SkipReason
  no_durable_copy : SkipReason
  skip_plan_expired : SkipReason
  plan_bounds : SkipReason
  shard_filter : SkipReason

-- The constants `ApplyStatus…`; `unset` is the empty text of a zero result.
pub data ApplyStatus : Type 0 where
  unset : ApplyStatus
  completed : ApplyStatus
  completed_with_skips : ApplyStatus
  evicted_with_validation_failure : ApplyStatus
  no_effect : ApplyStatus
  failed : ApplyStatus

-- The constants `ApplyBlockStatus…`, and what else a caller's function may return.
pub data ApplyBlockStatus : Type 0 where
  evicted : ApplyBlockStatus
  skipped : ApplyBlockStatus
  failed : ApplyBlockStatus
  unknown : ApplyBlockStatus

-- The status of a campaign: one of the constants `PlanStatus…`, or that of its result.
pub data CampaignStatus : Type 0 where
  pending : CampaignStatus
  running : CampaignStatus
  applied : ApplyStatus → CampaignStatus

abbrev pub repair_state_idle : String
repair_state_idle = "idle"

-- The sentinel errors; the text that wraps one is not modelled.
pub data Error : Type 0 where
  invalid_plan_request : Error
  target_member_mismatch : Error
  plan_cap_exceeds_ceiling : Error
  plan_not_found : Error
  plan_expired : Error
  apply_in_progress : Error
  plan_stale : Error

pub record Member : Type 0 where
  pub hostname : String
  pub id : String

pub record Bounds : Type 0 where
  pub max_blocks : ℤ
  pub max_bytes : ℤ

pub record ConfigSnapshot : Type 0 where
  pub enabled : Bool
  pub hot_residency_window_seconds : ℤ
  pub plan_ttl_seconds : ℤ
  pub recommended_max_blocks : ℤ
  pub recommended_max_bytes : ℤ
  pub max_validate_samples : ℤ

pub record PlanRequest : Type 0 where
  pub member_hostname : String
  pub shard_id : Option ℕ
  pub max_blocks : Option ℤ
  pub max_bytes : Option ℤ
  pub reason : String
  pub note : String

pub record PlanBlock : Type 0 where
  pub block_id : ℕ
  pub shard_id : ℕ
  pub size_bytes : ℤ
  pub backend_key : String
  pub confirmed_at_us : ℤ
  pub restored_at_us : ℤ
  pub eligible_at_us : ℤ
  pub hot_residency_window_seconds : ℤ
  pub local_state : String
  pub open_readers : ℤ
  pub repair_state : String
  pub reason : SkipReason

-- The map of counts by skip reason.
abbrev pub Counts : Type 0
Counts = List (SkipReason × ℕ)

pub record Plan : Type 0 where
  pub plan_id : String
  pub generated_at_us : ℤ
  pub expires_at_us : ℤ
  pub member_hostname : String
  pub member_id : String
  pub shard_id : Option ℕ
  pub reason : String
  pub note : String
  pub config : ConfigSnapshot
  pub recommended_bounds : Bounds
  pub requested_bounds : Bounds
  pub effective_bounds : Bounds
  pub selected : List PlanBlock
  pub skipped : List PlanBlock
  pub skip_counts_by_reason : Option Counts
  pub candidate_blocks : ℕ
  pub candidate_bytes : ℤ
  pub eligible_blocks : ℕ
  pub eligible_bytes : ℤ
  pub selected_bytes : ℤ

pub record ApplyBlock : Type 0 where
  pub block_id : ℕ
  pub shard_id : ℕ
  pub size_bytes : ℤ
  pub status : ApplyBlockStatus
  pub reason : String
  pub error : String
  pub bytes_freed : ℤ

pub record ValidationBlock : Type 0 where
  pub block_id : ℕ
  pub shard_id : ℕ
  pub status : String
  pub error : String

pub record ApplyResult : Type 0 where
  pub plan_id : String
  pub status : ApplyStatus
  pub started_at_us : ℤ
  pub completed_at_us : ℤ
  pub member_hostname : String
  pub member_id : String
  pub selected_blocks : ℕ
  pub evicted_blocks : ℕ
  pub skipped_blocks : ℕ
  pub failed_blocks : ℕ
  pub validated_blocks : ℕ
  pub validation_failed_blocks : ℕ
  pub bytes_freed : ℤ
  pub blocks : List ApplyBlock
  pub validations : List ValidationBlock

pub record PlanStatus : Type 0 where
  pub plan_id : String
  pub status : CampaignStatus
  pub plan : Option Plan
  pub apply_result : Option ApplyResult

-- ===== src/Shard/EvictionApply.antt =====
-- internal/shard/eviction_apply.go: the eviction of one selected Block, under the Shard's lock. The
-- clock, the Raft role at each point where it is asked, the committed upload record of the Block
-- and the texts of the errors are parameters.
pub mod Authority
pub mod Steps
pub mod Safety
mod Examples
use scrap.Common.{
  ℕ, ◌*◌, String, Bool, true, false, not, ◌&&◌, ◌||◌, Option, none, some, ◌==◌, str_eq,
  if◌then◌else◌,
}
use scrap.Common.Int.{ℤ, pos, pos_part, ltb_ℤ, leb_ℤ, eq_ℤ, wrap64, add64}
use scrap.Common.Result.{Result, ok, err, either, if_some}
use scrap.Index.{ConfirmedUpload}
use scrap.Eviction.{Plan, PlanBlock, ApplyBlock, ApplyBlockStatus}
use scrap.Eviction.Apply.{skipped_block, failed_block}
use scrap.LocalBlock.Marker.{Error, RestoreMarker}
use scrap.LocalBlock.Disk.{Io, pure, raise, handle, ◌>>=◌, ◌>>◌, lift}
use scrap.LocalBlock.Lifecycle.{State, Lifecycle, classify}
use scrap.LocalBlock.Transitions.{
  EvictionMarkerExpectation, prepare_eviction, validate_eviction_marker_matches,
  remove_eviction_marker, unlink_block_data, remove_restore_marker,
}

-- Why the upload record of a Block gives no authority to evict it.
pub data AuthorityError : Type 0 where
  not_confirmed : AuthorityError
  shard_mismatch : AuthorityError
  size_mismatch : AuthorityError
  missing_backend_key : AuthorityError
  backend_key_mismatch : AuthorityError

-- The answers of the clock and of `s.leaderHotCopyRequired()` at each point where the code asks,
-- and the texts of the errors.
pub record Host : Type 0 where
  pub shard_id : ℕ
  pub hot_residency_window_seconds : ℤ
  pub leader_at_skip : Bool
  pub leader_at_guard : Bool
  pub leader_at_unlink : Bool
  pub now_at_skip : ℤ
  pub now_at_guard : ℤ
  pub now_at_marker : ℤ
  pub now_at_unlink : ℤ
  pub local_text : Error → String
  pub authority_text : AuthorityError → String

unfoldable pub eviction_plan_expired : Plan → ℤ → Bool
eviction_plan_expired plan now = ltb_ℤ (pos 0) plan.expires_at_us && leb_ℤ plan.expires_at_us now

unfoldable pub eviction_reason_for_marker : Plan → String
eviction_reason_for_marker plan = if str_eq plan.reason "" then "evidence_run" else plan.reason

unfoldable pub validate_eviction_apply_authority :
    PlanBlock → ConfirmedUpload → Result AuthorityError (Unit {0})
validate_eviction_apply_authority selected confirmed =
    if not (selected.shard_id == confirmed.shard_id)
    then err shard_mismatch
    else if not (eq_ℤ selected.size_bytes confirmed.block_object.size_bytes)
    then err size_mismatch
    else if str_eq selected.backend_key ""
    then err missing_backend_key
    else if not (str_eq selected.backend_key confirmed.block_object.key)
    then err backend_key_mismatch
    else ok tt

-- `authority` is the answer of `committedConfirmUploadAuthorityLocked`.
unfoldable pub confirmed_eviction_apply_authority_locked :
    PlanBlock → Result AuthorityError ConfirmedUpload → Result AuthorityError ConfirmedUpload
confirmed_eviction_apply_authority_locked selected (err e) = err e
confirmed_eviction_apply_authority_locked selected (ok confirmed) =
    either (validate_eviction_apply_authority selected confirmed) err (λ _. ok confirmed)

unfoldable pub restored_hot_residency_applies : ℤ → Option RestoreMarker → ℤ → Bool
unfolding add64 wrap64
restored_hot_residency_applies window none now = false
restored_hot_residency_applies window (some marker) now =
    if leb_ℤ window (pos 0)
    then false
    else ltb_ℤ now (add64 marker.restored_at_us (wrap64 (pos (pos_part window * 1000000))))

abbrev pub is_hot : State → Bool
is_hot State.hot = true
is_hot _ = false

abbrev pub is_cleanup : State → Bool
is_cleanup State.hot_cleanup_needed = true
is_cleanup _ = false

unfoldable pub eviction_apply_skip_reason : Host → PlanBlock → Lifecycle → Option String
eviction_apply_skip_reason host selected lifecycle =
    if not (selected.shard_id == host.shard_id)
    then some "shard_filter"
    else if not (is_hot lifecycle.state) && not (is_cleanup lifecycle.state)
    then some "local_state_not_hot"
    else if host.leader_at_skip
    then some "leader_hot_copy_required"
    else if restored_hot_residency_applies host.hot_residency_window_seconds
        lifecycle.restore_marker host.now_at_skip
    then some "hot_residency_window"
    else none

unfoldable pub eviction_apply_destructive_guard : Host → Plan → Option String
eviction_apply_destructive_guard host plan =
    if host.leader_at_guard
    then some "leader_hot_copy_required"
    else if eviction_plan_expired plan host.now_at_guard
    then some "plan_expired"
    else none

abbrev pub eviction_marker_expectation : ConfirmedUpload → EvictionMarkerExpectation
eviction_marker_expectation confirmed = record {
  block_id = confirmed.block_id;
  backend_key = confirmed.block_object.key;
  size_bytes = confirmed.block_object.size_bytes;
  validation_token = confirmed.block_object.validation_token;
}

unfoldable pub validate_restore_authority : ConfirmedUpload → Lifecycle → Result Error (Unit {0})
validate_restore_authority confirmed lifecycle =
    validate_eviction_marker_matches lifecycle (eviction_marker_expectation confirmed)

unfoldable pub prepare_eviction_marker_for_apply :
    Host → Plan → Lifecycle → ConfirmedUpload → Io (Unit {0})
prepare_eviction_marker_for_apply host plan lifecycle confirmed =
    if is_cleanup lifecycle.state
    then lift (validate_restore_authority confirmed lifecycle)
    else prepare_eviction (eviction_marker_expectation confirmed) host.now_at_marker
        "operator_requested" (eviction_reason_for_marker plan)

unfoldable pub skip_eviction_after_prepared_marker : Host → PlanBlock → Lifecycle → Io ApplyBlock
skip_eviction_after_prepared_marker host selected lifecycle =
    if is_hot lifecycle.state
    then handle (remove_eviction_marker selected.block_id)
        (λ e. pure (failed_block selected (host.local_text e)))
        (λ _. pure (skipped_block selected "leader_hot_copy_required"))
    else pure (skipped_block selected "leader_hot_copy_required")

-- What the unlink ends with: a Block result of its own, or whether the Block was removed and the
-- error.
pub data Unlink : Type 0 where
  blocked : ApplyBlock → Unlink
  unlinked : Bool → Option Error → Unlink

-- The restore marker goes with the Block; an error in that is only logged.
unfoldable pub after_unlink : ℕ → Bool × Option Error → Io Unlink
after_unlink id (true, none) =
    handle (remove_restore_marker id) (λ e. pure (unlinked true none))
      (λ _. pure (unlinked true none))
after_unlink id (removed, e) = pure (unlinked removed e)

unfoldable pub unlink_evicted_block_if_follower : Host → PlanBlock → Lifecycle → Io Unlink
unlink_evicted_block_if_follower host selected lifecycle =
    if host.leader_at_unlink
    then skip_eviction_after_prepared_marker host selected lifecycle
      >>= (λ block. pure (blocked block))
    else unlink_block_data selected.block_id >>= after_unlink selected.block_id

unfoldable pub unlink_evicted_block_respecting_expiry :
    Host → Plan → PlanBlock → Lifecycle → Io Unlink
unlink_evicted_block_respecting_expiry host plan selected lifecycle =
    if eviction_plan_expired plan host.now_at_unlink
    then pure (blocked (skipped_block selected "plan_expired"))
    else unlink_evicted_block_if_follower host selected lifecycle

-- The result of a Block once the unlink has ended.
unfoldable pub apply_outcome : Host → PlanBlock → ConfirmedUpload → Unlink → ApplyBlock
apply_outcome host selected confirmed (blocked block) = block
apply_outcome host selected confirmed (unlinked removed (some e)) =
    let failed = failed_block selected (host.local_text e) in
    if removed then record failed { bytes_freed = confirmed.block_object.size_bytes } else failed
apply_outcome host selected confirmed (unlinked removed none) = record {
  block_id = selected.block_id;
  shard_id = selected.shard_id;
  size_bytes = selected.size_bytes;
  status = ApplyBlockStatus.evicted;
  reason = "";
  error = "";
  bytes_freed = confirmed.block_object.size_bytes;
}

-- From the committed upload record on.
unfoldable pub evict_confirmed :
    Host → Plan → PlanBlock → Lifecycle → ConfirmedUpload → Io ApplyBlock
evict_confirmed host plan selected lifecycle confirmed =
    if_some (eviction_apply_destructive_guard host plan)
      (λ reason. pure (skipped_block selected reason))
      (handle (prepare_eviction_marker_for_apply host plan lifecycle confirmed)
        (λ e. pure (failed_block selected (host.local_text e)))
        (λ _.
          unlink_evicted_block_respecting_expiry host plan selected lifecycle
          >>= (λ result. pure (apply_outcome host selected confirmed result))))

-- From the classification on.
unfoldable pub evict_classified :
    Host
    → Result AuthorityError ConfirmedUpload
    → Plan
    → PlanBlock
    → Lifecycle × Option Error
    → Io ApplyBlock
evict_classified host authority plan selected (lifecycle, some e) =
    pure (failed_block selected (host.local_text e))
evict_classified host authority plan selected (lifecycle, none) =
    if_some (eviction_apply_skip_reason host selected lifecycle)
      (λ reason. pure (skipped_block selected reason))
      (either (confirmed_eviction_apply_authority_locked selected authority)
        (λ e. pure (failed_block selected (host.authority_text e)))
        (λ confirmed. evict_confirmed host plan selected lifecycle confirmed))

unfoldable pub apply_eviction_block_locked :
    Host → Result AuthorityError ConfirmedUpload → Plan → PlanBlock → Io ApplyBlock
apply_eviction_block_locked host authority plan selected =
    if not (selected.shard_id == host.shard_id)
    then pure (skipped_block selected "shard_filter")
    else do
      lifecycle ← classify selected.block_id
      evict_classified host authority plan selected lifecycle

-- ===== src/LocalBlock/Transitions.antt =====
-- internal/localblock/transitions.go: the steps of eviction and restore.
pub mod Rules
pub mod Restore
pub mod Scan
mod Examples
use scrap.Common.{
  ℕ, String, Bool, true, false, not, ◌&&◌, ◌||◌, Option, none, some, ◌==◌, str_eq, if◌then◌else◌,
}
use scrap.Common.Int.{ℤ, pos, leb_ℤ, eq_ℤ}
use scrap.Common.Result.{Result, ok, err, fail_if}
use scrap.LocalBlock.Marker.{
  Error, marker_invalid, mismatch, marker_version, EvictionMarker, RestoreMarker, RestoreScanRecord,
}
use scrap.LocalBlock.Disk.{
  File, absent, present, Files, Dir, update, Io, pure, raise, handle, ◌>>=◌, ◌>>◌, lift, sys,
  modify,
}
use scrap.LocalBlock.Lifecycle.{
  Lifecycle, set_restore, set_scanned, write_eviction_marker, write_restore_marker,
  write_restore_scan_record, read_restore_marker, read_restore_scan_record, sync_directory,
  is_not_exist, is_there, os_remove, os_remove_eviction,
}

pub record EvictionMarkerExpectation : Type 0 where
  pub block_id : ℕ
  pub backend_key : String
  pub size_bytes : ℤ
  pub validation_token : String

unfoldable pub prepare_eviction : EvictionMarkerExpectation → ℤ → String → String → Io (Unit {0})
prepare_eviction expected evicted_at_us trigger reason = write_eviction_marker (record {
  version = pos 0;
  block_id = expected.block_id;
  backend_key = expected.backend_key;
  size_bytes = expected.size_bytes;
  validation_token = expected.validation_token;
  evicted_at_us = evicted_at_us;
  trigger = trigger;
  reason = reason;
})

abbrev pub matches : Option EvictionMarker → EvictionMarkerExpectation → Bool
matches none expected = false
matches (some marker) expected =
    str_eq marker.backend_key expected.backend_key
    && (eq_ℤ marker.size_bytes expected.size_bytes
        && str_eq marker.validation_token expected.validation_token)

unfoldable pub validate_eviction_marker_matches :
    Lifecycle → EvictionMarkerExpectation → Result Error (Unit {0})
validate_eviction_marker_matches lifecycle expected =
    fail_if (not (matches lifecycle.eviction_marker expected)) mismatch

unfoldable pub remove_eviction_marker : ℕ → Io (Unit {0})
remove_eviction_marker id =
    handle (os_remove_eviction id) (λ e. if is_not_exist e then pure tt else raise e)
      (λ _. sync_directory)

abbrev pub set_blk : Bool → Files → Files
set_blk there files = record files { blk = there }

-- Whether the Block was removed, and the error.
unfoldable pub unlink_block_data : ℕ → Io (Bool × Option Error)
unlink_block_data id =
    handle (os_remove (λ dir. (dir id).blk) (update id (set_blk false)))
      (λ e. pure (false, if is_not_exist e then none else some e))
      (λ _. handle sync_directory (λ e. pure (true, some e)) (λ _. pure (true, none)))

-- `os.Rename` of the restored temporary file to the Block.
rename_block : ℕ → Io (Unit {0})
rename_block id = do sys; modify (update id (set_blk true))

-- `marker.BlockID = blockID`
abbrev pub for_block : ℕ → RestoreMarker → RestoreMarker
for_block id marker = record marker { block_id = id }

-- Whether the Block was published, and the error. The restore marker is written first.
unfoldable pub publish_restored_block : ℕ → RestoreMarker → Io (Bool × Option Error)
unfolding rename_block
publish_restored_block id marker =
    handle (write_restore_marker (for_block id marker)) (λ e. pure (false, some e))
      (λ _.
        handle (rename_block id) (λ e. pure (false, some e))
          (λ _.
            handle sync_directory (λ e. pure (true, some e))
              (λ _.
                handle (remove_eviction_marker id) (λ e. pure (true, some e))
                  (λ _. pure (true, none)))))

unfoldable pub record_successful_restore : ℕ → RestoreMarker → Io (Unit {0})
record_successful_restore id marker = do
  write_restore_marker (for_block id marker)
  remove_eviction_marker id

unfoldable pub scan_record : ℕ → RestoreMarker → ℤ → RestoreScanRecord
scan_record id marker scanned_at_us = record {
  version = pos 0;
  block_id = id;
  restored_at_us = marker.restored_at_us;
  scanned_at_us = scanned_at_us;
}

unfoldable pub record_restore_scan : ℕ → ℤ → Io (Unit {0})
unfolding scan_record
record_restore_scan id scanned_at_us =
    if leb_ℤ scanned_at_us (pos 0)
    then raise marker_invalid
    else handle (read_restore_marker id) (λ e. if is_not_exist e then pure tt else raise e)
        (λ marker. write_restore_scan_record (scan_record id marker scanned_at_us))

-- A marker or a record that cannot be read leaves the Block to be scanned.
unfoldable pub restore_pending_scan : ℕ → Io Bool
restore_pending_scan id =
    handle (read_restore_marker id) (λ e. pure (not (is_not_exist e)))
      (λ marker.
        handle (read_restore_scan_record id) (λ e. pure true)
          (λ scan. pure (not (eq_ℤ scan.restored_at_us marker.restored_at_us))))

-- One file of `RemoveRestoreMarker`: whether it was removed.
unfoldable pub remove_one : Io (Unit {0}) → Io Bool
remove_one remove =
    handle remove (λ e. if is_not_exist e then pure false else raise e) (λ _. pure true)

unfoldable pub remove_restore_marker : ℕ → Io (Unit {0})
unfolding remove_one
remove_restore_marker id = do
  marker ←
      remove_one (os_remove (λ dir. is_there (dir id).restore) (update id (set_restore absent)))
  scan ← remove_one (os_remove (λ dir. is_there (dir id).scanned) (update id (set_scanned absent)))
  if marker || scan then sync_directory else pure tt

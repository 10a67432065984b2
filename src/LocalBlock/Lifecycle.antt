-- ===== src/LocalBlock/Lifecycle.antt =====
-- internal/localblock/lifecycle.go: reading and writing the markers, and the classification of a
-- Block by the files that are there.
pub mod Rules
pub mod Classify
pub mod Cleanup
mod Examples
use scrap.Common.{
  ℕ, Bool, true, false, not, ◌&&◌, ◌||◌, Option, none, some, List, [], ◌∷◌, if◌then◌else◌,
}
use scrap.Common.Result.{Result, ok, err}
use scrap.LocalBlock.Marker.{
  Error, not_exist, marker_invalid, io, marker_version, EvictionMarker, RestoreMarker,
  RestoreScanRecord, validate_eviction_marker, validate_restore_marker,
  validate_restore_scan_record,
}
use scrap.LocalBlock.Disk.{
  File, absent, present, unreadable, Files, Dir, update, Io, pure, raise, handle, ◌>>=◌, ◌>>◌, lift,
  sys, modify, look,
}

-- `unset` is the state of a zero lifecycle.
pub data State : Type 0 where
  unset : State
  hot : State
  evicted : State
  hot_cleanup_needed : State
  metadata_loss : State
  unexpected_loss : State

pub record Lifecycle : Type 0 where
  pub block_id : ℕ
  pub state : State
  pub serving_allowed : Bool
  pub health_degraded : Bool
  pub eviction_marker : Option EvictionMarker
  pub restore_marker : Option RestoreMarker

-- `WriteJSONMarker`: the directory is made; a temporary file is created, written, synced and
-- closed; the rename publishes it; the directory is opened and synced. The marker always encodes.
unfoldable pub write_json_marker : (Dir → Dir) → Io (Unit {0})
write_json_marker publish = do sys; sys; sys; sys; sys; sys; modify publish; sys; sys

unfoldable pub sync_directory : Io (Unit {0})
sync_directory = do sys; sys

abbrev pub set_eviction : File EvictionMarker → Files → Files
set_eviction file files = record files { eviction = file }

abbrev pub set_restore : File RestoreMarker → Files → Files
set_restore file files = record files { restore = file }

abbrev pub set_scanned : File RestoreScanRecord → Files → Files
set_scanned file files = record files { scanned = file }

abbrev pub stamp_eviction : EvictionMarker → EvictionMarker
stamp_eviction marker = record marker { version = marker_version }

abbrev pub stamp_restore : RestoreMarker → RestoreMarker
stamp_restore marker = record marker { version = marker_version }

abbrev pub stamp_scan : RestoreScanRecord → RestoreScanRecord
stamp_scan scan = record scan { version = marker_version }

unfoldable pub write_eviction_marker : EvictionMarker → Io (Unit {0})
write_eviction_marker marker = do
  lift (validate_eviction_marker (stamp_eviction marker) marker.block_id)
  write_json_marker (update marker.block_id (set_eviction (present (stamp_eviction marker))))

unfoldable pub write_restore_marker : RestoreMarker → Io (Unit {0})
write_restore_marker marker = do
  lift (validate_restore_marker (stamp_restore marker) marker.block_id)
  write_json_marker (update marker.block_id (set_restore (present (stamp_restore marker))))

unfoldable pub write_restore_scan_record : RestoreScanRecord → Io (Unit {0})
write_restore_scan_record scan = do
  lift (validate_restore_scan_record (stamp_scan scan) scan.block_id)
  write_json_marker (update scan.block_id (set_scanned (present (stamp_scan scan))))

-- `ReadJSONMarker`: the open can fail, and the text can be no marker.
abbrev pub decoded : {A : Type 0} → File A → Result Error A
decoded absent = err not_exist
decoded (present a) = ok a
decoded unreadable = err marker_invalid

unfoldable pub read_json_marker : {A : Type 0} → (Dir → File A) → Io A
read_json_marker file = do sys; f ← look file; lift (decoded f)

unfoldable pub read_eviction_marker : ℕ → Io EvictionMarker
read_eviction_marker id = do
  marker ← read_json_marker (λ dir. (dir id).eviction)
  lift (validate_eviction_marker marker id)
  pure marker

unfoldable pub read_restore_marker : ℕ → Io RestoreMarker
read_restore_marker id = do
  marker ← read_json_marker (λ dir. (dir id).restore)
  lift (validate_restore_marker marker id)
  pure marker

unfoldable pub read_restore_scan_record : ℕ → Io RestoreScanRecord
read_restore_scan_record id = do
  scan ← read_json_marker (λ dir. (dir id).scanned)
  lift (validate_restore_scan_record scan id)
  pure scan

-- `os.IsNotExist`
abbrev pub is_not_exist : Error → Bool
is_not_exist not_exist = true
is_not_exist _ = false

-- A marker that is not there is no error.
unfoldable pub optional : {A : Type 0} → Io A → Io (Option A)
optional m =
    handle m (λ e. if is_not_exist e then pure none else raise e) (λ marker. pure (some marker))

-- `fileExists`: the `os.Stat` can fail.
unfoldable pub file_exists : (Dir → Bool) → Io Bool
file_exists exists = do sys; look exists

-- A state with nothing else to say of the Block.
abbrev pub bare : ℕ → State → Bool → Bool → Lifecycle
bare id state serving degraded = record {
  block_id = id;
  state = state;
  serving_allowed = serving;
  health_degraded = degraded;
  eviction_marker = none;
  restore_marker = none;
}

-- `markers`, and in the error case its `failure` with the error.
abbrev pub Markers : Type 0
Markers = Option EvictionMarker × Option RestoreMarker

unfoldable pub read_markers : ℕ → Bool → Io (Result Error Markers × Lifecycle)
read_markers id blk_exists =
    handle (optional (read_eviction_marker id))
      (λ e. pure (err e, bare id unexpected_loss false true))
      (λ eviction.
        handle (optional (read_restore_marker id)) (λ e. pure (err e, bare id hot blk_exists true))
          (λ restore. pure (ok (eviction, restore), bare id unset false false)))

-- The `switch` of `classifyState`, on whether the Block and its eviction marker are there.
abbrev pub classify_switch : Bool → Option EvictionMarker → State × Bool × Bool
classify_switch true (some marker) = (hot_cleanup_needed, true, true)
classify_switch true none = (hot, true, false)
classify_switch false (some marker) = (evicted, false, false)
classify_switch false none = (unexpected_loss, false, true)

unfoldable pub classify_state : ℕ → Bool → Markers → Lifecycle
classify_state id blk_exists (eviction, restore) =
    let (state, serving, degraded) = classify_switch blk_exists eviction in
    record {
      block_id = id;
      state = state;
      serving_allowed = serving;
      health_degraded = degraded;
      eviction_marker = eviction;
      restore_marker = restore;
    }

abbrev pub classified : ℕ → Bool → Result Error Markers × Lifecycle → Lifecycle × Option Error
classified id blk_exists (ok markers, _) = (classify_state id blk_exists markers, none)
classified id blk_exists (err e, failure) = (failure, some e)

-- The lifecycle, and the error beside it.
unfoldable pub classify : ℕ → Io (Lifecycle × Option Error)
classify id =
    handle (file_exists (λ dir. (dir id).blk)) (λ e. pure (bare 0 unset false false, some e))
      (λ blk_exists.
        handle (file_exists (λ dir. (dir id).idx)) (λ e. pure (bare 0 unset false false, some e))
          (λ idx_exists.
            if not idx_exists
            then pure (bare id metadata_loss false true, none)
            else do markers ← read_markers id blk_exists; pure (classified id blk_exists markers)))

-- `os.Remove` of a file.
unfoldable pub os_remove : (Dir → Bool) → (Dir → Dir) → Io (Unit {0})
os_remove exists remove = do
  sys
  there ← look exists
  if there then modify remove else raise not_exist

abbrev pub is_there : {A : Type 0} → File A → Bool
is_there absent = false
is_there (present a) = true
is_there unreadable = true

unfoldable pub os_remove_eviction : ℕ → Io (Unit {0})
os_remove_eviction id =
    os_remove (λ dir. is_there (dir id).eviction) (update id (set_eviction absent))

abbrev pub is_hot_cleanup_needed : State → Bool
is_hot_cleanup_needed hot_cleanup_needed = true
is_hot_cleanup_needed _ = false

abbrev pub raise_some : {A : Type 0} → Option Error → Io A → Io A
raise_some none m = m
raise_some (some e) m = raise e

-- Whether the marker was removed.
unfoldable pub cleanup_hot_marker : ℕ → Io Bool
cleanup_hot_marker id = do
  (lifecycle, e) ← classify id
  raise_some e (
      if not (is_hot_cleanup_needed lifecycle.state)
      then pure false
      else handle (os_remove_eviction id) (λ e. if is_not_exist e then pure true else raise e)
          (λ _. pure true))

-- The sweep over the Blocks whose eviction markers the directory lists: the failures, and whether
-- a marker was removed. A Block that fails is left for the operator, and the sweep goes on.
unfoldable pub cleanup_loop : List ℕ → Io (List (ℕ × Error) × Bool)
cleanup_loop [] = pure ([], false)
cleanup_loop (id ∷ ids) =
    handle (cleanup_hot_marker id)
      (λ e. do (failures, removed) ← cleanup_loop ids; pure ((id, e) ∷ failures, removed))
      (λ done. do (failures, removed) ← cleanup_loop ids; pure (failures, done || removed))

-- `CleanupHotMarkers`: the failures, and the error that ends the sweep.
unfoldable pub cleanup_hot_markers : List ℕ → Io (List (ℕ × Error) × Option Error)
cleanup_hot_markers ids =
    handle sys (λ e. pure ([], some e))
      (λ _. do
        (failures, removed) ← cleanup_loop ids
        if removed
            then handle sync_directory (λ e. pure (failures, some e)) (λ _. pure (failures, none))
            else pure (failures, none))

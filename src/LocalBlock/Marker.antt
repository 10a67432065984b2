-- ===== src/LocalBlock/Marker.antt =====
-- internal/localblock/lifecycle.go: the marker files and their validation. A Go string is a
-- `String`, an `int` or `int64` is a ℤ, a Block ID is an ℕ.
use scrap.Common.{ℕ, String, not, ◌==◌, str_eq}
use scrap.Common.Int.{ℤ, pos, ltb_ℤ, leb_ℤ, eq_ℤ}
use scrap.Common.Result.{Result, ◌>>◌, fail_if}

-- What a local call can fail with: the file is not there, its contents are no valid marker, the
-- operating system refuses, or the marker is not the expected one.
pub data Error : Type 0 where
  not_exist : Error
  marker_invalid : Error
  io : Error
  mismatch : Error

abbrev pub marker_version : ℤ
marker_version = pos 1

pub record EvictionMarker : Type 0 where
  pub version : ℤ
  pub block_id : ℕ
  pub backend_key : String
  pub size_bytes : ℤ
  pub validation_token : String
  pub evicted_at_us : ℤ
  pub trigger : String
  pub reason : String

pub record RestoreMarker : Type 0 where
  pub version : ℤ
  pub block_id : ℕ
  pub restored_at_us : ℤ
  pub source : String
  pub reason : String

pub record RestoreScanRecord : Type 0 where
  pub version : ℤ
  pub block_id : ℕ
  pub restored_at_us : ℤ
  pub scanned_at_us : ℤ

unfoldable pub validate_marker_header : ℤ → ℕ → ℕ → Result Error (Unit {0})
validate_marker_header version marker_block_id block_id = do
  fail_if (not (eq_ℤ version marker_version)) marker_invalid
  fail_if (not (marker_block_id == block_id)) marker_invalid
  fail_if (marker_block_id == 0) marker_invalid

unfoldable pub validate_eviction_marker : EvictionMarker → ℕ → Result Error (Unit {0})
unfolding validate_marker_header
validate_eviction_marker marker block_id = do
  validate_marker_header marker.version marker.block_id block_id
  fail_if (str_eq marker.backend_key "") marker_invalid
  fail_if (ltb_ℤ marker.size_bytes (pos 0)) marker_invalid
  fail_if (str_eq marker.validation_token "") marker_invalid
  fail_if (leb_ℤ marker.evicted_at_us (pos 0)) marker_invalid
  fail_if (str_eq marker.trigger "") marker_invalid
  fail_if (str_eq marker.reason "") marker_invalid

unfoldable pub validate_restore_marker : RestoreMarker → ℕ → Result Error (Unit {0})
unfolding validate_marker_header
validate_restore_marker marker block_id = do
  validate_marker_header marker.version marker.block_id block_id
  fail_if (leb_ℤ marker.restored_at_us (pos 0)) marker_invalid
  fail_if (str_eq marker.source "") marker_invalid
  fail_if (str_eq marker.reason "") marker_invalid

unfoldable pub validate_restore_scan_record : RestoreScanRecord → ℕ → Result Error (Unit {0})
unfolding validate_marker_header
validate_restore_scan_record scan block_id = do
  validate_marker_header scan.version scan.block_id block_id
  fail_if (leb_ℤ scan.restored_at_us (pos 0)) marker_invalid
  fail_if (leb_ℤ scan.scanned_at_us (pos 0)) marker_invalid

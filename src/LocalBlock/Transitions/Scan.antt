-- ===== src/LocalBlock/Transitions/Scan.antt =====
-- internal/localblock/transitions.go: the scan of a restored Block.
use mathlib.Core.Path.{subst}
use scrap.Common.{ℕ, ◌≡◌, refl, sym, ap, true, false, [], arith}
use scrap.Common.Int.{ℤ, pos, leb_ℤ, eq_ℤ}
use scrap.Common.Result.{ok}
use scrap.LocalBlock.Marker.{
  RestoreMarker, RestoreScanRecord, validate_marker_header, validate_restore_marker,
  validate_restore_scan_record,
}
use scrap.LocalBlock.Disk.{present, Files, Dir, World, update, update_self, done, draw, handle, sys}
use scrap.LocalBlock.Lifecycle.{
  set_scanned, stamp_scan, write_json_marker, write_restore_scan_record, read_json_marker,
  read_restore_marker, read_restore_scan_record,
}
use scrap.LocalBlock.Transitions.{scan_record, record_restore_scan, restore_pending_scan}

-- No call fails.
abbrev pub calm : Dir → World
calm dir = record { dir = dir; faults = [] }

scan_record-valid :
    (id : ℕ) (marker : RestoreMarker) (now : ℤ)
    → validate_restore_marker marker id ≡ ok tt
    → leb_ℤ now (pos 0) ≡ false
    → validate_restore_scan_record (stamp_scan (scan_record id marker now)) id ≡ ok tt
unfolding validate_restore_marker validate_restore_scan_record validate_marker_header scan_record
scan_record-valid id marker now valid live = ground arith

module _ (id : ℕ) (marker : RestoreMarker) (dir : Dir) where
  read_restore_marker-calm :
      (dir id).restore ≡ present marker
      → validate_restore_marker marker id ≡ ok tt
      → read_restore_marker id (calm dir) ≡ (done marker, calm dir)
  unfolding read_restore_marker read_json_marker handle sys draw
  read_restore_marker-calm h valid = rw (h, valid)

  read_restore_scan_record-calm :
      (scan : RestoreScanRecord)
      → (dir id).scanned ≡ present scan
      → validate_restore_scan_record scan id ≡ ok tt
      → read_restore_scan_record id (calm dir) ≡ (done scan, calm dir)
  unfolding read_restore_scan_record read_json_marker handle sys draw
  read_restore_scan_record-calm scan h valid = rw (h, valid)

write_restore_scan_record-calm :
    (scan : RestoreScanRecord) (dir : Dir)
    → validate_restore_scan_record (stamp_scan scan) scan.block_id ≡ ok tt
    → write_restore_scan_record scan (calm dir)
      ≡ (done tt, calm (update scan.block_id (set_scanned (present (stamp_scan scan))) dir))
unfolding write_restore_scan_record write_json_marker handle sys draw
write_restore_scan_record-calm scan dir valid = rw valid

eq_ℤ_refl : (z : ℤ) → eq_ℤ z z ≡ true
eq_ℤ_refl z = ground arith

module _ (id : ℕ) (marker : RestoreMarker) (now : ℤ) (dir : Dir) where
  abbrev Scanned : Dir
  Scanned = update id (set_scanned (present (stamp_scan (scan_record id marker now)))) dir

  recorded :
      (dir id).restore ≡ present marker
      → validate_restore_marker marker id ≡ ok tt
      → leb_ℤ now (pos 0) ≡ false
      → record_restore_scan id now (calm dir) ≡ (done tt, calm Scanned)
  unfolding record_restore_scan handle
  recorded h valid live = rw (
    live,
    read_restore_marker-calm id marker dir h valid,
    write_restore_scan_record-calm (scan_record id marker now) dir
        (scan_record-valid id marker now valid live),
  )

  abbrev AfterFiles : Files → Type 0
  AfterFiles files =
      (files.restore ≡ present marker)
      × (files.scanned ≡ present (stamp_scan (scan_record id marker now)))

  after : (dir id).restore ≡ present marker → AfterFiles (Scanned id)
  after h =
      subst AfterFiles
        (sym (update_self id (set_scanned (present (stamp_scan (scan_record id marker now)))) dir))
        (h, refl)

  settled :
      (dir id).restore ≡ present marker
      → validate_restore_marker marker id ≡ ok tt
      → leb_ℤ now (pos 0) ≡ false
      → restore_pending_scan id (calm Scanned) ≡ (done false, calm Scanned)
  unfolding restore_pending_scan handle scan_record
  settled h valid live = rw (
    read_restore_marker-calm id marker Scanned (after h).0 valid,
    read_restore_scan_record-calm id marker Scanned (stamp_scan (scan_record id marker now))
        (after h).1 (scan_record-valid id marker now valid live),
    eq_ℤ_refl marker.restored_at_us,
  )

-- Where no call fails and a Block has a valid restore marker, recording a scan at a positive time
-- is done without an error and leaves the Block with no scan pending.
pub record_restore_scan-settles :
    (id : ℕ) (marker : RestoreMarker) (now : ℤ) (dir : Dir)
    → (dir id).restore ≡ present marker
    → validate_restore_marker marker id ≡ ok tt
    → leb_ℤ now (pos 0) ≡ false
    → let (o, w) = record_restore_scan id now (calm dir) in
      (o ≡ done tt) × ((restore_pending_scan id w).0 ≡ done false)
record_restore_scan-settles id marker now dir h valid live =
    subst (λ r. (r.0 ≡ done tt) × ((restore_pending_scan id r.1).0 ≡ done false))
      (sym (recorded id marker now dir h valid live))
      (refl, ap (λ r. r.0) (settled id marker now dir h valid live))

-- ===== src/LocalBlock/Transitions/Examples.antt =====
-- internal/localblock/transitions.go: a restore that is killed before it removes the eviction
-- marker, and a scan of a restored Block.
use scrap.Common.{◌≡◌, refl, false, [], ◌∷◌}
use scrap.Common.Int.{pos}
use scrap.LocalBlock.Marker.{validate_restore_marker}
use scrap.LocalBlock.Disk.{present, World, fine, crash, done}
use scrap.LocalBlock.Disk.Hoare.{Ends}
use scrap.LocalBlock.Transitions.{publish_restored_block, record_restore_scan, restore_pending_scan}
use scrap.LocalBlock.Transitions.Restore.{IsRetryable, Answer, publish_restored_block-IsRetryable}
use scrap.LocalBlock.Transitions.Scan.{calm, record_restore_scan-settles}
use scrap.LocalBlock.Samples.{evicted_marker, restored_marker, evicted_dir, restored_dir}

-- The process is killed in the first sync after the rename.
abbrev killed : World
killed = record {
  dir = evicted_dir;
  faults = fine ∷ fine ∷ fine ∷ fine ∷ fine ∷ fine ∷ fine ∷ fine ∷ fine ∷ crash ∷ [];
}

publish_restored_block-IsRetryable_example :
    let (o, w) = publish_restored_block 7 restored_marker killed in
    Ends
      (Answer 7 restored_marker (present evicted_marker))
      (λ _. IsRetryable 7 restored_marker (present evicted_marker))
      o
      w.dir
publish_restored_block-IsRetryable_example =
    publish_restored_block-IsRetryable 7 restored_marker killed refl

record_restore_scan-settles_example :
    let (o, w) = record_restore_scan 7 (pos 300) (calm restored_dir) in
    (o ≡ done tt) × ((restore_pending_scan 7 w).0 ≡ done false)
unfolding validate_restore_marker
record_restore_scan-settles_example =
    record_restore_scan-settles 7 restored_marker (pos 300) restored_dir refl refl refl

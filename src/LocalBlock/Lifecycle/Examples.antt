-- ===== src/LocalBlock/Lifecycle/Examples.antt =====
-- internal/localblock/lifecycle.go: a sweep over an evicted Block in which a read fails.
use scrap.Common.{◌≡◌, refl, false, [], ◌∷◌}
use scrap.LocalBlock.Disk.{World, fine, fail, present}
use scrap.LocalBlock.Lifecycle.{cleanup_hot_markers}
use scrap.LocalBlock.Lifecycle.Cleanup.{cleanup_hot_markers-Evicted}
use scrap.LocalBlock.Samples.{evicted_marker, evicted_dir}

-- The second Block cannot be looked at.
abbrev failing : World
failing = record { dir = evicted_dir; faults = fine ∷ fine ∷ fine ∷ fine ∷ fine ∷ fail ∷ [] }

cleanup_hot_markers-Evicted_example :
    let (o, w) = cleanup_hot_markers (7 ∷ 8 ∷ []) failing in
    ((w.dir 7).blk ≡ false) × ((w.dir 7).eviction ≡ present evicted_marker)
cleanup_hot_markers-Evicted_example = cleanup_hot_markers-Evicted 7 (7 ∷ 8 ∷ []) failing refl

-- ===== src/LocalBlock/Transitions/Rules.antt =====
-- internal/localblock/transitions.go: triples for the removal of the markers, of a property that
-- the removal keeps.
use scrap.Common.{ℕ, Bool, true, false, ◌||◌}
use scrap.LocalBlock.Disk.{absent, Dir, update, Io}
use scrap.LocalBlock.Disk.Hoare.{
  Triple, Triple-pure, Triple-raise, Triple-if, Triple-handle, Triple-bind,
}
use scrap.LocalBlock.Lifecycle.{
  set_restore, set_scanned, set_eviction, sync_directory, is_not_exist, os_remove,
  os_remove_eviction,
}
use scrap.LocalBlock.Lifecycle.Rules.{Triple-os_remove, Triple-sync_directory}
use scrap.LocalBlock.Transitions.{remove_one, remove_restore_marker, remove_eviction_marker}

module _ (P : Dir → Type 0) where
  abbrev Kept : (Dir → Dir) → Type 0
  Kept f = (dir : Dir) → P dir → P (f dir)

  abbrev Keeps : {A : Type 0} → Io A → Type 0
  Keeps m = Triple P m (λ _. P) (λ _. P)

  Keeps-os_remove : (exists : Dir → Bool) (f : Dir → Dir) → Kept f → Keeps (os_remove exists f)
  Keeps-os_remove exists f h =
      Triple-os_remove exists f (λ dir p. p) (λ dir p. p) (λ dir p e. p) (λ dir p e. h dir p)

  Keeps-sync_directory : Keeps sync_directory
  Keeps-sync_directory = Triple-sync_directory (λ o dir p. p)

  Keeps-remove_one : (remove : Io (Unit {0})) → Keeps remove → Keeps (remove_one remove)
  unfolding remove_one
  Keeps-remove_one remove h =
      Triple-handle remove _ _ h (λ dir p. p)
        (λ e.
          Triple-if (is_not_exist e) _ _ (λ _. Triple-pure false (λ dir p. p))
            (λ _. Triple-raise e (λ dir p. p)))
        (λ _. Triple-pure true (λ dir p. p))

  pub Triple-remove_restore_marker :
      (id : ℕ)
      → Kept (update id (set_restore absent))
      → Kept (update id (set_scanned absent))
      → Keeps (remove_restore_marker id)
  unfolding remove_restore_marker
  Triple-remove_restore_marker id hr hs =
      Triple-bind (remove_one _) _ (Keeps-remove_one _ (Keeps-os_remove _ _ hr)) (λ marker.
        Triple-bind (remove_one _) _ (Keeps-remove_one _ (Keeps-os_remove _ _ hs)) (λ scan.
          Triple-if (marker || scan) _ _ (λ _. Keeps-sync_directory)
            (λ _. Triple-pure tt (λ dir p. p))))

  pub Triple-remove_eviction_marker :
      (id : ℕ) → Kept (update id (set_eviction absent)) → Keeps (remove_eviction_marker id)
  unfolding remove_eviction_marker os_remove_eviction
  Triple-remove_eviction_marker id h =
      Triple-handle (os_remove_eviction id) _ _ (Keeps-os_remove _ _ h) (λ dir p. p)
        (λ e.
          Triple-if (is_not_exist e) _ _ (λ _. Triple-pure tt (λ dir p. p))
            (λ _. Triple-raise e (λ dir p. p)))
        (λ _. Keeps-sync_directory)

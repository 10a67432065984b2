-- ===== src/LocalBlock/Transitions/Restore.antt =====
-- internal/localblock/transitions.go: what the publication of a restored Block leaves, wherever it
-- fails and wherever the process is killed.
use mathlib.Core.Path.{subst}
use scrap.Common.{sym, ap, ℕ, ◌≡◌, refl, Bool, true, false, Option, none, some, arith}
use scrap.LocalBlock.Marker.{
  Error, not_exist, EvictionMarker, RestoreMarker, validate_restore_marker,
}
use scrap.LocalBlock.Disk.{
  File, absent, present, unreadable, Files, Dir, World, update_self, lift, sys,
}
use scrap.LocalBlock.Disk.Hoare.{
  Ends, Triple, Triple-pure, Triple-raise, Triple-if, Triple-lift, Triple-modify, Triple-sys,
  Triple-handle, Triple-bind,
}
use scrap.LocalBlock.Lifecycle.{
  set_restore, set_eviction, write_restore_marker, sync_directory, stamp_restore, is_not_exist,
  is_there, os_remove_eviction,
}
use scrap.LocalBlock.Lifecycle.Rules.{
  Triple-write_json_marker, Triple-os_remove, Triple-sync_directory,
}
use scrap.LocalBlock.Transitions.{
  set_blk, rename_block, for_block, remove_eviction_marker, publish_restored_block,
}

-- The Block has its restore marker as soon as it is there, and its eviction marker as before
-- while it is not.
pub record IsRetryable (id : ℕ) (marker : RestoreMarker) (eviction : File EvictionMarker)
    (dir : Dir) : Type 0 where
  pub marked :
      (dir id).blk ≡ true → (dir id).restore ≡ present (stamp_restore (for_block id marker))
  pub kept : (dir id).blk ≡ false → (dir id).eviction ≡ eviction

not_there : {A : Type 0} (f : File A) → is_there f ≡ false → f ≡ absent
not_there absent e = refl
not_there (present a) e = cc
not_there unreadable e = cc

is_not_exist→eq : (e : Error) → is_not_exist e ≡ true → e ≡ not_exist
is_not_exist→eq e h = ground arith

module _ (id : ℕ) (marker : RestoreMarker) (eviction : File EvictionMarker) where
  abbrev pub Evicted : Dir → Type 0
  Evicted dir = ((dir id).blk ≡ false) × ((dir id).eviction ≡ eviction)

  abbrev MarkedFiles : Files → Type 0
  MarkedFiles files =
      (files.blk ≡ false)
      × (files.eviction ≡ eviction)
      × (files.restore ≡ present (stamp_restore (for_block id marker)))

  abbrev PlacedFiles : Files → Type 0
  PlacedFiles files =
      (files.blk ≡ true) × (files.restore ≡ present (stamp_restore (for_block id marker)))

  abbrev pub PublishedFiles : Files → Type 0
  PublishedFiles files =
      (files.blk ≡ true)
      × (files.restore ≡ present (stamp_restore (for_block id marker)))
      × (files.eviction ≡ absent)

  abbrev Marked : Dir → Type 0
  Marked dir = MarkedFiles (dir id)

  abbrev Placed : Dir → Type 0
  Placed dir = PlacedFiles (dir id)

  abbrev pub Published : Dir → Type 0
  Published dir = PublishedFiles (dir id)

  abbrev pub Retry : Dir → Type 0
  Retry = IsRetryable id marker eviction

  Evicted-Retry : (dir : Dir) → Evicted dir → Retry dir
  Evicted-Retry dir h = record { marked = λ e. ground arith; kept = λ _. h.1 }

  Marked-Retry : (dir : Dir) → Marked dir → Retry dir
  Marked-Retry dir h = record { marked = λ e. ground arith; kept = λ _. h.1 }

  Placed-Retry : (dir : Dir) → Placed dir → Retry dir
  Placed-Retry dir h = record { marked = λ _. h.1; kept = λ e. ground arith }

  Triple-mark :
      Triple Evicted (write_restore_marker (for_block id marker)) (λ _. Marked) (λ _. Evicted)
  unfolding write_restore_marker
  Triple-mark =
      Triple-bind (lift (validate_restore_marker (stamp_restore (for_block id marker)) id)) _
        (Triple-lift _ (λ o dir h. h))
        (λ _.
          Triple-write_json_marker _ (λ o dir h. h.0)
            (λ dir h.
              subst MarkedFiles
                (sym (
                  update_self id (set_restore (present (stamp_restore (for_block id marker)))) dir))
                (h.0.0, h.0.1, refl))
            (λ o dir h. (h.0, h.1)))

  Triple-rename : Triple Marked (rename_block id) (λ _. Placed) (λ _. Marked)
  unfolding rename_block
  Triple-rename = Triple-bind sys _ (Triple-sys (λ dir h. h) (λ dir h. h)) (λ _.
      Triple-modify _
        (λ dir h. subst PlacedFiles (sym (update_self id (set_blk true) dir)) (refl, h.2)))

  -- After a removal that fails with `not_exist` there is no eviction marker.
  abbrev Unremoved : Option Error → Dir → Type 0
  Unremoved o dir = Placed dir × (o ≡ some not_exist → (dir id).eviction ≡ absent)

  Triple-os_remove_eviction : Triple Placed (os_remove_eviction id) (λ _. Published) Unremoved
  unfolding os_remove_eviction
  Triple-os_remove_eviction =
      Triple-os_remove _ _ (λ dir h. (h, λ e. cc)) (λ dir h. (h, λ e. cc))
        (λ dir h missing. (h, λ _. not_there (dir id).eviction missing))
        (λ dir h there.
          subst PublishedFiles (sym (update_self id (set_eviction absent) dir)) (h.0, h.1, refl))

  -- Failing to remove the eviction marker leaves the Block placed.
  Triple-unmark : Triple Placed (remove_eviction_marker id) (λ _. Published) (λ _. Placed)
  unfolding remove_eviction_marker
  Triple-unmark =
      Triple-handle (os_remove_eviction id) _ _ Triple-os_remove_eviction (λ dir h. h.0)
        (λ e.
          Triple-if (is_not_exist e) _ _
            (λ missing.
              Triple-pure tt (λ dir h. (h.0.0, h.0.1, h.1 (ap some (is_not_exist→eq e missing)))))
            (λ _. Triple-raise e (λ dir h. h.0)))
        (λ _. Triple-sync_directory (λ o dir h. (h.0, h.1)))

  -- What a publication says: whether the Block is there, and if there is no error, that all is done.
  abbrev pub Answer : Bool × Option Error → Dir → Type 0
  Answer (published, e) dir = Retry dir × ((dir id).blk ≡ published) × (e ≡ none → Published dir)

  Triple-publish : Triple Evicted (publish_restored_block id marker) Answer (λ _. Retry)
  unfolding publish_restored_block
  Triple-publish =
      Triple-handle (write_restore_marker (for_block id marker)) _ _ Triple-mark Evicted-Retry
        (λ e. Triple-pure _ (λ dir h. (Evicted-Retry dir h, h.0, λ x. cc)))
        (λ _.
          Triple-handle (rename_block id) _ _ Triple-rename Marked-Retry
            (λ e. Triple-pure _ (λ dir h. (Marked-Retry dir h, h.0, λ x. cc)))
            (λ _.
              Triple-handle sync_directory _ _ (Triple-sync_directory (λ o dir h. h)) Placed-Retry
                (λ e. Triple-pure _ (λ dir h. (Placed-Retry dir h, h.0, λ x. cc)))
                (λ _.
                  Triple-handle (remove_eviction_marker id) _ _ Triple-unmark Placed-Retry
                    (λ e. Triple-pure _ (λ dir h. (Placed-Retry dir h, h.0, λ x. cc)))
                    (λ _. Triple-pure _ (λ dir h. (Placed-Retry dir (h.0, h.1), h.0, λ _. h))))))

-- A publication of a Block that is not there, begun in any directory and under any faults, never
-- leaves the Block there without the restore marker of this restore, and while the Block is not
-- there its eviction marker is as it was, so that the restore can be tried again. If it returns,
-- it says whether the Block is there, and if it returns no error, the Block and its restore
-- marker are there and the eviction marker is gone.
pub publish_restored_block-IsRetryable :
    (id : ℕ) (marker : RestoreMarker) (w : World)
    → (w.dir id).blk ≡ false
    → let (o, w') = publish_restored_block id marker w in
      Ends
        (Answer id marker (w.dir id).eviction)
        (λ _. IsRetryable id marker (w.dir id).eviction)
        o
        w'.dir
publish_restored_block-IsRetryable id marker w gone =
    (Triple-publish id marker (w.dir id).eviction).at w (gone, refl)

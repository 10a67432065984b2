-- ===== src/LocalBlock/Lifecycle/Rules.antt =====
-- internal/localblock/lifecycle.go: triples for the writes, the syncs and the removals.
use scrap.Common.{◌≡◌, ◌∙◌, Bool, true, false, Option, none, some}
use scrap.LocalBlock.Marker.{Error, not_exist, io}
use scrap.LocalBlock.Disk.{Dir, sys, modify, look}
use scrap.LocalBlock.Disk.Hoare.{
  Triple, Triple-raise, Triple-if, Triple-look, Triple-modify, Triple-sys, Triple-bind,
}
use scrap.LocalBlock.Lifecycle.{write_json_marker, sync_directory, os_remove}

module _ {P P' : Dir → Type 0} {R : Option Error → Dir → Type 0} where
  -- A marker is published in one step: before it `P` holds, and after it `P'`.
  pub Triple-write_json_marker :
      (f : Dir → Dir)
      → ((o : Option Error) (dir : Dir) → P dir → R o dir)
      → ((dir : Dir) → P dir → P' (f dir))
      → ((o : Option Error) (dir : Dir) → P' dir → R o dir)
      → Triple P (write_json_marker f) (λ _. P') R
  unfolding write_json_marker
  Triple-write_json_marker f before at after =
      let quiet : Triple P sys (λ _. P) R = Triple-sys (before (some io)) (before none) in
      let settled : Triple P' sys (λ _. P') R = Triple-sys (after (some io)) (after none) in
      Triple-bind sys _ quiet (λ _. Triple-bind sys _ quiet (λ _. Triple-bind sys _ quiet (λ _.
        Triple-bind sys _ quiet (λ _. Triple-bind sys _ quiet (λ _. Triple-bind sys _ quiet (λ _.
          Triple-bind (modify f) _ (Triple-modify f at)
            (λ _. Triple-bind sys _ settled (λ _. settled))))))))

  -- A removal fails with `not_exist` only where the file is not there.
  pub Triple-os_remove :
      (exists : Dir → Bool) (remove : Dir → Dir)
      → ((dir : Dir) → P dir → R none dir)
      → ((dir : Dir) → P dir → R (some io) dir)
      → ((dir : Dir) → P dir → exists dir ≡ false → R (some not_exist) dir)
      → ((dir : Dir) → P dir → exists dir ≡ true → P' (remove dir))
      → Triple P (os_remove exists remove) (λ _. P') R
  unfolding os_remove
  Triple-os_remove exists remove killed refused missing there =
      Triple-bind sys _ (Triple-sys refused killed) (λ _.
        Triple-bind (look exists) _ (Triple-look exists) (λ b.
          Triple-if b _ _ (λ e. Triple-modify remove (λ dir h. there dir h.0 (h.1 ∙ e)))
            (λ e. Triple-raise not_exist (λ dir h. missing dir h.0 (h.1 ∙ e)))))

module _ {P : Dir → Type 0} {R : Option Error → Dir → Type 0} where
  pub Triple-sync_directory :
      ((o : Option Error) (dir : Dir) → P dir → R o dir) → Triple P sync_directory (λ _. P) R
  unfolding sync_directory
  Triple-sync_directory h =
      let quiet : Triple P sys (λ _. P) R = Triple-sys (h (some io)) (h none) in
      Triple-bind sys _ quiet (λ _. quiet)

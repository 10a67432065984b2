-- ===== src/LocalBlock/Lifecycle/Classify.antt =====
-- internal/localblock/lifecycle.go: triples for the reads. They change nothing, and a marker that
-- is read is the one that is there.
use mathlib.Core.Path.{subst}
use scrap.Common.{ℕ, ◌≡◌, Bool, not, none, some}
use scrap.Common.Result.{Result}
use scrap.LocalBlock.Marker.{
  Error, EvictionMarker, validate_eviction_marker, validate_restore_marker,
}
use scrap.LocalBlock.Disk.{File, absent, present, unreadable, Dir, Io, lift, sys, look}
use scrap.LocalBlock.Disk.Hoare.{
  Triple, Triple-pre, Triple-pure, Triple-raise, Triple-if, Triple-look, Triple-lift, Triple-sys,
  Triple-handle, Triple-bind,
}
use scrap.LocalBlock.Lifecycle.{
  Lifecycle, Markers, decoded, is_not_exist, optional, file_exists, read_json_marker,
  read_eviction_marker, read_restore_marker, read_markers, classify_state, classified, classify,
}

abbrev pub Reads : {A : Type 0} → (Dir → Type 0) → Io A → (A → Dir → Type 0) → Type 0
Reads P m F = Triple P m (λ a dir. P dir × F a dir) (λ _. P)

module _ {P : Dir → Type 0} where
  Reads-decoded :
      {A : Type 0} (file : Dir → File A) (f : File A)
      → Triple
          (λ dir. P dir × (file dir ≡ f))
          (lift (decoded f))
          (λ a dir. P dir × (file dir ≡ present a))
          (λ _. P)
  Reads-decoded file absent = Triple-raise _ (λ dir h. h.0)
  Reads-decoded file (present a) = Triple-pure a (λ dir h. h)
  Reads-decoded file unreadable = Triple-raise _ (λ dir h. h.0)

  Reads-read_json_marker :
      {A : Type 0} (file : Dir → File A)
      → Reads P (read_json_marker file) (λ a dir. file dir ≡ present a)
  unfolding read_json_marker
  Reads-read_json_marker file =
      Triple-bind sys _ (Triple-sys (λ dir h. h) (λ dir h. h))
        (λ _. Triple-bind (look file) _ (Triple-look file) (λ f. Reads-decoded file f))

  pub Reads-read_eviction_marker :
      (id : ℕ) → Reads P (read_eviction_marker id) (λ m dir. (dir id).eviction ≡ present m)
  unfolding read_eviction_marker
  Reads-read_eviction_marker id =
      Triple-bind (read_json_marker _) _ (Reads-read_json_marker _) (λ m.
        Triple-bind (lift (validate_eviction_marker m id)) _ (Triple-lift _ (λ o dir h. h.0))
          (λ _. Triple-pure m (λ dir h. h.0)))

  pub Reads-read_restore_marker :
      (id : ℕ) → Reads P (read_restore_marker id) (λ m dir. (dir id).restore ≡ present m)
  unfolding read_restore_marker
  Reads-read_restore_marker id = Triple-bind (read_json_marker _) _ (Reads-read_json_marker _) (λ m.
      Triple-bind (lift (validate_restore_marker m id)) _ (Triple-lift _ (λ o dir h. h.0))
        (λ _. Triple-pure m (λ dir h. h.0)))

  pub Reads-optional :
      {A : Type 0} (m : Io A) (F : A → Dir → Type 0)
      → Reads P m F
      → Reads P (optional m) (λ o dir. (a : A) → o ≡ some a → F a dir)
  unfolding optional
  Reads-optional m F h =
      Triple-handle m _ _ h (λ dir p. p)
        (λ e.
          Triple-if (is_not_exist e) _ _ (λ _. Triple-pure none (λ dir p. (p, λ a x. cc)))
            (λ _. Triple-raise e (λ dir p. p)))
        (λ a.
          Triple-pure (some a)
            (λ dir p. (p.0, λ b x. let e : a ≡ b = cc in subst (λ z. F z dir) e p.1)))

  pub Reads-file_exists : (f : Dir → Bool) → Reads P (file_exists f) (λ b dir. f dir ≡ b)
  unfolding file_exists
  Reads-file_exists f =
      Triple-bind sys _ (Triple-sys (λ dir h. h) (λ dir h. h)) (λ _. Triple-look f)

-- The eviction marker that a classification holds is the one that is there.
abbrev pub IsRead : ℕ → Lifecycle → Dir → Type 0
IsRead id lifecycle dir =
    (m : EvictionMarker) → lifecycle.eviction_marker ≡ some m → (dir id).eviction ≡ present m

abbrev MarkersRead : ℕ → Bool → Result Error Markers × Lifecycle → Dir → Type 0
MarkersRead id blk_exists r = IsRead id (classified id blk_exists r).0

module _ {P : Dir → Type 0} (id : ℕ) where
  Reads-read_markers :
      (blk_exists : Bool) → Reads P (read_markers id blk_exists) (MarkersRead id blk_exists)
  unfolding read_markers classify_state
  Reads-read_markers blk_exists =
      Triple-handle (optional (read_eviction_marker id)) _ _
        (Reads-optional _ _ (Reads-read_eviction_marker id)) (λ dir p. p)
        (λ e. Triple-pure _ (λ dir p. (p, λ m x. cc)))
        (λ eviction.
          Triple-handle (optional (read_restore_marker id)) _ _
            (Reads-optional _ _ (Reads-read_restore_marker id)) (λ dir p. p.0)
            (λ e. Triple-pure _ (λ dir p. (p.0, λ m x. cc)))
            (λ restore. Triple-pure _ (λ dir p. p.0)))

  pub Reads-classify : Reads P (classify id) (λ r. IsRead id r.0)
  unfolding classify
  Reads-classify =
      Triple-handle (file_exists _) _ _ (Reads-file_exists _) (λ dir p. p)
        (λ e. Triple-pure _ (λ dir p. (p, λ m x. cc)))
        (λ blk_exists.
          Triple-handle (file_exists _) _ _ (Reads-file_exists _) (λ dir p. p.0)
            (λ e. Triple-pure _ (λ dir p. (p.0, λ m x. cc)))
            (λ idx_exists.
              Triple-if (not idx_exists) _ _ (λ _. Triple-pure _ (λ dir p. (p.0.0, λ m x. cc)))
                (λ _.
                  Triple-bind (read_markers id blk_exists) _
                    (Triple-pre _ (λ dir p. p.0.0) (Reads-read_markers blk_exists))
                    (λ markers. Triple-pure _ (λ dir p. p)))))

-- ===== src/LocalBlock/Lifecycle/Cleanup.antt =====
-- internal/localblock/lifecycle.go: the sweep of the markers, for a Block that is evicted.
use scrap.Common.{
  ℕ, ◌≡◌, refl, ◌∙◌, ap, Bool, true, false, not, Bool-cases, inl, inr, ==_iff, Option, none, some,
  List, [], ◌∷◌, ◌==◌, if◌then◌else◌,
}
use scrap.LocalBlock.Marker.{Error, EvictionMarker}
use scrap.LocalBlock.Disk.{
  File, absent, Files, Dir, World, Outcome, done, failed, crashed, update, pure, raise, handle, sys,
}
use scrap.LocalBlock.Disk.Hoare.{
  Ends, Triple, Triple-pre, Triple-pure, Triple-raise, Triple-if, Triple-sys, Triple-handle,
  Triple-bind,
}
use scrap.LocalBlock.Lifecycle.{
  Lifecycle, State, hot_cleanup_needed, Markers, is_not_exist, is_hot_cleanup_needed, raise_some,
  optional, file_exists, read_eviction_marker, read_restore_marker, read_markers, classify_state,
  classified, classify, os_remove_eviction, set_eviction, sync_directory, cleanup_hot_marker,
  cleanup_loop, cleanup_hot_markers,
}
use scrap.LocalBlock.Lifecycle.Rules.{Triple-os_remove, Triple-sync_directory}
use scrap.LocalBlock.Lifecycle.Classify.{
  Reads, Reads-optional, Reads-read_eviction_marker, Reads-read_restore_marker, Reads-file_exists,
}

-- A Block whose marker is to be cleaned up is there.
abbrev IsHere : ℕ → Lifecycle → Dir → Type 0
IsHere id lifecycle dir = lifecycle.state ≡ hot_cleanup_needed → (dir id).blk ≡ true

classify_state_here :
    (id : ℕ) (blk_exists : Bool) (markers : Markers)
    → (classify_state id blk_exists markers).state ≡ hot_cleanup_needed
    → blk_exists ≡ true
unfolding classify_state
classify_state_here id true markers h = refl
classify_state_here id false (none, restore) h = cc
classify_state_here id false (some m, restore) h = cc

is_hot_cleanup_needed→eq :
    (s : State) → not (is_hot_cleanup_needed s) ≡ false → s ≡ hot_cleanup_needed
is_hot_cleanup_needed→eq State.unset h = cc
is_hot_cleanup_needed→eq State.hot h = cc
is_hot_cleanup_needed→eq State.evicted h = cc
is_hot_cleanup_needed→eq State.hot_cleanup_needed h = refl
is_hot_cleanup_needed→eq State.metadata_loss h = cc
is_hot_cleanup_needed→eq State.unexpected_loss h = cc

module _ {P : Dir → Type 0} (id : ℕ) where
  Reads-read_markers_here :
      (blk_exists : Bool)
      → Reads P
          (read_markers id blk_exists)
          (λ r dir. (classified id blk_exists r).0.state ≡ hot_cleanup_needed → blk_exists ≡ true)
  unfolding read_markers
  Reads-read_markers_here blk_exists =
      Triple-handle (optional (read_eviction_marker id)) _ _
        (Reads-optional _ _ (Reads-read_eviction_marker id)) (λ dir p. p)
        (λ e. Triple-pure _ (λ dir p. (p, λ x. cc)))
        (λ eviction.
          Triple-handle (optional (read_restore_marker id)) _ _
            (Reads-optional _ _ (Reads-read_restore_marker id)) (λ dir p. p.0)
            (λ e. Triple-pure _ (λ dir p. (p.0, λ x. cc)))
            (λ restore.
              Triple-pure _
                (λ dir p. (p.0.0, λ x. classify_state_here id blk_exists (eviction, restore) x))))

module _ {P : Dir → Type 0} (id : ℕ) where
  Reads-classify-IsHere : Reads P (classify id) (λ r. IsHere id r.0)
  unfolding classify
  Reads-classify-IsHere =
      Triple-handle (file_exists _) _ _ (Reads-file_exists _) (λ dir p. p)
        (λ e. Triple-pure _ (λ dir p. (p, λ x. cc)))
        (λ blk_exists.
          Triple-handle (file_exists _) _ _ (Reads-file_exists _) (λ dir p. p.0)
            (λ e. Triple-pure _ (λ dir p. (p.0, λ x. cc)))
            (λ idx_exists.
              Triple-if (not idx_exists) _ _ (λ _. Triple-pure _ (λ dir p. (p.0.0, λ x. cc)))
                (λ _.
                  Triple-handle (read_markers id blk_exists) _ _
                    (Triple-pre _ (λ dir p. p.0)
                      (Reads-read_markers_here {P = λ dir. P dir × ((dir id).blk ≡ blk_exists)} id
                        blk_exists))
                    (λ dir p. p.0) (λ e. Triple-raise e (λ dir p. p.0))
                    (λ markers. Triple-pure _ (λ dir p. (p.0.0, λ x. p.0.1 ∙ p.1 x))))))

module _ (k : ℕ) (marker : File EvictionMarker) where
  -- The Block is not there, and its eviction marker is this one.
  abbrev pub Evicted : Dir → Type 0
  Evicted dir = ((dir k).blk ≡ false) × ((dir k).eviction ≡ marker)

  removed_elsewhere :
      (id : ℕ) (f : Files → Files) (dir : Dir)
      → (dir id).blk ≡ true
      → Evicted dir
      → Evicted (update id f dir)
  removed_elsewhere id f dir here h = elim (Bool-cases (k == id)) [
    | inl e ↦
        let same : k ≡ id = (==_iff k id).0 e in
        let there : (dir k).blk ≡ true = ap (λ j. (dir j).blk) same ∙ here in cc
    | inr e ↦ rw e h
  ]

  Triple-cleanup_hot_marker :
      (id : ℕ) → Triple Evicted (cleanup_hot_marker id) (λ _. Evicted) (λ _. Evicted)
  unfolding cleanup_hot_marker os_remove_eviction
  Triple-cleanup_hot_marker id =
      Triple-bind (classify id) _ (Reads-classify-IsHere id) (λ r. checked r.1 r.0)
    where
      checked :
          (e : Option Error) (lifecycle : Lifecycle)
          → Triple
              (λ dir. Evicted dir × IsHere id lifecycle dir)
              (raise_some e (
                if not (is_hot_cleanup_needed lifecycle.state)
                then pure false
                else handle
                    (os_remove_eviction id)
                    (λ e. if is_not_exist e then pure true else raise e)
                    (λ _. pure true)))
              (λ _. Evicted)
              (λ _. Evicted)
      checked (some e) lifecycle = Triple-raise e (λ dir p. p.0)
      checked none lifecycle =
          Triple-if (not (is_hot_cleanup_needed lifecycle.state)) _ _
            (λ _. Triple-pure false (λ dir p. p.0))
            (λ needed.
              Triple-handle (os_remove_eviction id) _ _
                (Triple-os_remove {R = λ _. Evicted} _ _ (λ dir p. p.0) (λ dir p. p.0)
                  (λ dir p e. p.0)
                  (λ dir p e.
                    removed_elsewhere id (set_eviction absent) dir
                      (p.1 (is_hot_cleanup_needed→eq lifecycle.state needed)) p.0))
                (λ dir p. p)
                (λ e.
                  Triple-if (is_not_exist e) _ _ (λ _. Triple-pure true (λ dir p. p))
                    (λ _. Triple-raise e (λ dir p. p)))
                (λ _. Triple-pure true (λ dir p. p)))

  Triple-cleanup_loop :
      (ids : List ℕ) → Triple Evicted (cleanup_loop ids) (λ _. Evicted) (λ _. Evicted)
  unfolding cleanup_loop
  Triple-cleanup_loop [] = Triple-pure _ (λ dir p. p)
  Triple-cleanup_loop (id ∷ ids) =
      Triple-handle (cleanup_hot_marker id) _ _ (Triple-cleanup_hot_marker id) (λ dir p. p)
        (λ e.
          Triple-bind (cleanup_loop ids) _ (Triple-cleanup_loop ids)
            (λ r. Triple-pure _ (λ dir p. p)))
        (λ done.
          Triple-bind (cleanup_loop ids) _ (Triple-cleanup_loop ids)
            (λ r. Triple-pure _ (λ dir p. p)))

  Triple-cleanup_hot_markers :
      (ids : List ℕ) → Triple Evicted (cleanup_hot_markers ids) (λ _. Evicted) (λ _. Evicted)
  unfolding cleanup_hot_markers
  Triple-cleanup_hot_markers ids =
      Triple-handle sys _ _ (Triple-sys {R = λ _. Evicted} (λ dir p. p) (λ dir p. p)) (λ dir p. p)
        (λ e. Triple-pure _ (λ dir p. p))
        (λ _. Triple-bind (cleanup_loop ids) _ (Triple-cleanup_loop ids) (λ r.
          Triple-if r.1 _ _
            (λ _.
              Triple-handle sync_directory _ _
                (Triple-sync_directory {R = λ _. Evicted} (λ o dir p. p)) (λ dir p. p)
                (λ e. Triple-pure _ (λ dir p. p)) (λ _. Triple-pure _ (λ dir p. p)))
            (λ _. Triple-pure _ (λ dir p. p))))

-- A sweep of the stale eviction markers, over any Blocks in any order, with any calls failing and
-- wherever the process is killed, leaves a Block that is not there as it is: it does not appear,
-- and it keeps its eviction marker, so that an evicted Block does not become a lost one.
pub cleanup_hot_markers-Evicted :
    (k : ℕ) (ids : List ℕ) (w : World)
    → (w.dir k).blk ≡ false
    → let (o, w') = cleanup_hot_markers ids w in
      ((w'.dir k).blk ≡ false) × ((w'.dir k).eviction ≡ (w.dir k).eviction)
cleanup_hot_markers-Evicted k ids w gone =
    Ends_any (cleanup_hot_markers ids w).0 (cleanup_hot_markers ids w).1.dir
      ((Triple-cleanup_hot_markers k (w.dir k).eviction ids).at w (gone, refl))
  where
    Ends_any :
        {A : Type 0} (o : Outcome A) (dir : Dir)
        → Ends (λ _. Evicted k (w.dir k).eviction) (λ _. Evicted k (w.dir k).eviction) o dir
        → Evicted k (w.dir k).eviction dir
    Ends_any (done a) dir h = h
    Ends_any (failed e) dir h = h
    Ends_any crashed dir h = h

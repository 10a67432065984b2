-- ===== src/Shard/EvictionApply/Steps.antt =====
-- internal/shard/eviction_apply.go: what holds of the Block at each step of its eviction.
use mathlib.Core.Path.{subst}
use scrap.Common.{
  ◌≡◌, refl, sym, ap, ◌∙◌, ◌⊎◌, inl, inr, String, Bool, true, false, Option, none, some, Bool-cases,
  arith,
}
use scrap.Common.Int.{ℤ, pos, ltb_ℤ, ◌≤ℤ◌, ◌<ℤ◌}
use scrap.Common.Result.{Result, ok}
use scrap.Index.{ConfirmedUpload}
use scrap.Eviction.{Plan, PlanBlock, ApplyBlock, ApplyBlockStatus}
use scrap.Eviction.Apply.{skipped_block, failed_block}
use scrap.LocalBlock.Marker.{Error, EvictionMarker}
use scrap.LocalBlock.Disk.{absent, present, Files, Dir, update, update_self, lift}
use scrap.LocalBlock.Disk.Hoare.{
  Triple, Triple-pure, Triple-if, Triple-lift, Triple-check, Triple-handle, Triple-bind,
}
use scrap.LocalBlock.Lifecycle.{
  Lifecycle, write_eviction_marker, set_eviction, set_restore, set_scanned,
}
use scrap.LocalBlock.Lifecycle.Rules.{Triple-write_json_marker}
use scrap.LocalBlock.Lifecycle.Classify.{IsRead}
use scrap.LocalBlock.Transitions.{
  set_blk, prepare_eviction, remove_eviction_marker, remove_restore_marker,
}
use scrap.LocalBlock.Transitions.Rules.{Triple-remove_restore_marker, Triple-remove_eviction_marker}
use scrap.Shard.EvictionApply.{
  AuthorityError, Host, eviction_plan_expired, Unlink, blocked, unlinked, apply_outcome, is_cleanup,
  is_hot, prepare_eviction_marker_for_apply, skip_eviction_after_prepared_marker, after_unlink,
}
use scrap.Shard.EvictionApply.Authority.{IsDurable, IsMarked, matches-IsMarked}

-- A plan that has no time of expiry, or one that is later.
abbrev pub IsUnexpired : Plan → ℤ → Type 0
IsUnexpired plan now = (plan.expires_at_us ≤ℤ pos 0) ⊎ (now <ℤ plan.expires_at_us)

eviction_plan_expired-IsUnexpired :
    (plan : Plan) (now : ℤ) → eviction_plan_expired plan now ≡ false → IsUnexpired plan now
unfolding eviction_plan_expired
eviction_plan_expired-IsUnexpired plan now h =
    elim (Bool-cases (ltb_ℤ (pos 0) plan.expires_at_us)) [
      | inl dated ↦ let later : now <ℤ plan.expires_at_us = ground arith in inr later
      | inr undated ↦ let never : plan.expires_at_us ≤ℤ pos 0 = ground arith in inl never
    ]

module _ (host : Host) (authority : Result AuthorityError ConfirmedUpload) (plan : Plan)
    (selected : PlanBlock) where
  pub record IsEvicted (dir : Dir) : Type 0 where
    pub gone : (dir selected.block_id).blk ≡ false
    pub confirmed : ConfirmedUpload
    pub committed : authority ≡ ok confirmed
    pub durable : IsDurable selected confirmed
    pub marked : IsMarked selected.block_id confirmed (dir selected.block_id)
    pub follower : host.leader_at_unlink ≡ false
    pub fresh : IsUnexpired plan host.now_at_unlink

  abbrev pub Live : Dir → Type 0
  Live dir = (dir selected.block_id).blk ≡ true

  abbrev pub Safe : Dir → Type 0
  Safe dir = Live dir ⊎ IsEvicted dir

  -- What holds of a result of the Block.
  abbrev pub Told : ApplyBlock → Dir → Type 0
  Told block dir = Safe dir × (block.status ≡ ApplyBlockStatus.evicted → IsEvicted dir)

  abbrev pub ToldUnlink : Unlink → Dir → Type 0
  ToldUnlink (blocked block) dir = Told block dir
  ToldUnlink (unlinked removed (some e)) dir = Safe dir
  ToldUnlink (unlinked removed none) dir = IsEvicted dir

  pub Told-skipped :
      (reason : String) (dir : Dir) → Live dir → Told (skipped_block selected reason) dir
  unfolding skipped_block
  Told-skipped reason dir h = (inl h, λ e. cc)

  pub Told-failed : (text : String) (dir : Dir) → Safe dir → Told (failed_block selected text) dir
  unfolding failed_block
  Told-failed text dir h = (h, λ e. cc)

  pub Told-apply_outcome :
      (confirmed : ConfirmedUpload) (u : Unlink) (dir : Dir)
      → ToldUnlink u dir
      → Told (apply_outcome host selected confirmed u) dir
  unfolding apply_outcome failed_block
  Told-apply_outcome confirmed (blocked block) dir h = h
  Told-apply_outcome confirmed (unlinked true (some e)) dir h = (h, λ x. cc)
  Told-apply_outcome confirmed (unlinked false (some e)) dir h = (h, λ x. cc)
  Told-apply_outcome confirmed (unlinked removed none) dir h = (inr h, λ x. h)

  module _ (confirmed : ConfirmedUpload) (committed : authority ≡ ok confirmed)
      (durable : IsDurable selected confirmed) where
    abbrev pub Ready : Dir → Type 0
    Ready dir = Live dir × IsMarked selected.block_id confirmed (dir selected.block_id)

    pub removed_Block :
        (dir : Dir)
        → host.leader_at_unlink ≡ false
        → eviction_plan_expired plan host.now_at_unlink ≡ false
        → Ready dir
        → IsEvicted (update selected.block_id (set_blk false) dir)
    removed_Block dir follower fresh h =
        let here = sym (update_self selected.block_id (set_blk false) dir) in
        let old = h.1 in
        record {
          gone = ap (λ f. f.blk) (sym here);
          confirmed = confirmed;
          committed = committed;
          durable = durable;
          marked = subst (IsMarked selected.block_id confirmed) here (record {
            marker = old.marker;
            there = old.there;
            key = old.key;
            size = old.size;
            token = old.token;
          });
          follower = follower;
          fresh = eviction_plan_expired-IsUnexpired plan host.now_at_unlink fresh;
        }

    abbrev ReadyFiles : Files → Type 0
    ReadyFiles files = (files.blk ≡ true) × IsMarked selected.block_id confirmed files

    marked_Block :
        (m : EvictionMarker) (dir : Dir)
        → confirmed.block_id ≡ selected.block_id
        → m.backend_key ≡ confirmed.block_object.key
        → m.size_bytes ≡ confirmed.block_object.size_bytes
        → m.validation_token ≡ confirmed.block_object.validation_token
        → Live dir
        → Ready (update confirmed.block_id (set_eviction (present m)) dir)
    marked_Block m dir same key size token h =
        subst (λ i. Ready (update i (set_eviction (present m)) dir)) (sym same)
          (subst ReadyFiles (sym (update_self selected.block_id (set_eviction (present m)) dir))
            (h, record { marker = m; there = refl; key = key; size = size; token = token }))

    -- The marker is written, or it is there already and matches.
    pub Triple-prepare :
        (lifecycle : Lifecycle)
        → confirmed.block_id ≡ selected.block_id
        → Triple
            (λ dir. Live dir × IsRead selected.block_id lifecycle dir)
            (prepare_eviction_marker_for_apply host plan lifecycle confirmed)
            (λ _. Ready)
            (λ _. Live)
    unfolding prepare_eviction_marker_for_apply prepare_eviction write_eviction_marker
    Triple-prepare lifecycle same =
        Triple-if (is_cleanup lifecycle.state) _ _
          (λ _.
            Triple-check _ (λ o dir h. h.0)
              (λ a dir h eq.
                (h.0, matches-IsMarked selected.block_id confirmed lifecycle dir eq h.1)))
          (λ _. Triple-bind (lift _) _ (Triple-lift _ (λ o dir h. h.0)) (λ _.
            Triple-write_json_marker _ (λ o dir h. h.0.0)
              (λ dir h. marked_Block _ dir same refl refl refl h.0.0) (λ o dir h. h.0)))

  -- What the unlink of the Block says.
  abbrev pub ToldPair : Bool × Option Error → Dir → Type 0
  ToldPair (removed, some e) dir = Safe dir
  ToldPair (removed, none) dir = IsEvicted dir

  IsEvicted-update :
      (f : Files → Files)
      → ((files : Files) → ((f files).blk ≡ files.blk) × ((f files).eviction ≡ files.eviction))
      → (dir : Dir) → IsEvicted dir
      → IsEvicted (update selected.block_id f dir)
  IsEvicted-update f keeps dir h =
      let here = update_self selected.block_id f dir in
      let k = keeps (dir selected.block_id) in
      let old = h.marked in
      record {
        gone = ap (λ x. x.blk) here ∙ (k.0 ∙ h.gone);
        confirmed = h.confirmed;
        committed = h.committed;
        durable = h.durable;
        marked = record {
          marker = old.marker;
          there = ap (λ x. x.eviction) here ∙ (k.1 ∙ old.there);
          key = old.key;
          size = old.size;
          token = old.token;
        };
        follower = h.follower;
        fresh = h.fresh;
      }

  pub Triple-after_unlink :
      (r : Bool × Option Error)
      → Triple (ToldPair r) (after_unlink selected.block_id r) ToldUnlink (λ _. Safe)
  unfolding after_unlink
  Triple-after_unlink (true, none) =
      Triple-handle (remove_restore_marker selected.block_id) _ _
        (Triple-remove_restore_marker IsEvicted selected.block_id
          (IsEvicted-update (set_restore absent) (λ files. (refl, refl)))
          (IsEvicted-update (set_scanned absent) (λ files. (refl, refl))))
        (λ dir h. inr h) (λ e. Triple-pure _ (λ dir h. h)) (λ _. Triple-pure _ (λ dir h. h))
  Triple-after_unlink (false, none) = Triple-pure _ (λ dir h. h)
  Triple-after_unlink (true, some e) = Triple-pure _ (λ dir h. h)
  Triple-after_unlink (false, some e) = Triple-pure _ (λ dir h. h)

  pub Triple-skip_eviction_after_prepared_marker :
      (lifecycle : Lifecycle)
      → Triple Live (skip_eviction_after_prepared_marker host selected lifecycle) Told (λ _. Safe)
  unfolding skip_eviction_after_prepared_marker
  Triple-skip_eviction_after_prepared_marker lifecycle =
      Triple-if (is_hot lifecycle.state) _ _
        (λ _.
          Triple-handle (remove_eviction_marker selected.block_id) _ _
            (Triple-remove_eviction_marker Live selected.block_id (λ dir h.
              ap (λ x. x.blk) (update_self selected.block_id (set_eviction absent) dir) ∙ h))
            (λ dir h. inl h)
            (λ e. Triple-pure _ (λ dir h. Told-failed (host.local_text e) dir (inl h)))
            (λ _. Triple-pure _ (λ dir h. Told-skipped "leader_hot_copy_required" dir h)))
        (λ _. Triple-pure _ (λ dir h. Told-skipped "leader_hot_copy_required" dir h))

-- ===== src/Shard/EvictionApply/Safety.antt =====
-- internal/shard/eviction_apply.go: the removal of a Block, and its eviction marker.
use scrap.Common.{
  ◌≡◌, refl, sym, ◌∙◌, inl, inr, true, false, not, Option, none, some, if◌then◌else◌, ◌==◌,
}
use scrap.Common.Result.{Result, ok}
use scrap.Index.{ConfirmedUpload}
use scrap.Eviction.{Plan, PlanBlock}
use scrap.LocalBlock.Marker.{Error, not_exist, marker_invalid, io, mismatch}
use scrap.LocalBlock.Disk.{Dir, World}
use scrap.LocalBlock.Disk.Hoare.{
  Ends, Triple, Triple-pre, Triple-pure, Triple-raise, Triple-if, Triple-if_some, Triple-either,
  Triple-handle, Triple-bind,
}
use scrap.LocalBlock.Lifecycle.{Lifecycle, classify, is_not_exist, os_remove, sync_directory}
use scrap.LocalBlock.Lifecycle.Rules.{Triple-os_remove, Triple-sync_directory}
use scrap.LocalBlock.Lifecycle.Classify.{IsRead, Reads-classify}
use scrap.LocalBlock.Transitions.{unlink_block_data}
use scrap.Shard.EvictionApply.{
  AuthorityError, Host, eviction_plan_expired, confirmed_eviction_apply_authority_locked,
  eviction_apply_skip_reason, eviction_apply_destructive_guard, prepare_eviction_marker_for_apply,
  skip_eviction_after_prepared_marker, unlink_evicted_block_if_follower,
  unlink_evicted_block_respecting_expiry, evict_confirmed, evict_classified,
  apply_eviction_block_locked,
}
use scrap.Shard.EvictionApply.Authority.{IsDurable, authority_locked-eq-ok}
use scrap.Shard.EvictionApply.Steps.{
  IsEvicted, Live, Safe, Told, Told-skipped, Told-failed, Told-apply_outcome, Ready, removed_Block,
  Triple-prepare, ToldPair, Triple-after_unlink, Triple-skip_eviction_after_prepared_marker,
}

module _ (host : Host) (authority : Result AuthorityError ConfirmedUpload) (plan : Plan)
    (selected : PlanBlock) where
  module _ (confirmed : ConfirmedUpload) (committed : authority ≡ ok confirmed)
      (durable : IsDurable selected confirmed) (follower : host.leader_at_unlink ≡ false)
      (fresh : eviction_plan_expired plan host.now_at_unlink ≡ false) where
    abbrev Unremoved : Option Error → Dir → Type 0
    Unremoved o dir =
        (Ready host authority plan selected) confirmed committed durable dir
        × (o ≡ some not_exist → true ≡ false)

    refused :
        (e : Error) (dir : Dir)
        → Unremoved (some e) dir
        → (ToldPair host authority plan selected)
            (false, if is_not_exist e then none else some e)
            dir
    refused not_exist dir h = let e : true ≡ false = h.1 refl in cc
    refused marker_invalid dir h = inl h.0.0
    refused io dir h = inl h.0.0
    refused mismatch dir h = inl h.0.0

    Triple-unlink_block_data :
        Triple
          ((Ready host authority plan selected) confirmed committed durable)
          (unlink_block_data selected.block_id)
          (ToldPair host authority plan selected)
          (λ _. (Safe host authority plan selected))
    unfolding unlink_block_data
    Triple-unlink_block_data =
        Triple-handle (os_remove _ _) _ _
          (Triple-os_remove {R = Unremoved} _ _ (λ dir h. (h, λ e. cc)) (λ dir h. (h, λ e. cc))
            (λ dir h missing. (h, λ _. sym h.0 ∙ missing))
            (λ dir h there.
              (removed_Block host authority plan selected) confirmed committed durable dir follower
                fresh h))
          (λ dir h. inl h.0.0) (λ e. Triple-pure _ (λ dir h. refused e dir h))
          (λ _.
            Triple-handle sync_directory _ _
              (Triple-sync_directory {R = λ _. (IsEvicted host authority plan selected)}
                (λ o dir h. h))
              (λ dir h. inr h) (λ e. Triple-pure _ (λ dir h. inr h))
              (λ _. Triple-pure _ (λ dir h. h)))

  Triple-evict_confirmed :
      (lifecycle : Lifecycle) (confirmed : ConfirmedUpload)
      → authority ≡ ok confirmed
      → IsDurable selected confirmed
      → confirmed.block_id ≡ selected.block_id
      → Triple
          (λ dir. (Live host authority plan selected) dir × IsRead selected.block_id lifecycle dir)
          (evict_confirmed host plan selected lifecycle confirmed)
          (Told host authority plan selected)
          (λ _. (Safe host authority plan selected))
  unfolding evict_confirmed unlink_evicted_block_respecting_expiry unlink_evicted_block_if_follower
  Triple-evict_confirmed lifecycle confirmed committed durable same =
      Triple-if_some (eviction_apply_destructive_guard host plan) _ _
        (λ reason e.
          Triple-pure _ (λ dir h. (Told-skipped host authority plan selected) reason dir h.0))
        (λ _.
          Triple-handle (prepare_eviction_marker_for_apply host plan lifecycle confirmed) _ _
            ((Triple-prepare host authority plan selected) confirmed committed durable lifecycle
              same)
            (λ dir h. inl h)
            (λ e.
              Triple-pure _ (λ dir h.
                (Told-failed host authority plan selected) (host.local_text e) dir (inl h)))
            (λ _.
              Triple-bind (unlink_evicted_block_respecting_expiry host plan selected lifecycle) _
                (Triple-if (eviction_plan_expired plan host.now_at_unlink) _ _
                  (λ _.
                    Triple-pure _
                      (λ dir h. (Told-skipped host authority plan selected) "plan_expired" dir h.0))
                  (λ fresh.
                    Triple-if host.leader_at_unlink _ _
                      (λ _.
                        Triple-bind (skip_eviction_after_prepared_marker host selected lifecycle) _
                          (Triple-pre _ (λ dir h. h.0)
                            ((Triple-skip_eviction_after_prepared_marker host authority plan
                                selected)
                              lifecycle))
                          (λ block. Triple-pure _ (λ dir h. h)))
                      (λ follower.
                        Triple-bind (unlink_block_data selected.block_id) _
                          (Triple-unlink_block_data confirmed committed durable follower fresh)
                          (Triple-after_unlink host authority plan selected))))
                (λ u.
                  Triple-pure _ (λ dir h.
                    (Told-apply_outcome host authority plan selected) confirmed u dir h))))

  Triple-evict_classified :
      (r : Lifecycle × Option Error)
      → ((confirmed : ConfirmedUpload)
          → authority ≡ ok confirmed
          → confirmed.block_id ≡ selected.block_id)
      → Triple
          (λ dir. (Live host authority plan selected) dir × IsRead selected.block_id r.0 dir)
          (evict_classified host authority plan selected r)
          (Told host authority plan selected)
          (λ _. (Safe host authority plan selected))
  unfolding evict_classified
  Triple-evict_classified (lifecycle, some e) same =
      Triple-pure _
        (λ dir h. (Told-failed host authority plan selected) (host.local_text e) dir (inl h.0))
  Triple-evict_classified (lifecycle, none) same =
      Triple-if_some (eviction_apply_skip_reason host selected lifecycle) _ _
        (λ reason e.
          Triple-pure _ (λ dir h. (Told-skipped host authority plan selected) reason dir h.0))
        (λ _.
          Triple-either (confirmed_eviction_apply_authority_locked selected authority) _ _
            (λ e. Triple-pure _ (λ dir h.
              (Told-failed host authority plan selected) (host.authority_text e) dir (inl h.0)))
            (λ confirmed e.
              let (committed, durable) = authority_locked-eq-ok selected authority confirmed e in
              Triple-evict_confirmed lifecycle confirmed committed durable
                (same confirmed committed)))

  Triple-apply_eviction_block_locked :
      ((confirmed : ConfirmedUpload)
        → authority ≡ ok confirmed
        → confirmed.block_id ≡ selected.block_id)
      → Triple
          (Live host authority plan selected)
          (apply_eviction_block_locked host authority plan selected)
          (Told host authority plan selected)
          (λ _. (Safe host authority plan selected))
  unfolding apply_eviction_block_locked
  Triple-apply_eviction_block_locked same =
      Triple-if (not (selected.shard_id == host.shard_id)) _ _
        (λ _.
          Triple-pure _ (λ dir h. (Told-skipped host authority plan selected) "shard_filter" dir h))
        (λ _.
          Triple-handle (classify selected.block_id) _ _ (Reads-classify selected.block_id)
            (λ dir h. inl h) (λ e. Triple-raise e (λ dir h. inl h))
            (λ r. Triple-evict_classified r same))

-- An eviction of a Block that is there, whose committed upload record (if there is one) is of that
-- Block, never loses it. Whichever calls fail and wherever the process is killed, after it either
-- the Block is there, or all of this holds: the committed upload record has the Shard, the size
-- and the non-empty Backend key that the plan selected, the Block's eviction marker is there with
-- the key, the size and the validation token of the record, and just before the removal the Shard
-- was not the leader and the plan had no time of expiry, or one that was later. If it reports the Block evicted, the latter.
pub apply_eviction_block_locked-IsSafe :
    (host : Host) (authority : Result AuthorityError ConfirmedUpload) (plan : Plan)
    (selected : PlanBlock) (w : World)
    → ((confirmed : ConfirmedUpload)
        → authority ≡ ok confirmed
        → confirmed.block_id ≡ selected.block_id)
    → (w.dir selected.block_id).blk ≡ true
    → let (o, w') = apply_eviction_block_locked host authority plan selected w in
      Ends (Told host authority plan selected) (λ _. Safe host authority plan selected) o w'.dir
apply_eviction_block_locked-IsSafe host authority plan selected w same there =
    (Triple-apply_eviction_block_locked host authority plan selected same).at w there

-- ===== src/Shard/EvictionApply/Authority.antt =====
-- internal/shard/eviction_apply.go: what the checks of the upload record and of the marker say.
use mathlib.Core.Path.{subst}
use scrap.Common.{ℕ, ◌≡◌, ◌≢◌, refl, ap, true, not, Option, none, some, str_eq, eq_iff, arith}
use scrap.Common.Int.{eq_ℤ→eq}
use scrap.Common.Result.{Result, ok, err, fail_if, either-eq-ok}
use scrap.Index.{ConfirmedUpload}
use scrap.Eviction.{PlanBlock}
use scrap.LocalBlock.Marker.{mismatch, EvictionMarker}
use scrap.LocalBlock.Disk.{present, Files, Dir}
use scrap.LocalBlock.Lifecycle.{Lifecycle}
use scrap.LocalBlock.Lifecycle.Classify.{IsRead}
use scrap.LocalBlock.Transitions.{matches, validate_eviction_marker_matches}
use scrap.Shard.EvictionApply.{
  AuthorityError, validate_eviction_apply_authority, confirmed_eviction_apply_authority_locked,
  eviction_marker_expectation, validate_restore_authority,
}

-- What the upload record must say for a Block to be removed.
pub record IsDurable (selected : PlanBlock) (confirmed : ConfirmedUpload) : Type 0 where
  pub shard : selected.shard_id ≡ confirmed.shard_id
  pub size : selected.size_bytes ≡ confirmed.block_object.size_bytes
  pub key : selected.backend_key ≡ confirmed.block_object.key
  pub has_key : selected.backend_key ≢ ""

pub validate_eviction_apply_authority-IsDurable :
    (selected : PlanBlock) (confirmed : ConfirmedUpload)
    → validate_eviction_apply_authority selected confirmed ≡ ok tt
    → IsDurable selected confirmed
unfolding validate_eviction_apply_authority
validate_eviction_apply_authority-IsDurable selected confirmed h = record {
  shard = ground arith;
  size = eq_ℤ→eq selected.size_bytes confirmed.block_object.size_bytes (ground arith);
  key = (eq_iff selected.backend_key confirmed.block_object.key).0 (ground arith);
  has_key = λ e.
      let t : str_eq selected.backend_key "" ≡ true = (eq_iff selected.backend_key "").1 e in
      ground arith;
}

pub authority_locked-eq-ok :
    (selected : PlanBlock) (authority : Result AuthorityError ConfirmedUpload)
    (confirmed : ConfirmedUpload)
    → confirmed_eviction_apply_authority_locked selected authority ≡ ok confirmed
    → (authority ≡ ok confirmed) × IsDurable selected confirmed
unfolding confirmed_eviction_apply_authority_locked
authority_locked-eq-ok selected (err e) confirmed h = cc
authority_locked-eq-ok selected (ok c) confirmed h =
    let (checked, same) = either-eq-ok (validate_eviction_apply_authority selected c) c h in
    (
      ap ok same,
      subst (IsDurable selected) same
          (validate_eviction_apply_authority-IsDurable selected c checked),
    )

-- The eviction marker is there, and it is that of the upload record.
pub record IsMarked (id : ℕ) (confirmed : ConfirmedUpload) (files : Files) : Type 0 where
  pub marker : EvictionMarker
  pub there : files.eviction ≡ present marker
  pub key : marker.backend_key ≡ confirmed.block_object.key
  pub size : marker.size_bytes ≡ confirmed.block_object.size_bytes
  pub token : marker.validation_token ≡ confirmed.block_object.validation_token

pub matches-IsMarked :
    (id : ℕ) (confirmed : ConfirmedUpload) (lifecycle : Lifecycle) (dir : Dir)
    → validate_restore_authority confirmed lifecycle ≡ ok tt
    → IsRead id lifecycle dir
    → IsMarked id confirmed (dir id)
unfolding validate_restore_authority validate_eviction_marker_matches
matches-IsMarked id confirmed lifecycle dir h read = matched lifecycle.eviction_marker refl h
  where
    matched :
        (o : Option EvictionMarker)
        → lifecycle.eviction_marker ≡ o
        → fail_if (not (matches o (eviction_marker_expectation confirmed))) mismatch ≡ ok tt
        → IsMarked id confirmed (dir id)
    matched none e h = cc
    matched (some m) e h = record {
      marker = m;
      there = read m e;
      key = (eq_iff m.backend_key confirmed.block_object.key).0 (ground arith);
      size = eq_ℤ→eq m.size_bytes confirmed.block_object.size_bytes (ground arith);
      token = (eq_iff m.validation_token confirmed.block_object.validation_token).0 (ground arith);
    }

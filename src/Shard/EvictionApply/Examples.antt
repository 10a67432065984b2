-- ===== src/Shard/EvictionApply/Examples.antt =====
-- internal/shard/eviction_apply.go: an eviction in which the sync after the removal fails.
use scrap.Common.{refl, true, false, none, [], ◌∷◌}
use scrap.Common.Int.{pos}
use scrap.Common.Result.{ok}
use scrap.Index.{BackendObjectMetadata, ConfirmedUpload}
use scrap.Eviction.{Plan, PlanBlock, SkipReason, Bounds}
use scrap.LocalBlock.Disk.{absent, Dir, World, fine, fail}
use scrap.LocalBlock.Disk.Hoare.{Ends}
use scrap.Shard.EvictionApply.{Host, apply_eviction_block_locked}
use scrap.Shard.EvictionApply.Steps.{Told, Safe}
use scrap.Shard.EvictionApply.Safety.{apply_eviction_block_locked-IsSafe}

abbrev selected_block : PlanBlock
selected_block = record {
  block_id = 7;
  shard_id = 2;
  size_bytes = pos 4096;
  backend_key = "shard-2/7.blk";
  confirmed_at_us = pos 10;
  restored_at_us = pos 0;
  eligible_at_us = pos 10;
  hot_residency_window_seconds = pos 0;
  local_state = "hot";
  open_readers = pos 0;
  repair_state = "idle";
  reason = SkipReason.unset;
}

abbrev stored : BackendObjectMetadata
stored = record { key = "shard-2/7.blk"; size_bytes = pos 4096; validation_token = "etag" }

abbrev uploaded : ConfirmedUpload
uploaded = record {
  block_id = 7;
  shard_id = 2;
  confirmed_at_us = pos 10;
  sealed_size_bytes = pos 4096;
  upload_generation = pos 1;
  block_object = stored;
  index_object = stored;
}

abbrev follower_host : Host
follower_host = record {
  shard_id = 2;
  hot_residency_window_seconds = pos 0;
  leader_at_skip = false;
  leader_at_guard = false;
  leader_at_unlink = false;
  now_at_skip = pos 100;
  now_at_guard = pos 101;
  now_at_marker = pos 102;
  now_at_unlink = pos 103;
  local_text = λ e. "local";
  authority_text = λ e. "authority";
}

abbrev bounds : Bounds
bounds = record { max_blocks = pos 5; max_bytes = pos 100000 }

abbrev small_plan : Plan
small_plan = record {
  plan_id = "p1";
  generated_at_us = pos 50;
  expires_at_us = pos 1000;
  member_hostname = "node-1";
  member_id = "1";
  shard_id = none;
  reason = "";
  note = "";
  config = record {
    enabled = true;
    hot_residency_window_seconds = pos 0;
    plan_ttl_seconds = pos 60;
    recommended_max_blocks = pos 5;
    recommended_max_bytes = pos 100000;
    max_validate_samples = pos 1;
  };
  recommended_bounds = bounds;
  requested_bounds = bounds;
  effective_bounds = bounds;
  selected = selected_block ∷ [];
  skipped = [];
  skip_counts_by_reason = none;
  candidate_blocks = 1;
  candidate_bytes = pos 4096;
  eligible_blocks = 1;
  eligible_bytes = pos 4096;
  selected_bytes = pos 4096;
}

abbrev hot_dir : Dir
hot_dir k = record { blk = true; idx = true; eviction = absent; restore = absent; scanned = absent }

-- Four calls read the state of the Block, eight write its marker, one removes it; then the
-- directory cannot be opened to sync it.
abbrev failing : World
failing = record {
  dir = hot_dir;
  faults =
      fine ∷ fine ∷ fine ∷ fine ∷ fine ∷ fine ∷ fine ∷ fine ∷ fine ∷ fine ∷ fine ∷ fine ∷ fine
      ∷ fail ∷ [];
}

apply_eviction_block_locked-IsSafe_example :
    let (o, w) =
      apply_eviction_block_locked follower_host (ok uploaded) small_plan selected_block failing in
    Ends
      (Told follower_host (ok uploaded) small_plan selected_block)
      (λ _. Safe follower_host (ok uploaded) small_plan selected_block)
      o
      w.dir
apply_eviction_block_locked-IsSafe_example =
    apply_eviction_block_locked-IsSafe follower_host (ok uploaded) small_plan selected_block failing
      (λ confirmed e. cc) refl

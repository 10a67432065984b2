-- ===== src/LocalBlock/Samples.antt =====
-- Small inputs for the tests of internal/localblock.
use scrap.Common.{true, false}
use scrap.Common.Int.{pos}
use scrap.LocalBlock.Marker.{EvictionMarker, RestoreMarker}
use scrap.LocalBlock.Disk.{absent, present, Dir}

abbrev pub evicted_marker : EvictionMarker
evicted_marker = record {
  version = pos 1;
  block_id = 7;
  backend_key = "shard-2/7.blk";
  size_bytes = pos 4096;
  validation_token = "etag";
  evicted_at_us = pos 100;
  trigger = "operator_requested";
  reason = "evidence_run";
}

abbrev pub restored_marker : RestoreMarker
restored_marker = record {
  version = pos 1;
  block_id = 7;
  restored_at_us = pos 200;
  source = "backend";
  reason = "read";
}

-- Every Block is evicted.
abbrev pub evicted_dir : Dir
evicted_dir k = record {
  blk = false;
  idx = true;
  eviction = present evicted_marker;
  restore = absent;
  scanned = absent;
}

-- Every Block was restored.
abbrev pub restored_dir : Dir
restored_dir k = record {
  blk = true;
  idx = true;
  eviction = absent;
  restore = present restored_marker;
  scanned = absent;
}

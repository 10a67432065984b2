-- ===== src/Shard.antt =====
-- internal/shard: what a Shard does with its Blocks.
pub mod EvictionApply
pub mod Commit

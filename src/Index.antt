-- ===== src/Index.antt =====
-- internal/index: the projection of a Shard, which says where each transaction is stored.
pub mod Pebble
pub mod Errors
pub mod Entry
pub mod Store
pub mod Resolution
pub mod Outbox
pub mod Catalog
pub mod Watermark
pub mod Quarantine
pub mod Samples
mod Examples
use scrap.Common.{ℕ, String}
use scrap.Common.Int.{ℤ}

pub record BackendObjectMetadata : Type 0 where
  pub key : String
  pub size_bytes : ℤ
  pub validation_token : String

pub record ConfirmedUpload : Type 0 where
  pub block_id : ℕ
  pub shard_id : ℕ
  pub confirmed_at_us : ℤ
  pub sealed_size_bytes : ℤ
  pub upload_generation : ℤ
  pub block_object : BackendObjectMetadata
  pub index_object : BackendObjectMetadata

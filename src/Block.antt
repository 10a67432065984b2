-- ===== src/Block.antt =====
-- internal/block: Blocks, the append-only files that hold the Frames of Documents.
pub mod Frame
pub mod Header
pub mod Writer
pub mod Reader
pub mod Index
pub mod Samples

-- ===== src/LocalBlock.antt =====
-- internal/localblock: the local files of a Block and their lifecycle.
pub mod Marker
pub mod Disk
pub mod Lifecycle
pub mod Transitions
pub mod Samples

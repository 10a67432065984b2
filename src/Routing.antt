-- ===== src/Routing.antt =====
-- internal/routing: the slot of a Transaction, the placement of slots on Shards, and the lookup.
pub mod Hash
pub mod Placement
pub mod Router
mod Examples

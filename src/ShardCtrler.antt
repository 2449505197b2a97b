-- ===== src/ShardCtrler.antt =====
-- The package shardctrler: which group serves which shard, as a sequence of configurations.
pub mod Types
pub mod Machine
pub mod Server
pub mod Exact
pub mod Keys
pub mod Named
pub mod Placed
pub mod Sizes
pub mod Bounds
pub mod Even
pub mod Moves
pub mod Steady
pub mod Ends
pub mod Chain
pub mod Client
pub mod Retry

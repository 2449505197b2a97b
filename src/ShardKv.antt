-- ===== src/ShardKv.antt =====
-- shardkv/: a group's key/value server: its shards, the applier over Raft's log, and the monitors
-- that move shards between groups.
pub mod Strings
pub mod Types
pub mod Shard
pub mod State
pub mod Apply
pub mod Server
pub mod Monitor
pub mod Total
pub mod Once
pub mod Handover
pub mod Migration
pub mod Collection
pub mod Reconfigure
pub mod Storage
pub mod Spec
pub mod Refine
pub mod Client
pub mod Tries
pub mod Clerks
pub mod Answers
pub mod Sessions
pub mod Filled
pub mod Takeover
pub mod Transfer
pub mod Pulls
pub mod Calls
pub mod Configure

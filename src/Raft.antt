-- ===== src/Raft.antt =====
-- The package raft: one server of a Raft group (raft/*.go).
pub mod Types
pub mod Persist
pub mod Log
pub mod Sort
pub mod Shape
pub mod Vote
pub mod Append
pub mod Merge
pub mod Replicate
pub mod Snapshot
pub mod Server
pub mod Conflict
pub mod Accept
pub mod Commit
pub mod Cut
pub mod Node
pub mod Votes
pub mod History
pub mod Cluster
pub mod Network
pub mod Matching
pub mod Complete

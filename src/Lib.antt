-- ===== src/Lib.antt =====
-- Raft-side: a sharded, replicated key/value store, and the Raft library under it.
--
-- A group of servers (shardkv/) keeps the keys of some of ten shards; which group has which shard
-- is what a controller (shardctrler/) says, a replicated server of its own. Both put the commands of
-- clients into a log that Raft (raft/) replicates, and apply what Raft hands back, in order.
--
-- Prelude: the names and lemmas that all parts share. `Option` is the result of Go code that can
--   panic, `none` the panic; Dict is a Go map with integer keys.
-- Raft (raft/): Types the structures of raft.go, util.go and rpc.go; Persist persister.go and
--   raft_persist.go; Log raft_util.go and raft_state.go; Sort the insertion sort of util.go; Vote
--   raft_vote.go and raft_election.go; Append raft_append_entries.go; Replicate
--   raft_replication.go; Snapshot raft_snapshot.go; Server raft.go; Node the events of one node (a
--   call, an answer, a timer, a crash with a restart) as a run; Cluster a group of nodes with the
--   goroutines of `StartElection` and the messages between them as a step relation; Network adds the
--   requests for entries that leaders sent, which may arrive at any time, in any order, again or
--   never. In it `CondInstallSnapshot` is called only where the log's entry at the snapshot's index,
--   if there is one, has the snapshot's term, which the code does not test. Shape, Merge, Conflict,
--   Accept, Commit, Cut, Votes, History, Matching, Complete and the children of Cluster, of Matching
--   and of Complete hold lemmas and theorems. Matching goes by the tree of the entries that leaders
--   made; Complete adds the last entry of each leader's log at its election (`Base`) and the entries
--   that a node has had in its log in their term (`Acked`).
-- ShardCtrler (shardctrler/): Types common.go; Machine configStateMachine.go; Server the applier and
--   `Command` of server.go; Client client.go, with its retry loop. Keys, Named, Sizes,
--   Bounds, Moves and Steady hold lemmas on its maps; Exact, Chain, Placed, Even, Ends and Retry hold
--   theorems.
-- ShardKv (shardkv/): Types common.go; Strings Go's strings and maps of them; Shard shard.go and
--   `key2shard` of client.go; State, Apply, Server and Monitor server.go: the reads of the state,
--   the five handlers of the applier, the applier with snapshots and calls, the monitors; Client
--   client.go, whose clerk holds one of ShardCtrler.Client. A server holds a Raft node of the model.
--   Spec is what a group promises its clients, one map and the last write of each client. Filled
--   and Takeover hold lemmas; Refine, Once, Handover, Transfer, Pulls, Calls, Configure,
--   Migration, Collection, Reconfigure, Storage, Total, Tries, Clerks, Answers and Sessions hold
--   theorems.
-- Tests: runs on concrete data, and the theorems at inputs that meet their hypotheses.
--
-- Numbers. Go's `int` is ℕ where the code keeps it from going below 0, without a bound; `votedFor`,
-- `ConflictTerm` and `maxRaftState` write -1 as `none`; `nextIndex`, `ConflictIndex` and the number
-- of a query are ℤ. An index out of range, a nil pointer and a slice past its length are `none`.
--
-- Maps. Go visits a map in an order of its own. In ShardCtrler it is the parameter `MapOrder`; in
-- ShardKv a map is visited in the order of its entries, and theorems are about all of them. The loop
-- of `Join` need not end under every order, so it takes a number of rounds; what is said of its
-- outcome is said of runs that end, for any number of rounds, and one result shows that it can
-- end from wherever it is.
--
-- Parameters. The encodings of labgob are `RaftCodec` and `KvCodec`: what was encoded is decoded
-- again. What another server answers to a call is an argument; for the clients it is a function of
-- the server and the request, one for each round of their loops. A list of rounds is the fuel of
-- these loops: one that runs out leaves the loop waiting, which the results tell from an answer.
--
-- Not modelled: remote calls and listeners (raft_rpc.go, the rpc.go files), the copies of the lab
-- library (labrpc/, labgob/), time, goroutines (a method returns the tasks that it hands to others)
-- and locks, array capacities, logging, printing, and the processes' set-up (main.go, config/,
-- global/, utils/). A wait on a channel splits a method in two.

pub mod Prelude
pub mod Raft
pub mod ShardCtrler
pub mod ShardKv
mod Tests

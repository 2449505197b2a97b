-- ===== src/Raft/Types.antt =====
-- The data of raft/raft.go, raft/util.go and raft/rpc.go. Go's `int` is ℕ where the code keeps a
-- number from going below 0; `votedFor` and `ConflictTerm` write their -1 as `none`; `nextIndex`
-- and `ConflictIndex`, which do go below 0, are ℤ. Counters are unbounded.
use raft_side.Prelude.{ℕ, Bool, true, false, Option, List, ◌∷◌, ℤ}

pub data NodeState : Type 0 where
  follower candidate leader : NodeState

-- `state == StateLeader` and the like.
abbrev pub is_state : NodeState → NodeState → Bool
is_state follower follower = true
is_state candidate candidate = true
is_state leader leader = true
is_state _ _ = false

-- `Command` is an `interface{}`: a type of the client's, or nil.
pub record Entry (Cmd : Type 0) : Type 0 where
  pub index : ℕ
  pub term : ℕ
  pub command : Option Cmd

pub record RequestVoteRequest : Type 0 where
  pub term : ℕ
  pub candidate_id : ℕ
  pub last_log_index : ℕ
  pub last_log_term : ℕ

pub record RequestVoteResponse : Type 0 where
  pub term : ℕ
  pub vote_granted : Bool

pub record AppendEntriesRequest (Cmd : Type 0) : Type 0 where
  pub term : ℕ
  pub leader_id : ℕ
  pub prev_log_index : ℕ
  pub prev_log_term : ℕ
  pub leader_commit : ℕ
  pub entries : List (Entry Cmd)

pub record AppendEntriesResponse : Type 0 where
  pub term : ℕ
  pub success : Bool
  pub conflict_index : ℤ
  pub conflict_term : Option ℕ

pub record InstallSnapshotRequest : Type 0 where
  pub term : ℕ
  pub leader_id : ℕ
  pub last_included_index : ℕ
  pub last_included_term : ℕ
  pub snapshot : List ℕ

pub record InstallSnapshotResponse : Type 0 where
  pub term : ℕ

-- The two uses of the Go struct: `CommandValid`, or `SnapshotValid`.
pub data ApplyMsg (Cmd : Type 0) : Type 0 where
  command_msg : (command : Option Cmd) (term index : ℕ) → ApplyMsg Cmd
  snapshot_msg : (snapshot : List ℕ) (term index : ℕ) → ApplyMsg Cmd

-- What a method hands to another goroutine: a goroutine that it starts, or one that it wakes.
pub data Task (Cmd : Type 0) : Type 0 where
  ask_vote : (peer : ℕ) → RequestVoteRequest → Task Cmd
  replicate_round : (peer : ℕ) → Task Cmd
  wake_replicator : (peer : ℕ) → Task Cmd
  wake_applier : Task Cmd
  deliver : ApplyMsg Cmd → Task Cmd

-- The bytes on disk, as raft/persister.go keeps them.
pub record Persister : Type 0 where
  pub raftstate : List ℕ
  pub snapshot : List ℕ

-- A timer is armed or stopped; its durations are not modelled. `tasks` is what was handed to other
-- goroutines, the latest first.
pub record Raft (Cmd : Type 0) : Type 0 where
  pub peers : ℕ
  pub persister : Persister
  pub me : ℕ
  pub dead : Bool
  pub state : NodeState
  pub current_term : ℕ
  pub voted_for : Option ℕ
  pub logs : List (Entry Cmd)
  pub commit_index : ℕ
  pub last_applied : ℕ
  pub next_index : List ℤ
  pub match_index : List ℕ
  pub election_timer : Bool
  pub heartbeat_timer : Bool
  pub tasks : List (Task Cmd)

abbrev pub spawn : {Cmd : Type 0} → Task Cmd → Raft Cmd → Raft Cmd
spawn t rf = record rf { tasks = t ∷ rf.tasks }

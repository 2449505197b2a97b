-- ===== src/Raft/Server.antt =====
-- raft/raft.go: making a node, its client's calls, its timers and its applier.
use raft_side.Prelude.{
  ℕ, ◌+◌, true, false, Option, none, some, List, [], ◌∷◌, map, ◌>>=◌, pos, replicate, slice_from,
  slice_to, leb, if◌then◌else◌, sub?,
}
use raft_side.Raft.Types.{
  Entry, follower, candidate, leader, is_state, ApplyMsg, command_msg, Persister, Raft,
}
use raft_side.Raft.Persist.{RaftCodec, read_raft_state, read_persist, raft_state_size}
use raft_side.Raft.Log.{get_last_log, get_first_log, change_state}
use raft_side.Raft.Vote.{broadcast_heartbeat, start_election}
use raft_side.Raft.Append.{max_int}
use raft_side.Raft.Replicate.{append_new_entry}

module _ {Cmd : Type 0} where
  unfoldable pub get_raft_state_size : Raft Cmd → ℕ
  get_raft_state_size rf = raft_state_size rf.persister

  unfoldable pub kill : Raft Cmd → Raft Cmd
  kill rf = record rf { dead = true }

  -- The struct literal of `Make`.
  unfoldable pub fresh : (peers me : ℕ) → Persister → Raft Cmd
  fresh peers me persister = record {
    peers = peers;
    persister = persister;
    me = me;
    dead = false;
    state = follower;
    current_term = 0;
    voted_for = none;
    logs = record { index = 0; term = 0; command = none } ∷ [];
    commit_index = 0;
    last_applied = 0;
    next_index = replicate peers (pos 0);
    match_index = replicate peers 0;
    election_timer = true;
    heartbeat_timer = true;
    tasks = [];
  }

  -- The applier's batch: the committed entries that were not applied, and the commit index that it
  -- remembers. No batch while there is nothing to apply.
  batch : Raft Cmd → Option (List (Entry Cmd))
  batch rf = do
    first_log ← get_first_log rf.logs
    low ← sub? (rf.last_applied + 1) first_log.index
    high ← sub? (rf.commit_index + 1) first_log.index
    upto ← slice_to rf.logs high
    slice_from upto low

  message : Entry Cmd → ApplyMsg Cmd
  message entry = command_msg entry.command entry.term entry.index

  unfoldable pub applier_take : Raft Cmd → Option (Option (List (ApplyMsg Cmd) × ℕ))
  unfolding batch message
  applier_take rf =
      if leb rf.commit_index rf.last_applied
      then some none
      else (do entries ← batch rf; some (some (map message entries, rf.commit_index)))

  unfoldable pub applier_done : Raft Cmd → (commit_index : ℕ) → Raft Cmd
  applier_done rf commit_index = record rf { last_applied = max_int rf.last_applied commit_index }

  module _ ⦃codec : RaftCodec Cmd⦄ where
    unfoldable pub make : (peers me : ℕ) → Persister → Option (Raft Cmd)
    unfolding fresh
    make peers me persister = do
      rf ← read_persist (fresh peers me persister) (read_raft_state persister)
      last_log ← get_last_log rf.logs
      some (record rf {
        match_index = replicate peers 0;
        next_index = replicate peers (pos (last_log.index + 1));
      })

    -- The index and the term of the new entry, if the node is the leader.
    unfoldable pub start : Raft Cmd → Cmd → Option (Raft Cmd × Option (ℕ × ℕ))
    start rf command =
        if is_state rf.state leader
        then (do
          (rf', new_log) ← append_new_entry rf command
          some (broadcast_heartbeat false rf', some (new_log.index, new_log.term)))
        else some (rf, none)

    -- The two cases of `ticker`; the first returns the counter of the election.
    unfoldable pub on_election_timeout : Raft Cmd → Option (Raft Cmd × ℕ)
    on_election_timeout rf = do
      rf' ← change_state candidate rf
      (rf'', granted_votes) ← start_election (record rf' { current_term = rf'.current_term + 1 })
      some (record rf'' { election_timer = true }, granted_votes)

  unfoldable pub on_heartbeat_timeout : Raft Cmd → Raft Cmd
  on_heartbeat_timeout rf =
      if is_state rf.state leader
      then record (broadcast_heartbeat true rf) { heartbeat_timer = true }
      else record rf { heartbeat_timer = false }

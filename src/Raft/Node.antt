-- ===== src/Raft/Node.antt =====
-- One node as a machine: the events that reach it (timers, requests, answers, its client, a crash)
-- and what each does, by the functions of the package raft.
use raft_side.Prelude.{ℕ, Option, some, List, [], ◌∷◌, ◌>>=◌}
use raft_side.Raft.Types.{
  RequestVoteRequest, RequestVoteResponse, AppendEntriesRequest, AppendEntriesResponse,
  InstallSnapshotRequest, InstallSnapshotResponse, Raft,
}
use raft_side.Raft.Persist.{RaftCodec}
use raft_side.Raft.Vote.{request_vote, handle_vote_response}
use raft_side.Raft.Append.{append_entries}
use raft_side.Raft.Replicate.{handle_append_entries_response, handle_install_snapshot_response}
use raft_side.Raft.Snapshot.{take_snapshot, install_snapshot, cond_install_snapshot}
use raft_side.Raft.Server.{
  make, start, on_election_timeout, on_heartbeat_timeout, applier_done, kill,
}

pub data Event (Cmd : Type 0) : Type 0 where
  election_timeout : Event Cmd
  heartbeat_timeout : Event Cmd
  vote_request : RequestVoteRequest → Event Cmd
  vote_response : (granted_votes : ℕ) → RequestVoteRequest → RequestVoteResponse → Event Cmd
  append_request : AppendEntriesRequest Cmd → Event Cmd
  append_response : (peer : ℕ) → AppendEntriesRequest Cmd → AppendEntriesResponse → Event Cmd
  snapshot_request : InstallSnapshotRequest → Event Cmd
  snapshot_response : (peer : ℕ) → InstallSnapshotRequest → InstallSnapshotResponse → Event Cmd
  client_command : Cmd → Event Cmd
  client_snapshot : (index : ℕ) → List ℕ → Event Cmd
  client_install : (term index : ℕ) → List ℕ → Event Cmd
  applied : (commit_index : ℕ) → Event Cmd
  killed : Event Cmd
  crash : Event Cmd

module _ {Cmd : Type 0} ⦃codec : RaftCodec Cmd⦄ where
  unfoldable pub step : Raft Cmd → Event Cmd → Option (Raft Cmd)
  step rf election_timeout = do (rf', _) ← on_election_timeout rf; some rf'
  step rf heartbeat_timeout = some (on_heartbeat_timeout rf)
  step rf (vote_request request) = do (rf', _) ← request_vote rf request; some rf'
  step rf (vote_response n request response) = do
    (rf', _) ← handle_vote_response rf n request response
    some rf'
  step rf (append_request request) = do (rf', _) ← append_entries rf request; some rf'
  step rf (append_response peer request response) =
      handle_append_entries_response rf peer request response
  step rf (snapshot_request request) = do (rf', _) ← install_snapshot rf request; some rf'
  step rf (snapshot_response peer request response) =
      handle_install_snapshot_response rf peer request response
  step rf (client_command command) = do (rf', _) ← start rf command; some rf'
  step rf (client_snapshot index snapshot) = take_snapshot rf index snapshot
  step rf (client_install term index snapshot) = do
    (rf', _) ← cond_install_snapshot rf term index snapshot
    some rf'
  step rf (applied commit_index) = some (applier_done rf commit_index)
  step rf killed = some (kill rf)
  step rf crash = make rf.peers rf.me rf.persister

  unfoldable pub run : Raft Cmd → List (Event Cmd) → Option (Raft Cmd)
  run rf [] = some rf
  run rf (event ∷ events) = do rf' ← step rf event; run rf' events

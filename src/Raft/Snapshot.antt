-- ===== src/Raft/Snapshot.antt =====
-- raft/raft_snapshot.go: cutting the log at a snapshot, the client's or the leader's.
use raft_side.Prelude.{
  ℕ, Bool, true, false, Option, none, some, List, [], ◌∷◌, ◌>>=◌, slice_from, ltb, leb,
  if◌then◌else◌, sub?,
}
use raft_side.Raft.Types.{
  Entry, follower, InstallSnapshotRequest, InstallSnapshotResponse, snapshot_msg, deliver, Raft,
  spawn,
}
use raft_side.Raft.Persist.{RaftCodec, encode_state, persist, save_state_and_snapshot}
use raft_side.Raft.Log.{get_last_log, get_first_log, change_state}

module _ {Cmd : Type 0} where
  -- `logs[0].Command = nil`
  unfoldable pub clear_dummy : List (Entry Cmd) → Option (List (Entry Cmd))
  clear_dummy [] = none
  clear_dummy (dummy ∷ rest) = some (record dummy { command = none } ∷ rest)

  -- `logs[0].Term, logs[0].Index = term, index`
  unfoldable pub label_dummy : (term index : ℕ) → List (Entry Cmd) → Option (List (Entry Cmd))
  label_dummy term index [] = none
  label_dummy term index (dummy ∷ rest) = some (record dummy { term = term; index = index } ∷ rest)

  -- The logs that `CondInstallSnapshot` keeps; `make([]Entry, 1)` is a zero entry.
  unfoldable pub logs_after_snapshot :
      List (Entry Cmd) → (term index : ℕ) → Option (List (Entry Cmd))
  unfolding clear_dummy label_dummy
  logs_after_snapshot logs term index = do
    last_log ← get_last_log logs
    if ltb last_log.index index
        then label_dummy term index (record { index = 0; term = 0; command = none } ∷ [])
        else (do
          first_log ← get_first_log logs
          offset ← sub? index first_log.index
          kept ← slice_from logs offset
          cleared ← clear_dummy kept
          label_dummy term index cleared)

  module _ ⦃codec : RaftCodec Cmd⦄ where
    unfoldable pub save_snapshot : Raft Cmd → List ℕ → Raft Cmd
    save_snapshot rf snapshot = record rf {
      persister = save_state_and_snapshot rf.persister (encode_state rf) snapshot;
    }

    unfoldable pub take_snapshot : Raft Cmd → (index : ℕ) → List ℕ → Option (Raft Cmd)
    take_snapshot rf index snapshot = do
      first_log ← get_first_log rf.logs
      if leb index first_log.index then some rf else (do
        offset ← sub? index first_log.index
        kept ← slice_from rf.logs offset
        logs ← clear_dummy kept
        some (save_snapshot (record rf { logs = logs }) snapshot))

    unfoldable pub install_snapshot :
        Raft Cmd → InstallSnapshotRequest → Option (Raft Cmd × InstallSnapshotResponse)
    install_snapshot rf request =
        let response : InstallSnapshotResponse = record { term = rf.current_term } in
        if ltb request.term rf.current_term then some (rf, response) else (do
          followed ← change_state follower (
              if ltb rf.current_term request.term
              then persist (record rf { current_term = request.term; voted_for = none })
              else rf)
          let rf' = record followed { election_timer = true }
          if leb request.last_included_index rf'.commit_index
              then some (rf', response)
              else some (
                spawn
                    (deliver (
                      snapshot_msg request.snapshot request.last_included_term
                        request.last_included_index))
                    rf',
                response,
              ))

    unfoldable pub cond_install_snapshot :
        Raft Cmd → (term index : ℕ) → List ℕ → Option (Raft Cmd × Bool)
    cond_install_snapshot rf term index snapshot =
        if leb index rf.commit_index then some (rf, false) else (do
          logs ← logs_after_snapshot rf.logs term index
          let rf' = record rf { logs = logs; last_applied = index; commit_index = index }
          some (save_snapshot rf' snapshot, true))

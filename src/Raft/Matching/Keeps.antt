-- ===== src/Raft/Matching/Keeps.antt =====
-- The operations of a node that keep its log.
use raft_side.Prelude.{
  refl, sym, bind-some, [], ◌∷◌, ℕ, ◌≤◌, ◌<◌, ◌≡◌, ◌⊎◌, inl, inr, true, some, arith, bind-some,
  List, ◌∷◌,
}
use raft_side.Raft.Types.{
  follower, candidate, leader, is_state, RequestVoteRequest, RequestVoteResponse,
  AppendEntriesRequest, AppendEntriesResponse, InstallSnapshotRequest, InstallSnapshotResponse,
  Raft, NodeState,
}
use raft_side.Raft.Persist.{RaftCodec, persist, read_persist, read_raft_state}
use raft_side.Raft.Log.{change_state}
use raft_side.Raft.Votes.{OnDisk}
use raft_side.Raft.History.{make-SameDurable}
use raft_side.Raft.Shape.{last_index}
use raft_side.Raft.Vote.{broadcast_heartbeat, request_vote, start_election, handle_vote_response}
use raft_side.Raft.Replicate.{
  advance_commit_index_for_leader, on_success, handle_append_entries_response,
  handle_install_snapshot_response,
}
use raft_side.Raft.Snapshot.{install_snapshot}
use raft_side.Raft.Server.{on_election_timeout, on_heartbeat_timeout, make, fresh}

-- In a term a node can be a candidate, then the leader, then a follower. As the leader it does not
-- shorten its log.
abbrev pub Calm : {Cmd : Type 0} → Raft Cmd → Raft Cmd → Type 0
Calm rf rf' =
    (rf.current_term < rf'.current_term)
    ⊎ (rf.current_term ≡ rf'.current_term)
      × ((is_state rf'.state follower ≡ true)
          ⊎ (is_state rf.state candidate ≡ true)
          ⊎ (is_state rf.state leader ≡ true)
            × (is_state rf'.state leader ≡ true)
            × (last_index rf.logs ≤ last_index rf'.logs))

abbrev pub Keeps : {Cmd : Type 0} → Raft Cmd → Raft Cmd → Type 0
Keeps rf rf' =
    (rf'.logs ≡ rf.logs)
    × ((rf.current_term < rf'.current_term)
        ⊎ (rf.current_term ≡ rf'.current_term)
          × ((rf'.state ≡ rf.state) ⊎ (rf'.state ≡ follower) ⊎ (rf.state ≡ candidate)))

-- One of the three.
state-cases :
    (s : NodeState)
    → (is_state s follower ≡ true) ⊎ (is_state s candidate ≡ true) ⊎ (is_state s leader ≡ true)
state-cases follower = inl refl
state-cases candidate = inr (inl refl)
state-cases leader = inr (inr refl)

module _ {Cmd : Type 0} where
  -- The rules on the state within a term, and the leader's log is no shorter.
  pub state-Calm :
      (rf rf' : Raft Cmd)
      → (rf.current_term < rf'.current_term)
        ⊎ (rf.current_term ≡ rf'.current_term)
          × ((rf'.state ≡ rf.state) ⊎ (rf'.state ≡ follower) ⊎ (rf.state ≡ candidate))
      → last_index rf.logs ≤ last_index rf'.logs
      → Calm rf rf'
  state-Calm rf rf' (inl later) long = inl later
  state-Calm rf rf' (inr (term, inl same)) long = inr (
    term,
    elim (state-cases rf.state) [
      | inl is ↦ inl (rw same is)
      | inr (inl is) ↦ inr (inl is)
      | inr (inr is) ↦ inr (inr (is, rw same is, long))
    ],
  )
  state-Calm rf rf' (inr (term, inr (inl now))) long = inr (term, inl (rw now refl))
  state-Calm rf rf' (inr (term, inr (inr was))) long = inr (term, inr (inl (rw was refl)))

  pub Keeps-Calm : (rf rf' : Raft Cmd) → Keeps rf rf' → Calm rf rf'
  Keeps-Calm rf rf' (logs, state) = state-Calm rf rf' state (rw logs (omega arith))

module _ {Cmd : Type 0} ⦃codec : RaftCodec Cmd⦄ where
  pub request_vote-Keeps :
      (rf : Raft Cmd) (request : RequestVoteRequest) {rf' : Raft Cmd} {r : RequestVoteResponse}
      → request_vote rf request ≡ some (rf', r)
      → Keeps rf rf'
  unfolding request_vote change_state persist
  request_vote-Keeps rf request e = ground arith

  pub handle_vote_response-Keeps :
      (rf : Raft Cmd) (n : ℕ) (request : RequestVoteRequest) (response : RequestVoteResponse)
      {rf' : Raft Cmd} {m : ℕ}
      → handle_vote_response rf n request response ≡ some (rf', m)
      → Keeps rf rf'
  unfolding handle_vote_response change_state broadcast_heartbeat persist
  handle_vote_response-Keeps rf n request response e = ground arith

  pub on_election_timeout-Keeps :
      (rf : Raft Cmd) {rf' : Raft Cmd} {n : ℕ}
      → on_election_timeout rf ≡ some (rf', n)
      → Keeps rf rf'
  unfolding on_election_timeout change_state start_election persist
  on_election_timeout-Keeps rf e = ground arith

  pub on_heartbeat_timeout-Keeps : (rf : Raft Cmd) → Keeps rf (on_heartbeat_timeout rf)
  unfolding on_heartbeat_timeout broadcast_heartbeat
  on_heartbeat_timeout-Keeps rf = ground arith

  pub handle_append_entries_response-Keeps :
      (rf : Raft Cmd) (peer : ℕ) (request : AppendEntriesRequest Cmd)
      (response : AppendEntriesResponse) {rf' : Raft Cmd}
      → handle_append_entries_response rf peer request response ≡ some rf'
      → Keeps rf rf'
  unfolding handle_append_entries_response on_success advance_commit_index_for_leader change_state
      persist
  handle_append_entries_response-Keeps rf peer request response e = ground arith

  pub install_snapshot-Keeps :
      (rf : Raft Cmd) (request : InstallSnapshotRequest) {rf' : Raft Cmd}
      {r : InstallSnapshotResponse}
      → install_snapshot rf request ≡ some (rf', r)
      → Keeps rf rf'
  unfolding install_snapshot change_state persist
  install_snapshot-Keeps rf request e = ground arith

  pub handle_install_snapshot_response-Keeps :
      (rf : Raft Cmd) (peer : ℕ) (request : InstallSnapshotRequest)
      (response : InstallSnapshotResponse) {rf' : Raft Cmd}
      → handle_install_snapshot_response rf peer request response ≡ some rf'
      → Keeps rf rf'
  unfolding handle_install_snapshot_response change_state persist
  handle_install_snapshot_response-Keeps rf peer request response e = ground arith

  read_persist-follower :
      (rf : Raft Cmd) (bytes : List ℕ) {rf' : Raft Cmd}
      → read_persist rf bytes ≡ some rf'
      → rf'.state ≡ rf.state
  unfolding read_persist
  read_persist-follower rf [] e = ground arith
  read_persist-follower rf (b ∷ bytes) e = ground arith

  pub make-follower :
      (rf : Raft Cmd) {rf' : Raft Cmd}
      → make rf.peers rf.me rf.persister ≡ some rf'
      → rf'.state ≡ follower
  unfolding make fresh
  make-follower rf e =
      let start : Raft Cmd = fresh rf.peers rf.me rf.persister in
      let (a, read, rest) = bind-some (read_persist start (read_raft_state rf.persister)) _ e in
      let same = read_persist-follower start (read_raft_state rf.persister) read in ground arith

  pub make-Keeps :
      (rf : Raft Cmd) {rf' : Raft Cmd}
      → make rf.peers rf.me rf.persister ≡ some rf'
      → OnDisk rf
      → Keeps rf rf'
  make-Keeps rf e disk =
      let (term, vote, logs, persister) = make-SameDurable rf e disk in
      (sym logs, inr (term, inr (inl (make-follower rf e))))

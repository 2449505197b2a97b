-- ===== src/Raft/Cluster/Quiet.antt =====
-- No event but an answer to a vote request makes a node a leader, and none changes who it is.
use raft_side.Prelude.{
  ℕ, ◌+◌, ◌/◌, ◌<◌, ◌≡◌, ◌⊎◌, inl, inr, true, false, some, List, [], ◌∷◌, arith, Bool, Option,
  Option-cases, bind_first-some,
}
use raft_side.Raft.Types.{
  leader, is_state, RequestVoteRequest, RequestVoteResponse, AppendEntriesRequest,
  AppendEntriesResponse, InstallSnapshotRequest, InstallSnapshotResponse, Raft,
}
use raft_side.Raft.Persist.{RaftCodec, persist, read_persist, read_raft_state}
use raft_side.Raft.Log.{change_state}
use raft_side.Raft.Vote.{
  broadcast_heartbeat, gen_request_vote_request, request_vote, start_election, handle_vote_response,
}
use raft_side.Raft.Append.{
  follow, compare_logs, accept_entries, advance_commit_index_for_follower, append_entries,
}
use raft_side.Raft.Replicate.{
  advance_commit_index_for_leader, on_success, append_new_entry, handle_append_entries_response,
  handle_install_snapshot_response,
}
use raft_side.Raft.Snapshot.{save_snapshot, take_snapshot, install_snapshot, cond_install_snapshot}
use raft_side.Raft.Server.{
  make, fresh, start, on_election_timeout, on_heartbeat_timeout, applier_done, kill,
}
use raft_side.Raft.Node.{
  Event, election_timeout, heartbeat_timeout, vote_request, vote_response, append_request,
  append_response, snapshot_request, snapshot_response, client_command, client_snapshot,
  client_install, applied, killed, crash, step,
}
use raft_side.Raft.Cluster.{is_voting}

-- The same node; a leader only if it was the leader of the term before.
abbrev pub Quiet : {Cmd : Type 0} → Raft Cmd → Raft Cmd → Type 0
Quiet rf rf' =
    (rf'.peers ≡ rf.peers)
    × (rf'.me ≡ rf.me)
    × ((is_state rf'.state leader ≡ false)
        ⊎ (is_state rf.state leader ≡ true) × (rf'.current_term ≡ rf.current_term))

module _ {Cmd : Type 0} ⦃codec : RaftCodec Cmd⦄ where
  pub request_vote-Quiet :
      (rf : Raft Cmd) (request : RequestVoteRequest) {rf' : Raft Cmd} {r : RequestVoteResponse}
      → request_vote rf request ≡ some (rf', r)
      → Quiet rf rf'
  unfolding request_vote change_state persist
  request_vote-Quiet rf request e = ground arith

  -- A granted vote is for the candidate and the term of the request.
  pub request_vote-grants :
      (rf : Raft Cmd) (request : RequestVoteRequest) {rf' : Raft Cmd} {r : RequestVoteResponse}
      → request_vote rf request ≡ some (rf', r)
      → r.vote_granted ≡ true
      → (rf'.current_term ≡ request.term) × (rf'.voted_for ≡ some request.candidate_id)
  unfolding request_vote change_state persist
  request_vote-grants rf request e g = ground arith

  -- A candidate is in the term after its own, and has voted for itself.
  pub on_election_timeout-begins :
      (rf : Raft Cmd) {rf' : Raft Cmd} {votes : ℕ} {request : RequestVoteRequest}
      → on_election_timeout rf ≡ some (rf', votes)
      → gen_request_vote_request rf' ≡ some request
      → (is_state rf'.state leader ≡ false)
        × (rf'.peers ≡ rf.peers)
        × (rf'.me ≡ rf.me)
        × (rf'.current_term ≡ rf.current_term + 1)
        × (rf'.voted_for ≡ some rf.me)
        × (votes ≡ 1)
        × (request.term ≡ rf'.current_term)
        × (request.candidate_id ≡ rf.me)
  unfolding on_election_timeout start_election gen_request_vote_request change_state persist
  on_election_timeout-begins rf e g = ground arith

  -- An answer raises the counter by one where it grants the vote, and makes a leader only of the
  -- candidate of the request's term, with more than half of the votes.
  pub handle_vote_response-counts :
      (rf : Raft Cmd) (n : ℕ) (request : RequestVoteRequest) (response : RequestVoteResponse)
      {rf' : Raft Cmd} {n' : ℕ}
      → handle_vote_response rf n request response ≡ some (rf', n')
      → (rf'.peers ≡ rf.peers)
        × (rf'.me ≡ rf.me)
        × ((n' ≡ n) ⊎ (response.vote_granted ≡ true) × (n' ≡ n + 1))
        × ((is_state rf'.state leader ≡ false)
            ⊎ (is_state rf.state leader ≡ true) × (rf'.current_term ≡ rf.current_term)
            ⊎ (rf'.current_term ≡ request.term) × (rf.peers / 2 < n'))
  unfolding handle_vote_response change_state broadcast_heartbeat persist
  handle_vote_response-counts rf n request response e = ground arith

  accept_entries-Quiet :
      (rf : Raft Cmd) (request : AppendEntriesRequest Cmd) {rf' : Raft Cmd}
      {r : AppendEntriesResponse}
      → accept_entries rf request ≡ some (rf', r)
      → (rf'.peers ≡ rf.peers) × (rf'.me ≡ rf.me) × (rf'.state ≡ rf.state)
  unfolding accept_entries advance_commit_index_for_follower
  accept_entries-Quiet rf request e = ground arith

  compare_logs-Quiet :
      (rf : Raft Cmd) (request : AppendEntriesRequest Cmd) {rf' : Raft Cmd}
      {r : AppendEntriesResponse}
      → compare_logs rf request ≡ some (rf', r)
      → (rf'.peers ≡ rf.peers) × (rf'.me ≡ rf.me) × (rf'.state ≡ rf.state)
  unfolding compare_logs
  compare_logs-Quiet rf request {rf'} {r} e =
      ground (arith, accept_entries-Quiet rf request {rf' = rf'} {r = r})

  follow-Quiet :
      (rf : Raft Cmd) (term : ℕ) {rf' : Raft Cmd}
      → follow rf term ≡ some rf'
      → (rf'.peers ≡ rf.peers) × (rf'.me ≡ rf.me) × (is_state rf'.state leader ≡ false)
  unfolding follow change_state
  follow-Quiet rf term e = ground arith

  append_entries-Quiet :
      (rf : Raft Cmd) (request : AppendEntriesRequest Cmd) {rf' : Raft Cmd}
      {r : AppendEntriesResponse}
      → append_entries rf request ≡ some (rf', r)
      → Quiet rf rf'
  unfolding append_entries persist
  append_entries-Quiet rf request e = elim (Option-cases (follow rf request.term)) [
    | inl failed ↦ ground arith
    | inr (a, followed) ↦ elim (Option-cases (compare_logs a request)) [
      | inl failed ↦ ground arith
      | inr ((b, r), compared) ↦
          let left = follow-Quiet rf request.term followed in
          let right = compare_logs-Quiet a request compared in ground arith
    ]
  ]

  handle_append_entries_response-Quiet :
      (rf : Raft Cmd) (peer : ℕ) (request : AppendEntriesRequest Cmd)
      (response : AppendEntriesResponse) {rf' : Raft Cmd}
      → handle_append_entries_response rf peer request response ≡ some rf'
      → Quiet rf rf'
  unfolding handle_append_entries_response on_success advance_commit_index_for_leader change_state
      persist
  handle_append_entries_response-Quiet rf peer request response e = ground arith

  handle_install_snapshot_response-Quiet :
      (rf : Raft Cmd) (peer : ℕ) (request : InstallSnapshotRequest)
      (response : InstallSnapshotResponse) {rf' : Raft Cmd}
      → handle_install_snapshot_response rf peer request response ≡ some rf'
      → Quiet rf rf'
  unfolding handle_install_snapshot_response change_state persist
  handle_install_snapshot_response-Quiet rf peer request response e = ground arith

  start-Quiet :
      (rf : Raft Cmd) (command : Cmd) {rf' : Raft Cmd} {r : Option (ℕ × ℕ)}
      → start rf command ≡ some (rf', r)
      → Quiet rf rf'
  unfolding start append_new_entry broadcast_heartbeat persist
  start-Quiet rf command e = ground arith

  take_snapshot-Quiet :
      (rf : Raft Cmd) (index : ℕ) (snapshot : List ℕ) {rf' : Raft Cmd}
      → take_snapshot rf index snapshot ≡ some rf'
      → Quiet rf rf'
  unfolding take_snapshot save_snapshot
  take_snapshot-Quiet rf index snapshot e = ground arith

  install_snapshot-Quiet :
      (rf : Raft Cmd) (request : InstallSnapshotRequest) {rf' : Raft Cmd}
      {r : InstallSnapshotResponse}
      → install_snapshot rf request ≡ some (rf', r)
      → Quiet rf rf'
  unfolding install_snapshot change_state persist
  install_snapshot-Quiet rf request e = ground arith

  cond_install_snapshot-Quiet :
      (rf : Raft Cmd) (term index : ℕ) (snapshot : List ℕ) {rf' : Raft Cmd} {b : Bool}
      → cond_install_snapshot rf term index snapshot ≡ some (rf', b)
      → Quiet rf rf'
  unfolding cond_install_snapshot save_snapshot
  cond_install_snapshot-Quiet rf term index snapshot e = ground arith

  read_persist-Quiet :
      (rf : Raft Cmd) (bytes : List ℕ) {rf' : Raft Cmd}
      → read_persist rf bytes ≡ some rf'
      → (rf'.peers ≡ rf.peers) × (rf'.me ≡ rf.me) × (rf'.state ≡ rf.state)
  unfolding read_persist
  read_persist-Quiet rf [] e = ground arith
  read_persist-Quiet rf (b ∷ bytes) e = ground arith

  make-Quiet :
      (rf : Raft Cmd) {rf' : Raft Cmd} → make rf.peers rf.me rf.persister ≡ some rf' → Quiet rf rf'
  unfolding make fresh
  make-Quiet rf e =
      let start : Raft Cmd = fresh rf.peers rf.me rf.persister in
      elim (Option-cases (read_persist start (read_raft_state rf.persister))) [
        | inl failed ↦ absurd (ground arith)
        | inr (a, read) ↦
            let quiet = read_persist-Quiet start (read_raft_state rf.persister) read in ground arith
      ]

  on_heartbeat_timeout-Quiet : (rf : Raft Cmd) → Quiet rf (on_heartbeat_timeout rf)
  unfolding on_heartbeat_timeout broadcast_heartbeat
  on_heartbeat_timeout-Quiet rf = ground arith

  pub step-Quiet :
      (rf : Raft Cmd) (event : Event Cmd) {rf' : Raft Cmd}
      → is_voting event ≡ false
      → step rf event ≡ some rf'
      → Quiet rf rf'
  unfolding step applier_done kill
  step-Quiet rf election_timeout v e = absurd (ground arith)
  step-Quiet rf heartbeat_timeout v e = let quiet = on_heartbeat_timeout-Quiet rf in ground arith
  step-Quiet rf (vote_request request) v e = absurd (ground arith)
  step-Quiet rf (vote_response n request response) v e = absurd (ground arith)
  step-Quiet rf (append_request request) v e =
      let (r, done) = bind_first-some (append_entries rf request) e in
      append_entries-Quiet rf request done
  step-Quiet rf (append_response peer request response) v e =
      handle_append_entries_response-Quiet rf peer request response e
  step-Quiet rf (snapshot_request request) v e =
      let (r, done) = bind_first-some (install_snapshot rf request) e in
      install_snapshot-Quiet rf request done
  step-Quiet rf (snapshot_response peer request response) v e =
      handle_install_snapshot_response-Quiet rf peer request response e
  step-Quiet rf (client_command command) v e =
      let (r, done) = bind_first-some (start rf command) e in start-Quiet rf command done
  step-Quiet rf (client_snapshot index snapshot) v e = take_snapshot-Quiet rf index snapshot e
  step-Quiet rf (client_install term index snapshot) v e =
      let (b, done) = bind_first-some (cond_install_snapshot rf term index snapshot) e in
      cond_install_snapshot-Quiet rf term index snapshot done
  step-Quiet rf (applied commit_index) v e = ground arith
  step-Quiet rf killed v e = ground arith
  step-Quiet rf crash v e = make-Quiet rf e

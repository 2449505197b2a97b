-- ===== src/Raft/Complete/Settles.antt =====
-- The operations of a node that keep its log, and neither begin to lead nor to stand.
use raft_side.Prelude.{ℕ, ◌≤◌, ◌≡◌, ◌⊎◌, inl, inr, sym, ap, arith, some, true, false, suc}
use raft_side.Raft.Types.{
  follower, candidate, leader, is_state, RequestVoteRequest, RequestVoteResponse,
  AppendEntriesRequest, AppendEntriesResponse, InstallSnapshotRequest, InstallSnapshotResponse,
  Raft,
}
use raft_side.Raft.Persist.{RaftCodec, persist}
use raft_side.Raft.Log.{change_state, is_log_up_to_date}
use raft_side.Raft.Shape.{IsLog, last_term, last_index, get_last_log-index, get_last_log-last_term}
use raft_side.Raft.Votes.{OnDisk}
use raft_side.Raft.Vote.{broadcast_heartbeat, request_vote, start_election, handle_vote_response}
use raft_side.Raft.Replicate.{
  advance_commit_index_for_leader, on_success, handle_append_entries_response,
  handle_install_snapshot_response,
}
use raft_side.Raft.Snapshot.{install_snapshot}
use raft_side.Raft.Server.{on_heartbeat_timeout, on_election_timeout, make}
use raft_side.Raft.History.{make-SameDurable}
use raft_side.Raft.Matching.Keeps.{make-follower}
use raft_side.Raft.Complete.History.{IsUpToDate}
use raft_side.Raft.Complete.Group.{Still}

module _ {Cmd : Type 0} where
  -- The log as it was, and the state as it was or a follower's.
  abbrev pub Settles : Raft Cmd → Raft Cmd → Type 0
  Settles rf rf' =
      (rf'.logs ≡ rf.logs)
      × (rf.current_term ≤ rf'.current_term)
      × ((rf'.current_term ≡ rf.current_term) × (rf'.state ≡ rf.state) ⊎ (rf'.state ≡ follower))

  pub Settles-Still : (rf rf' : Raft Cmd) → Settles rf rf' → Still rf rf'
  Settles-Still rf rf' (logs, later, inl (term, state)) = record {
    last = (ap last_term logs, ap last_index logs);
    later = later;
    leads = λ l. (rw state at l, term);
    stands = λ l. (rw state at l, term);
  }
  Settles-Still rf rf' (logs, later, inr state) = record {
    last = (ap last_term logs, ap last_index logs);
    later = later;
    leads = λ l. let no : is_state follower leader ≡ true = rw state at l in absurd (ground arith);
    stands =
        λ l. let no : is_state follower candidate ≡ true = rw state at l in absurd (ground arith);
  }

  module _ ⦃codec : RaftCodec Cmd⦄ where
    pub request_vote-Settles :
        (rf : Raft Cmd) (request : RequestVoteRequest) {rf' : Raft Cmd} {r : RequestVoteResponse}
        → request_vote rf request ≡ some (rf', r)
        → Settles rf rf'
    unfolding request_vote change_state persist
    request_vote-Settles rf request e = ground arith

    -- A vote is granted to a candidate whose log is no older than the node's.
    pub request_vote-IsUpToDate :
        (rf : Raft Cmd) (request : RequestVoteRequest) {rf' : Raft Cmd} {r : RequestVoteResponse}
        → request_vote rf request ≡ some (rf', r)
        → r.vote_granted ≡ true
        → IsLog rf.logs
        → IsUpToDate
            (last_term rf.logs)
            (last_index rf.logs)
            request.last_log_term
            request.last_log_index
          × (rf.current_term ≤ request.term)
    unfolding request_vote change_state persist is_log_up_to_date
    request_vote-IsUpToDate rf request {rf'} {r} e g l =
        let (last, is_last, at_last) = get_last_log-index rf.logs l in
        let term = get_last_log-last_term rf.logs last is_last in ground arith

    -- The answer to a vote request makes the candidate of the request's term the leader, or settles.
    pub handle_vote_response-outcome :
        (rf : Raft Cmd) (n : ℕ) (request : RequestVoteRequest) (response : RequestVoteResponse)
        {rf' : Raft Cmd} {m : ℕ}
        → handle_vote_response rf n request response ≡ some (rf', m)
        → Settles rf rf'
          ⊎ (rf'.logs ≡ rf.logs)
            × (rf'.current_term ≡ rf.current_term)
            × (is_state rf.state candidate ≡ true)
            × (rf'.state ≡ leader)
            × (request.term ≡ rf.current_term)
    unfolding handle_vote_response change_state broadcast_heartbeat persist
    handle_vote_response-outcome rf n request response e = ground arith

    pub on_election_timeout-stands :
        (rf : Raft Cmd) {rf' : Raft Cmd} {n : ℕ}
        → on_election_timeout rf ≡ some (rf', n)
        → (rf'.logs ≡ rf.logs)
          × (rf'.current_term ≡ suc rf.current_term)
          × (is_state rf'.state leader ≡ false)
    unfolding on_election_timeout change_state start_election persist
    on_election_timeout-stands rf e = ground arith

    pub handle_append_entries_response-Settles :
        (rf : Raft Cmd) (peer : ℕ) (request : AppendEntriesRequest Cmd)
        (response : AppendEntriesResponse) {rf' : Raft Cmd}
        → handle_append_entries_response rf peer request response ≡ some rf'
        → Settles rf rf'
    unfolding handle_append_entries_response on_success advance_commit_index_for_leader change_state
        persist
    handle_append_entries_response-Settles rf peer request response e = ground arith

    pub install_snapshot-Settles :
        (rf : Raft Cmd) (request : InstallSnapshotRequest) {rf' : Raft Cmd}
        {r : InstallSnapshotResponse}
        → install_snapshot rf request ≡ some (rf', r)
        → Settles rf rf'
    unfolding install_snapshot change_state persist
    install_snapshot-Settles rf request e = ground arith

    pub handle_install_snapshot_response-Settles :
        (rf : Raft Cmd) (peer : ℕ) (request : InstallSnapshotRequest)
        (response : InstallSnapshotResponse) {rf' : Raft Cmd}
        → handle_install_snapshot_response rf peer request response ≡ some rf'
        → Settles rf rf'
    unfolding handle_install_snapshot_response change_state persist
    handle_install_snapshot_response-Settles rf peer request response e = ground arith

    pub make-Settles :
        (rf : Raft Cmd) {rf' : Raft Cmd}
        → make rf.peers rf.me rf.persister ≡ some rf'
        → OnDisk rf
        → Settles rf rf'
    make-Settles rf e disk =
        let (term, vote, logs, persister) = make-SameDurable rf e disk in
        (sym logs, omega (arith, term), inr (make-follower rf e))

    pub on_heartbeat_timeout-Settles : (rf : Raft Cmd) → Settles rf (on_heartbeat_timeout rf)
    unfolding on_heartbeat_timeout broadcast_heartbeat
    on_heartbeat_timeout-Settles rf = ground arith

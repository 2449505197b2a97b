-- ===== src/Raft/Vote.antt =====
-- raft/raft_vote.go and raft/raft_election.go: asking for votes, granting them, counting them.
use raft_side.Prelude.{
  ℕ, zero, suc, ◌+◌, ◌/◌, Bool, true, false, not, ◌&&◌, ◌||◌, Option, none, some, List, ◌∷◌, ◌>>=◌,
  ltb, ◌==◌, if◌then◌else◌,
}
use raft_side.Raft.Types.{
  follower, candidate, leader, is_state, RequestVoteRequest, RequestVoteResponse, Task, ask_vote,
  replicate_round, wake_replicator, Raft,
}
use raft_side.Raft.Persist.{RaftCodec, persist}
use raft_side.Raft.Log.{get_last_log, is_log_up_to_date, change_state}

-- `votedFor != -1 && votedFor != id`
abbrev pub voted_other : Option ℕ → ℕ → Bool
voted_other none id = false
voted_other (some v) id = not (v == id)

-- `for peer := range rf.peers { if peer == rf.me { continue }; … }`, where the body hands a task to
-- another goroutine: the tasks, those of the earlier peers first to be handed over.
unfoldable pub tasks_for_others :
    {Cmd : Type 0} → (ℕ → Task Cmd) → (me peers : ℕ) → List (Task Cmd) → List (Task Cmd)
tasks_for_others task me zero tasks = tasks
tasks_for_others task me (suc peer) tasks =
    let earlier = tasks_for_others task me peer tasks in
    if peer == me then earlier else task peer ∷ earlier

module _ {Cmd : Type 0} where
  unfoldable pub broadcast_heartbeat : Bool → Raft Cmd → Raft Cmd
  broadcast_heartbeat is_heart_beat rf =
      let task : ℕ → Task Cmd = if is_heart_beat then replicate_round else wake_replicator in
      record rf { tasks = tasks_for_others task rf.me rf.peers rf.tasks }

  unfoldable pub gen_request_vote_request : Raft Cmd → Option RequestVoteRequest
  gen_request_vote_request rf = do
    last_log ← get_last_log rf.logs
    some (record {
      term = rf.current_term;
      candidate_id = rf.me;
      last_log_index = last_log.index;
      last_log_term = last_log.term;
    })

  -- The part of `RequestVote` for a request of a later term.
  adopt_term : ℕ → Raft Cmd → Option (Raft Cmd)
  adopt_term term rf =
      if ltb rf.current_term term
      then (do
        rf' ← change_state follower rf
        some (record rf' { current_term = term; voted_for = none }))
      else some rf

  -- The body of `RequestVote`, before the deferred `persist`.
  decide_vote : Raft Cmd → RequestVoteRequest → Option (Raft Cmd × RequestVoteResponse)
  unfolding adopt_term
  decide_vote rf request =
      if ltb request.term rf.current_term
        || (request.term == rf.current_term && voted_other rf.voted_for request.candidate_id)
      then some (rf, record { term = rf.current_term; vote_granted = false })
      else (do
        rf' ← adopt_term request.term rf
        up_to_date ← is_log_up_to_date rf'.logs request.last_log_term request.last_log_index
        if up_to_date
            then some (
              record rf' { voted_for = some request.candidate_id; election_timer = true },
              record { term = rf'.current_term; vote_granted = true },
            )
            else some (rf', record { term = rf'.current_term; vote_granted = false }))

  module _ ⦃codec : RaftCodec Cmd⦄ where
    unfoldable pub request_vote :
        Raft Cmd → RequestVoteRequest → Option (Raft Cmd × RequestVoteResponse)
    unfolding decide_vote
    request_vote rf request = do
      (rf', response) ← decide_vote rf request
      some (persist rf', response)

    -- `StartElection` up to the loop that starts the goroutines, and the loop. The goroutines share
    -- the counter `grantedVotes`, which begins at 1.
    unfoldable pub start_election : Raft Cmd → Option (Raft Cmd × ℕ)
    start_election rf = do
      request ← gen_request_vote_request rf
      let rf' = persist (record rf { voted_for = some rf.me })
      let tasks = tasks_for_others (λ peer. ask_vote peer request) rf.me rf.peers rf.tasks
      some (record rf' { tasks = tasks }, 1)

    -- What such a goroutine does with the answer.
    unfoldable pub handle_vote_response :
        Raft Cmd
        → (granted_votes : ℕ) → RequestVoteRequest
        → RequestVoteResponse
        → Option (Raft Cmd × ℕ)
    handle_vote_response rf granted_votes request response =
        if rf.current_term == request.term && is_state rf.state candidate
        then if response.vote_granted
          then if ltb (rf.peers / 2) (granted_votes + 1)
            then (do
              rf' ← change_state leader rf
              some (broadcast_heartbeat true rf', granted_votes + 1))
            else some (rf, granted_votes + 1)
          else if ltb rf.current_term response.term
          then (do
            rf' ← change_state follower rf
            some (
              persist (record rf' { current_term = response.term; voted_for = none }),
              granted_votes,
            ))
          else some (rf, granted_votes)
        else some (rf, granted_votes)

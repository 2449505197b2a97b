-- ===== src/Raft/History.antt =====
-- What holds of a node over every sequence of events, crashes among them.
use raft_side.Prelude.{
  ℕ, ◌<◌, ◌≡◌, ap, ◌∙◌, ◌≢◌, inl, inr, refl, none, some, List, [], ◌∷◌, arith, true, length,
  Option-cases, bind_first-some,
}
use raft_side.Raft.Types.{Raft, RequestVoteRequest, RequestVoteResponse}
use raft_side.Raft.Persist.{
  RaftCodec, Durable, durable, clone, read_raft_state, read_persist, persist,
}
use raft_side.Raft.Log.{get_last_log, change_state}
use raft_side.Raft.Shape.{get_last_log-some}
use raft_side.Raft.Vote.{broadcast_heartbeat, request_vote, handle_vote_response}
use raft_side.Raft.Append.{append_entries}
use raft_side.Raft.Snapshot.{install_snapshot, cond_install_snapshot}
use raft_side.Raft.Server.{
  make, start, on_election_timeout, on_heartbeat_timeout, fresh, applier_done, kill,
}
use raft_side.Raft.Node.{
  Event, election_timeout, heartbeat_timeout, vote_request, vote_response, append_request,
  append_response, snapshot_request, snapshot_response, client_command, client_snapshot,
  client_install, applied, killed, crash, step, run,
}
use raft_side.Raft.Votes

module _ {Cmd : Type 0} ⦃codec : RaftCodec Cmd⦄ where
  read_persist-decoded :
      (rf : Raft Cmd) (bytes : List ℕ) (d : Durable Cmd)
      → codec.decode bytes ≡ some d
      → bytes ≢ []
      → {rf' : Raft Cmd} → read_persist rf bytes ≡ some rf'
      → (durable rf' ≡ d) × (rf'.persister ≡ rf.persister) × (rf'.logs ≢ [])
  unfolding read_persist
  read_persist-decoded rf [] d decoded nonempty e = absurd (nonempty refl)
  read_persist-decoded rf (b ∷ bytes) d decoded nonempty e = ground arith

  make-new :
      (rf : Raft Cmd) {rf' : Raft Cmd}
      → make rf.peers rf.me rf.persister ≡ some rf'
      → (rf.persister.raftstate ≡ [])
        × (rf.current_term ≡ 0)
        × (rf.voted_for ≡ none)
        × (rf.logs ≡ Votes.zero_entry ∷ [])
      → Votes.SameDurable rf rf'
  unfolding make fresh read_raft_state read_persist clone
  make-new rf e new = ground arith

  pub make-SameDurable :
      (rf : Raft Cmd) {rf' : Raft Cmd}
      → make rf.peers rf.me rf.persister ≡ some rf'
      → Votes.OnDisk rf
      → Votes.SameDurable rf rf'
  unfolding make fresh read_raft_state
  make-SameDurable rf e (inl saved) =
      let start : Raft Cmd = fresh rf.peers rf.me rf.persister in
      elim (Option-cases (read_persist start (clone rf.persister.raftstate))) [
        | inl failed ↦ ground arith
        | inr (a, read) ↦
            let bytes : clone rf.persister.raftstate ≡ codec.encode (durable rf) =
              Votes.clone_lem rf.persister.raftstate ∙ saved in
            let back =
              read_persist-decoded start (codec.encode (durable rf)) (durable rf)
                (codec.decode-encode (durable rf)) (codec.encode-ne_nil (durable rf))
                (rw bytes at read) in
            ground (
              arith,
              ap (λ (d : Durable Cmd). d.current_term) back.0,
              ap (λ (d : Durable Cmd). d.voted_for) back.0,
              ap (λ (d : Durable Cmd). d.logs) back.0,
            )
      ]
  make-SameDurable rf e (inr new) = make-new rf e new

  pub step-safe :
      (rf : Raft Cmd) (event : Event Cmd) {rf' : Raft Cmd}
      → step rf event ≡ some rf'
      → Votes.OnDisk rf
      → Votes.KeepsVote rf rf' × Votes.OnDisk rf'
  unfolding step on_heartbeat_timeout broadcast_heartbeat applier_done kill
  step-safe rf election_timeout e d =
      let (n, done) = bind_first-some (on_election_timeout rf) e in
      Votes.on_election_timeout-safe rf done
  step-safe rf heartbeat_timeout e d = ground arith
  step-safe rf (vote_request request) e d =
      let (r, done) = bind_first-some (request_vote rf request) e in
      Votes.request_vote-safe rf request done
  step-safe rf (vote_response n request response) e d =
      let (m, done) = bind_first-some (handle_vote_response rf n request response) e in
      Votes.handle_vote_response-safe rf n request response done d
  step-safe rf (append_request request) e d =
      let (r, done) = bind_first-some (append_entries rf request) e in
      Votes.append_entries-safe rf request done
  step-safe rf (append_response peer request response) e d =
      Votes.handle_append_entries_response-safe rf peer request response e d
  step-safe rf (snapshot_request request) e d =
      let (r, done) = bind_first-some (install_snapshot rf request) e in
      Votes.install_snapshot-safe rf request done d
  step-safe rf (snapshot_response peer request response) e d =
      Votes.handle_install_snapshot_response-safe rf peer request response e d
  step-safe rf (client_command command) e d =
      let (r, done) = bind_first-some (start rf command) e in Votes.start-safe rf command done d
  step-safe rf (client_snapshot index snapshot) e d = Votes.take_snapshot-safe rf index snapshot e d
  step-safe rf (client_install term index snapshot) e d =
      let (b, done) = bind_first-some (cond_install_snapshot rf term index snapshot) e in
      Votes.cond_install_snapshot-safe rf term index snapshot done d
  step-safe rf (applied commit_index) e d = ground arith
  step-safe rf killed e d = ground arith
  step-safe rf crash {rf'} e d =
      let same = make-SameDurable rf e d in (ground arith, Votes.OnDisk-SameDurable rf rf' same d)

  -- Over any events, in any order, a node's term does not fall, it never changes a vote within a
  -- term, and what it would restart with is what it has: if that was so at the start.
  pub run-safe :
      (rf : Raft Cmd) (events : List (Event Cmd)) {rf' : Raft Cmd}
      → run rf events ≡ some rf'
      → Votes.OnDisk rf
      → Votes.KeepsVote rf rf' × Votes.OnDisk rf'
  unfolding run
  run-safe rf [] {rf'} e d = ground arith
  run-safe rf (event ∷ events) {rf'} e d = elim (Option-cases (step rf event)) [
    | inl failed ↦ ground arith
    | inr (a, stepped) ↦
        let (vote, disk) = step-safe rf event stepped d in
        let (later, end) = run-safe a events {rf' = rf'} (rw (stepped, run) at e) disk in
        (Votes.KeepsVote-trans rf a rf' vote later, end)
  ]

  -- A granted vote is recorded for the candidate, in the request's term.
  request_vote-records :
      (rf : Raft Cmd) (request : RequestVoteRequest) {rf' : Raft Cmd} {r : RequestVoteResponse}
      → request_vote rf request ≡ some (rf', r)
      → r.vote_granted ≡ true
      → (rf'.current_term ≡ request.term)
        × (rf'.voted_for ≡ some request.candidate_id)
        × (r.term ≡ request.term)
  unfolding request_vote change_state persist
  request_vote-records rf request e g = ground arith

  -- A node that granted its vote, and then went through any events, crashes among them, does not
  -- grant another candidate its vote in the same term.
  pub request_vote-once :
      (rf : Raft Cmd) (first second : RequestVoteRequest) (events : List (Event Cmd))
      (after before last : Raft Cmd) (r s : RequestVoteResponse)
      → request_vote rf first ≡ some (after, r)
      → r.vote_granted ≡ true
      → run after events ≡ some before
      → request_vote before second ≡ some (last, s)
      → s.vote_granted ≡ true
      → second.term ≡ first.term
      → second.candidate_id ≡ first.candidate_id
  request_vote-once rf first second events after before last r s one yes_one between two yes_two
        same =
      let (kept, disk) = Votes.request_vote-safe rf first one in
      let (held, still) = run-safe after events between disk in
      let (again, end) = Votes.request_vote-safe before second two in
      ground (
        arith,
        request_vote-records rf first one yes_one,
        request_vote-records before second two yes_two,
      )

  read_persist-total :
      (rf : Raft Cmd) (bytes : List ℕ) (d : Durable Cmd)
      → codec.decode bytes ≡ some d
      → bytes ≢ []
      → 0 < length d.logs
      → (rf' : Raft Cmd) × (read_persist rf bytes ≡ some rf') × (rf'.logs ≡ d.logs)
  unfolding read_persist
  read_persist-total rf [] d decoded nonempty h = absurd (nonempty refl)
  read_persist-total rf (b ∷ bytes) d decoded nonempty h =
      elim (Option-cases (read_persist rf (b ∷ bytes))) [
        | inl failed ↦ absurd (grind arith)
        | inr (a, read) ↦ (a, read, ground arith)
      ]

  new_disk :
      (rf : Raft Cmd)
      → (rf.persister.raftstate ≡ [])
        × (rf.current_term ≡ 0)
        × (rf.voted_for ≡ none)
        × (rf.logs ≡ Votes.zero_entry ∷ [])
      → make {Cmd = Cmd} rf.peers rf.me rf.persister ≢ none
  unfolding make fresh read_raft_state read_persist clone get_last_log
  new_disk rf new failed = ground arith

  not-make-none :
      (rf : Raft Cmd)
      → Votes.OnDisk rf
      → 0 < length rf.logs
      → make {Cmd = Cmd} rf.peers rf.me rf.persister ≢ none
  unfolding make read_raft_state
  not-make-none rf (inr new) h failed = new_disk rf new failed
  not-make-none rf (inl saved) h failed =
      let start : Raft Cmd = fresh rf.peers rf.me rf.persister in
      let bytes : clone rf.persister.raftstate ≡ codec.encode (durable rf) =
        Votes.clone_lem rf.persister.raftstate ∙ saved in
      let (a, read, same) =
        read_persist-total start (codec.encode (durable rf)) (durable rf)
          (codec.decode-encode (durable rf)) (codec.encode-ne_nil (durable rf)) h in
      let (last, is_last) = get_last_log-some a.logs (rw same h) in ground arith

  make-total :
      (rf : Raft Cmd)
      → Votes.OnDisk rf
      → 0 < length rf.logs
      → (rf' : Raft Cmd) × (make rf.peers rf.me rf.persister ≡ some rf')
  unfolding make fresh read_raft_state read_persist clone
  make-total rf d h =
      elim (Option-cases (make {Cmd = Cmd} ⦃codec = codec⦄ rf.peers rf.me rf.persister)) [
        | inl failed ↦ absurd (not-make-none rf d h failed)
        | inr (a, made) ↦ (a, made)
      ]

  -- A node with a log, whose disk holds what it has, restarts without a panic, with the term, the
  -- vote and the log that it had.
  pub make-recovers :
      (rf : Raft Cmd)
      → Votes.OnDisk rf
      → 0 < length rf.logs
      → (rf' : Raft Cmd) × (make rf.peers rf.me rf.persister ≡ some rf') × Votes.SameDurable rf rf'
  make-recovers rf d h =
      let (rf', made) = make-total rf d h in (rf', made, make-SameDurable rf made d)

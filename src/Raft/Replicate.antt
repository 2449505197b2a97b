-- ===== src/Raft/Replicate.antt =====
-- raft/raft_replication.go: what a leader sends to its peers, and what it does with the answers.
use raft_side.Prelude.{
  ℕ, zero, suc, ◌+◌, ◌-◌, ◌/◌, Bool, false, ◌&&◌, Option, none, some, List, [], ◌∷◌, ◌++◌, ◌>>=◌, ℤ,
  pos, negsuc, pred_ℤ, length, get_elem?, set?, slice_from, ltb, ◌==◌, if◌then◌else◌, sub?,
}
use raft_side.Raft.Types.{
  Entry, follower, leader, is_state, AppendEntriesRequest, AppendEntriesResponse,
  InstallSnapshotRequest, InstallSnapshotResponse, wake_applier, Raft, spawn,
}
use raft_side.Raft.Persist.{RaftCodec, persist, read_snapshot}
use raft_side.Raft.Log.{get_last_log, get_first_log, match_log, change_state}
use raft_side.Raft.Sort.{insertion_sort}

-- The two requests of one round.
pub data Outgoing (Cmd : Type 0) : Type 0 where
  snapshot_request : InstallSnapshotRequest → Outgoing Cmd
  entries_request : AppendEntriesRequest Cmd → Outgoing Cmd

module _ {Cmd : Type 0} where
  unfoldable pub gen_append_entries_request :
      Raft Cmd → (prev_log_index : ℕ) → Option (AppendEntriesRequest Cmd)
  gen_append_entries_request rf prev_log_index = do
    first_log ← get_first_log rf.logs
    next ← sub? (prev_log_index + 1) first_log.index
    entries ← slice_from rf.logs next
    offset ← sub? prev_log_index first_log.index
    prev ← get_elem? rf.logs offset
    some (record {
      term = rf.current_term;
      leader_id = rf.me;
      prev_log_index = prev_log_index;
      prev_log_term = prev.term;
      leader_commit = rf.commit_index;
      entries = entries;
    })

  unfoldable pub gen_install_snapshot_request : Raft Cmd → Option InstallSnapshotRequest
  gen_install_snapshot_request rf = do
    first_log ← get_first_log rf.logs
    some (record {
      term = rf.current_term;
      leader_id = rf.me;
      last_included_index = first_log.index;
      last_included_term = first_log.term;
      snapshot = read_snapshot rf.persister;
    })

  -- `prevLogIndex < getFirstLog().Index`, with the request of each branch.
  request_after : Raft Cmd → (prev_log_index : ℤ) → Option (Outgoing Cmd)
  request_after rf (negsuc n) = do
    request ← gen_install_snapshot_request rf
    some (snapshot_request request)
  request_after rf (pos prev_log_index) = do
    first_log ← get_first_log rf.logs
    if ltb prev_log_index first_log.index
        then (do request ← gen_install_snapshot_request rf; some (snapshot_request request))
        else (do
          request ← gen_append_entries_request rf prev_log_index
          some (entries_request request))

  -- `replicateOneRound` up to the call of the peer; no request if the node is not the leader.
  unfoldable pub replicate_one_round : Raft Cmd → (peer : ℕ) → Option (Option (Outgoing Cmd))
  unfolding request_after
  replicate_one_round rf peer =
      if is_state rf.state leader
      then (do
        next ← get_elem? rf.next_index peer
        request ← request_after rf (pred_ℤ next)
        some (some request))
      else some none

  unfoldable pub need_replicating : Raft Cmd → (peer : ℕ) → Option Bool
  need_replicating rf peer =
      if is_state rf.state leader
      then (do
        matched ← get_elem? rf.match_index peer
        last_log ← get_last_log rf.logs
        some (ltb matched last_log.index))
      else some false

  unfoldable pub advance_commit_index_for_leader : Raft Cmd → Option (Raft Cmd)
  advance_commit_index_for_leader rf = do
    let n = length rf.match_index
    place ← sub? n (n / 2 + 1)
    new_commit_index ← get_elem? (insertion_sort rf.match_index) place
    if ltb rf.commit_index new_commit_index
        then (do
          matched ← match_log rf.logs rf.current_term new_commit_index
          if matched
              then some (spawn wake_applier (record rf { commit_index = new_commit_index }))
              else some rf)
        else some rf

  -- `for i := request.PrevLogIndex; i >= firstIndex; i--`, at `i + 1 - firstIndex`: the place after
  -- the last entry of the term, if there is one.
  unfoldable pub find_last_of_term : List (Entry Cmd) → (term : ℕ) → ℕ → Option (Option ℕ)
  find_last_of_term logs term zero = some none
  find_last_of_term logs term (suc k) =
      let rest = find_last_of_term logs term k in
      (do entry ← get_elem? logs k; if entry.term == term then some (some (suc k)) else rest)

  -- The new `nextIndex` after a conflict.
  unfoldable pub next_after_conflict :
      List (Entry Cmd) → (prev : ℕ) → (index : ℤ) → (term : Option ℕ) → Option ℤ
  next_after_conflict logs prev index none = some index
  next_after_conflict logs prev index (some term) = do
    first_log ← get_first_log logs
    found ← find_last_of_term logs term (prev + 1 - first_log.index)
    some (elim found [ none ↦ index | some k ↦ pos (first_log.index + k) ])

  unfoldable pub on_success : Raft Cmd → (peer matched : ℕ) → Option (Raft Cmd)
  on_success rf peer matched = do
    match_index ← set? rf.match_index peer matched
    next_index ← set? rf.next_index peer (pos (matched + 1))
    advance_commit_index_for_leader
        (record rf { match_index = match_index; next_index = next_index })

  module _ ⦃codec : RaftCodec Cmd⦄ where
    step_down : Raft Cmd → ℕ → Option (Raft Cmd)
    step_down rf term = do
      rf' ← change_state follower rf
      some (persist (record rf' { current_term = term; voted_for = none }))

    unfoldable pub handle_append_entries_response :
        Raft Cmd → (peer : ℕ) → AppendEntriesRequest Cmd → AppendEntriesResponse → Option (Raft Cmd)
    unfolding step_down
    handle_append_entries_response rf peer request response =
        if is_state rf.state leader && rf.current_term == request.term
        then (if response.success
            then on_success rf peer (request.prev_log_index + length request.entries)
            else if ltb rf.current_term response.term
            then step_down rf response.term
            else if response.term == rf.current_term
            then (do
              next ←
                  next_after_conflict rf.logs request.prev_log_index response.conflict_index
                    response.conflict_term
              next_index ← set? rf.next_index peer next
              some (record rf { next_index = next_index }))
            else some rf)
        else some rf

    unfoldable pub handle_install_snapshot_response :
        Raft Cmd → (peer : ℕ) → InstallSnapshotRequest → InstallSnapshotResponse → Option (Raft Cmd)
    unfolding step_down
    handle_install_snapshot_response rf peer request response =
        if is_state rf.state leader && rf.current_term == request.term
        then if ltb rf.current_term response.term then step_down rf response.term else (do
          match_index ← set? rf.match_index peer request.last_included_index
          next_index ← set? rf.next_index peer (pos (request.last_included_index + 1))
          some (record rf { match_index = match_index; next_index = next_index }))
        else some rf

    unfoldable pub append_new_entry : Raft Cmd → Cmd → Option (Raft Cmd × Entry Cmd)
    append_new_entry rf command = do
      last_log ← get_last_log rf.logs
      let new_log : Entry Cmd = record {
        index = last_log.index + 1;
        term = rf.current_term;
        command = some command;
      }
      match_index ← set? rf.match_index rf.me new_log.index
      next_index ← set? rf.next_index rf.me (pos (new_log.index + 1))
      let rf' = record rf {
        logs = rf.logs ++ new_log ∷ [];
        match_index = match_index;
        next_index = next_index;
      }
      some (persist rf', new_log)

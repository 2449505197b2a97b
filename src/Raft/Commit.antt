-- ===== src/Raft/Commit.antt =====
-- When a leader moves its commit index (advanceCommitIndexForLeader, and the answer that leads to it).
use raft_side.Prelude.{
  ℕ, zero, suc, ◌+◌, ◌-◌, ◌/◌, ◌≤◌, ◌<◌, ◌≡◌, ◌⊎◌, refl, some, List, [], arith, length,
  ne_none-some, get_elem?, ◌∷◌, true, set, length-set, set?-lt, pos,
}
use raft_side.Raft.Types.{Raft, AppendEntriesRequest, AppendEntriesResponse, leader}
use raft_side.Raft.Persist.{RaftCodec}
use raft_side.Raft.Sort.{insertion_sort}
use raft_side.Raft.Sort.Order.{at, length-insertion_sort}
use raft_side.Raft.Sort.Majority.{count_ge, insertion_sort-count_ge}
use raft_side.Raft.Shape.{IsLog, first_index, term_at, match_log_lem}
use raft_side.Raft.Replicate.{
  advance_commit_index_for_leader, handle_append_entries_response, on_success,
}

get_elem?-at : (l : List ℕ) (i : ℕ) → i < length l → get_elem? l i ≡ some (at l i)
get_elem?-at [] i h = absurd (omega arith)
get_elem?-at (x ∷ l) zero h = refl
get_elem?-at (x ∷ l) (suc i) h = get_elem?-at l i (omega arith)

module _ {Cmd : Type 0} where
  -- The commit index stays, or moves up to an index that more than half of the nodes have reached
  -- and at which the log has an entry of the current term.
  abbrev pub Commits : Raft Cmd → Raft Cmd → Type 0
  Commits rf rf' =
      (rf'.commit_index ≡ rf.commit_index)
      ⊎ (rf.commit_index < rf'.commit_index)
        × (term_at rf.logs (rf'.commit_index - first_index rf.logs) ≡ some rf.current_term)
        × (length rf.match_index / 2 < count_ge rf'.commit_index rf.match_index)

  pub advance_commit_index_for_leader_lem :
      (rf : Raft Cmd)
      → IsLog rf.logs
      → first_index rf.logs ≤ rf.commit_index
      → 0 < length rf.match_index
      → (rf' : Raft Cmd) × (advance_commit_index_for_leader rf ≡ some rf')
        × (rf'.logs ≡ rf.logs)
        × (rf'.match_index ≡ rf.match_index)
        × Commits rf rf'
  unfolding advance_commit_index_for_leader
  advance_commit_index_for_leader_lem rf l low some_peer =
      let n = length rf.match_index in
      let same = length-insertion_sort rf.match_index in
      let place = n - (n / 2 + 1) in
      let sorted = insertion_sort rf.match_index in
      let found = get_elem?-at sorted place (omega arith) in
      let majority =
        insertion_sort-count_ge rf.match_index (n / 2 + 1) (omega arith) (omega arith) in
      let new_commit = at sorted place in
      let (a, done) =
        ne_none-some (advance_commit_index_for_leader rf)
          (λ failed. ground (arith, match_log_lem rf.logs rf.current_term new_commit l)) in
      (
        a,
        done,
        ground arith,
        ground arith,
        ground (arith, match_log_lem rf.logs rf.current_term new_commit l),
      )

  module _ ⦃codec : RaftCodec Cmd⦄ where
    -- A leader with a log of its shape, which it has not cut beyond its commit index, that is told of
    -- a success of one of its peers in its term notes how far the peer has come, and does not panic;
    -- its commit index stays or moves to an entry of its term that more than half of the nodes hold
    -- by its notes, the new one included.
    pub handle_append_entries_response-commits :
        (rf : Raft Cmd) (peer : ℕ) (request : AppendEntriesRequest Cmd)
        (response : AppendEntriesResponse)
        → IsLog rf.logs
        → first_index rf.logs ≤ rf.commit_index
        → peer < length rf.match_index
        → peer < length rf.next_index
        → rf.state ≡ leader
        → rf.current_term ≡ request.term
        → response.success ≡ true
        → (rf' : Raft Cmd) × (handle_append_entries_response rf peer request response ≡ some rf')
          × (rf'.match_index
              ≡ set rf.match_index peer (request.prev_log_index + length request.entries))
          × ((rf'.commit_index ≡ rf.commit_index)
              ⊎ (rf.commit_index < rf'.commit_index)
                × (term_at rf.logs (rf'.commit_index - first_index rf.logs) ≡ some rf.current_term)
                × (length rf.match_index / 2 < count_ge rf'.commit_index rf'.match_index))
    unfolding handle_append_entries_response on_success
    handle_append_entries_response-commits rf peer request response l low in_match in_next lead term
          ok =
        let matched = request.prev_log_index + length request.entries in
        let noted = set rf.match_index peer matched in
        let long = length-set rf.match_index peer matched in
        let noted_match = set?-lt rf.match_index peer matched in_match in
        let noted_next = set?-lt rf.next_index peer (pos (matched + 1)) in_next in
        let (a, done, logs, same, commits) =
          advance_commit_index_for_leader_lem
            (record rf {
              match_index = noted;
              next_index = set rf.next_index peer (pos (matched + 1));
            })
            l low (omega arith) in
        (a, ground arith, same, ground arith)

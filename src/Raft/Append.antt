-- ===== src/Raft/Append.antt =====
-- raft/raft_append_entries.go: the handler of AppendEntries, and raft/util.go's `Min` and `Max`.
-- `shrinkEntriesArray` changes the capacity of a slice and not its elements; slices are values here.
use raft_side.Prelude.{
  ℕ, zero, suc, ◌+◌, Bool, true, false, Option, none, some, List, [], ◌∷◌, ◌++◌, ◌>>=◌, ℤ, pos,
  sub_ℕ, get_elem?, slice_to, ltb, ◌==◌, if◌then◌else◌, sub?,
}
use raft_side.Raft.Types.{
  Entry, follower, AppendEntriesRequest, AppendEntriesResponse, wake_applier, Raft, spawn,
}
use raft_side.Raft.Persist.{RaftCodec, persist}
use raft_side.Raft.Log.{get_last_log, get_first_log, match_log, change_state}

unfoldable pub min_int : ℕ → ℕ → ℕ
min_int x y = if ltb y x then y else x

unfoldable pub max_int : ℕ → ℕ → ℕ
max_int x y = if ltb x y then y else x

abbrev pub refuse : ℕ → ℤ → Option ℕ → AppendEntriesResponse
refuse term conflict_index conflict_term = record {
  term = term;
  success = false;
  conflict_index = conflict_index;
  conflict_term = conflict_term;
}

module _ {Cmd : Type 0} where
  -- `for index >= firstIndex && logs[index-firstIndex].Term == term { index-- }`, at
  -- `index + 1 - firstIndex`.
  unfoldable pub scan_conflict : List (Entry Cmd) → (term : ℕ) → ℕ → Option ℕ
  scan_conflict logs term zero = some zero
  scan_conflict logs term (suc k) =
      let rest = scan_conflict logs term k in
      (do entry ← get_elem? logs k; if entry.term == term then rest else some (suc k))

  -- `entry.Index-firstIndex >= len(rf.logs) || rf.logs[entry.Index-firstIndex].Term != entry.Term`,
  -- at the offset.
  unfoldable pub differs_at : List (Entry Cmd) → ℕ → Entry Cmd → Bool
  differs_at logs offset entry = elim (get_elem? logs offset) [
    | none ↦ true
    | some found ↦ if found.term == entry.term then false else true
  ]

  -- The loop over `request.Entries`, with its `break`.
  unfoldable pub merge_entries :
      List (Entry Cmd) → (first_index : ℕ) → List (Entry Cmd) → Option (List (Entry Cmd))
  merge_entries logs first_index [] = some logs
  merge_entries logs first_index (entry ∷ rest) =
      let continued = merge_entries logs first_index rest in
      (do
        offset ← sub? entry.index first_index
        if differs_at logs offset entry
            then (do kept ← slice_to logs offset; some (kept ++ entry ∷ rest))
            else continued)

  unfoldable pub advance_commit_index_for_follower : Raft Cmd → ℕ → Option (Raft Cmd)
  unfolding min_int
  advance_commit_index_for_follower rf leader_commit = do
    last_log ← get_last_log rf.logs
    let new_commit_index = min_int leader_commit last_log.index
    if ltb rf.commit_index new_commit_index
        then some (spawn wake_applier (record rf { commit_index = new_commit_index }))
        else some rf

  -- The conflict that a follower whose log does not match reports: an index and a term.
  unfoldable pub find_conflict : List (Entry Cmd) → (prev : ℕ) → Option (ℤ × Option ℕ)
  find_conflict logs prev = do
    last_log ← get_last_log logs
    first_log ← get_first_log logs
    if ltb last_log.index prev then some (pos (last_log.index + 1), none) else (do
      offset ← sub? prev first_log.index
      entry ← get_elem? logs offset
      k ← scan_conflict logs entry.term offset
      some (sub_ℕ (first_log.index + k) 1, some entry.term))

  -- The head of the handler, once the request's term is not old.
  unfoldable pub follow : Raft Cmd → ℕ → Option (Raft Cmd)
  follow rf term = do
    rf' ← change_state follower (
        if ltb rf.current_term term
        then record rf { current_term = term; voted_for = none }
        else rf)
    some (record rf' { election_timer = true })

  -- The handler where the log matches at `prev_log_index`.
  unfoldable pub accept_entries :
      Raft Cmd → AppendEntriesRequest Cmd → Option (Raft Cmd × AppendEntriesResponse)
  accept_entries rf request = do
    first_log ← get_first_log rf.logs
    logs ← merge_entries rf.logs first_log.index request.entries
    rf' ← advance_commit_index_for_follower (record rf { logs = logs }) request.leader_commit
    some (
      rf',
      record {
        term = rf'.current_term;
        success = true;
        conflict_index = pos 0;
        conflict_term = some 0;
      },
    )

  -- The handler after the head.
  unfoldable pub compare_logs :
      Raft Cmd → AppendEntriesRequest Cmd → Option (Raft Cmd × AppendEntriesResponse)
  compare_logs rf request = do
    first_log ← get_first_log rf.logs
    if ltb request.prev_log_index first_log.index then some (rf, refuse 0 (pos 0) (some 0)) else (do
      matched ← match_log rf.logs request.prev_log_term request.prev_log_index
      if matched then accept_entries rf request else (do
        (index, term) ← find_conflict rf.logs request.prev_log_index
        some (rf, refuse rf.current_term index term)))

  module _ ⦃codec : RaftCodec Cmd⦄ where
    unfoldable pub append_entries :
        Raft Cmd → AppendEntriesRequest Cmd → Option (Raft Cmd × AppendEntriesResponse)
    append_entries rf request =
        if ltb request.term rf.current_term
        then some (persist rf, refuse rf.current_term (pos 0) (some 0))
        else (do
          followed ← follow rf request.term
          (rf', response) ← compare_logs followed request
          some (persist rf', response))

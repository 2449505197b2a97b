-- ===== src/Tests/RaftRuns.antt =====
-- The theorems on the package raft, each at a node of the sample group.
use Prim.Native.Nat.{max}
use raft_side.Prelude.{
  ℕ, suc, pos, sub_ℕ, ◌+◌, ◌-◌, ◌/◌, ◌≤◌, ◌<◌, ◌≡◌, ◌≢◌, ◌⊎◌, inl, inr, refl, arith, true, false,
  some, none, [], ◌∷◌, set,
}
use raft_side.Raft.Types.{
  Raft, RequestVoteRequest, RequestVoteResponse, AppendEntriesRequest, AppendEntriesResponse,
}
use raft_side.Raft.Persist.{
  read_persist, read_raft_state, save_raft_state, encode_state, persist, clone,
}
use raft_side.Raft.Log.{change_state, is_log_up_to_date, get_last_log}
use raft_side.Raft.Shape.{IsLog, term_at, first_index, last_index}
use raft_side.Raft.Sort.{insertion_sort}
use raft_side.Raft.Sort.Majority.{insertion_sort-count_ge, count_ge}
use raft_side.Raft.Sort.Order.{at}
use raft_side.Raft.Vote.{request_vote}
use raft_side.Raft.Append.{append_entries, merge_entries, find_conflict}
use raft_side.Raft.Accept.{Handled, append_entries_lem}
use raft_side.Raft.Merge.{merge_entries-Stored}
use raft_side.Raft.Conflict.{AllOfTerm, find_conflict_lem, NoneOfTerm, find_last_of_term_lem}
use raft_side.Raft.Commit.{handle_append_entries_response-commits}
use raft_side.Raft.Cut.{SameEntriesAfter, take_snapshot_lem, cond_install_snapshot_lem}
use raft_side.Raft.Replicate.{handle_append_entries_response, find_last_of_term}
use raft_side.Raft.Snapshot.{take_snapshot, cond_install_snapshot}
use raft_side.Raft.Server.{make}
use raft_side.Raft.Votes
use raft_side.Raft.History
use raft_side.Raft.Node.{crash, run, step}
use raft_side.Tests.RaftData.{
  number_codec, entry, new_node, behind, leading, behind-IsLog, encode_durable, decode_durable,
}

-- What the runs below compute with.
program : Unit {0}
unfolding request_vote persist change_state is_log_up_to_date get_last_log save_raft_state clone
    encode_state encode_durable decode_durable run step make read_persist read_raft_state
program = tt

insertion_sort_runs : insertion_sort (3 ∷ 1 ∷ 2 ∷ []) ≡ 1 ∷ 2 ∷ 3 ∷ []
unfolding insertion_sort
insertion_sort_runs = refl

abbrev ask : ℕ → RequestVoteRequest
ask id = record { term = 1; candidate_id = id; last_log_index = 0; last_log_term = 0 }

abbrev granted : RequestVoteResponse
granted = record { term = 1; vote_granted = true }

abbrev voted : Raft ℕ
voted = record new_node {
  current_term = 1;
  voted_for = some 2;
  persister = record { raftstate = 1 ∷ 3 ∷ 0 ∷ 0 ∷ 0 ∷ []; snapshot = [] };
}

vote_runs : request_vote new_node (ask 2) ≡ some (voted, granted)
unfolding program
vote_runs = refl

abbrev refused : RequestVoteResponse
refused = record { term = 1; vote_granted = false }

other_vote_refused : (request_vote voted (ask 1)) ≡ some (voted, refused)
unfolding program
other_vote_refused = refl

insertion_sort-count_ge_example :
    2 ≤ count_ge (at (insertion_sort (3 ∷ 2 ∷ 0 ∷ [])) 1) (3 ∷ 2 ∷ 0 ∷ [])
insertion_sort-count_ge_example =
    insertion_sort-count_ge (3 ∷ 2 ∷ 0 ∷ []) 2 (omega arith) (omega arith)

new_node-OnDisk : Votes.OnDisk new_node
new_node-OnDisk = inr (refl, refl, refl, refl)

voted-OnDisk : Votes.OnDisk voted
unfolding encode_durable
voted-OnDisk = inl refl

abbrev restarted : Raft ℕ
restarted = record voted { heartbeat_timer = true; election_timer = true }

restart_runs : run voted (crash ∷ []) ≡ some restarted
unfolding program
restart_runs = refl

run-safe_example : Votes.KeepsVote voted restarted × Votes.OnDisk restarted
run-safe_example = History.run-safe voted (crash ∷ []) restart_runs voted-OnDisk

vote_again_runs : request_vote restarted (ask 2) ≡ some (restarted, granted)
unfolding program
vote_again_runs = refl

request_vote-once_example : ◌≡◌ {A = ℕ} 2 2
request_vote-once_example =
    History.request_vote-once new_node (ask 2) (ask 2) (crash ∷ []) voted restarted restarted
      granted granted vote_runs refl restart_runs vote_again_runs refl refl

make-recovers_example :
    (rf' : Raft ℕ) × (make 3 0 voted.persister ≡ some rf') × Votes.SameDurable voted rf'
make-recovers_example = History.make-recovers voted voted-OnDisk (omega arith)

abbrev appending : AppendEntriesRequest ℕ
appending = record {
  term = 2;
  leader_id = 1;
  prev_log_index = 2;
  prev_log_term = 1;
  leader_commit = 3;
  entries = entry 3 2 12 ∷ entry 4 2 13 ∷ [];
}

append_entries_lem_example :
    (rf' : Raft ℕ) × (r : AppendEntriesResponse) × (append_entries behind appending ≡ some (rf', r))
    × Handled behind rf' appending r
append_entries_lem_example = append_entries_lem behind appending behind-IsLog (omega arith)

merge_entries-Stored_example : merge_entries behind.logs 0 (entry 2 1 11 ∷ []) ≡ some behind.logs
merge_entries-Stored_example =
    merge_entries-Stored behind.logs 0 (entry 2 1 11 ∷ []) 2 (omega arith) (refl, tt)

find_conflict_lem_example :
    (term r : ℕ) × (find_conflict behind.logs 2 ≡ some (sub_ℕ (0 + r) 1, some term))
    × (term_at behind.logs 2 ≡ some term)
    × (r ≤ 2)
    × AllOfTerm behind.logs r 2 term
    × (0 < r → term_at behind.logs (r - 1) ≢ some term)
find_conflict_lem_example = find_conflict_lem behind.logs 2 behind-IsLog (omega arith) (omega arith)

find_last_of_term_lem_example :
    ((find_last_of_term behind.logs 1 3 ≡ some none) × NoneOfTerm behind.logs 0 3 1)
    ⊎ ((r : ℕ) × (find_last_of_term behind.logs 1 3 ≡ some (some (suc r)))
        × (r < 3)
        × (term_at behind.logs r ≡ some 1)
        × NoneOfTerm behind.logs (suc r) 3 1)
find_last_of_term_lem_example = find_last_of_term_lem behind.logs 1 3 (omega arith)

abbrev stored_answer : AppendEntriesResponse
stored_answer = record { term = 2; success = true; conflict_index = pos 0; conflict_term = some 0 }

handle_append_entries_response-commits_example :
    (rf' : Raft ℕ) × (handle_append_entries_response leading 1 appending stored_answer ≡ some rf')
    × (rf'.match_index ≡ set leading.match_index 1 4)
    × ((rf'.commit_index ≡ 1)
        ⊎ (1 < rf'.commit_index)
          × (term_at leading.logs (rf'.commit_index - 0) ≡ some 2)
          × (3 / 2 < count_ge rf'.commit_index rf'.match_index))
handle_append_entries_response-commits_example =
    handle_append_entries_response-commits leading 1 appending stored_answer behind-IsLog
      (omega arith) (omega arith) (omega arith) refl refl refl

take_snapshot_lem_example :
    (rf' : Raft ℕ) × (take_snapshot behind 1 (7 ∷ []) ≡ some rf')
    × IsLog rf'.logs
    × (first_index rf'.logs ≡ 1)
    × (last_index rf'.logs ≡ 3)
    × SameEntriesAfter 1 behind.logs rf'.logs
    × (term_at rf'.logs 0 ≡ some 1)
    × (rf'.persister.snapshot ≡ 7 ∷ [])
    × (rf'.commit_index ≡ 1)
take_snapshot_lem_example =
    take_snapshot_lem behind 1 (7 ∷ []) behind-IsLog (omega arith) (omega arith)

cond_install_snapshot_lem_example :
    (rf' : Raft ℕ) × (cond_install_snapshot behind 2 5 (7 ∷ []) ≡ some (rf', true))
    × IsLog rf'.logs
    × (first_index rf'.logs ≡ 5)
    × (term_at rf'.logs 0 ≡ some 2)
    × (last_index rf'.logs ≡ max 5 3)
    × (rf'.commit_index ≡ 5)
    × (rf'.last_applied ≡ 5)
cond_install_snapshot_lem_example =
    cond_install_snapshot_lem behind 2 5 (7 ∷ []) behind-IsLog (omega arith) (omega arith)

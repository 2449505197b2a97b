-- ===== src/Raft/Votes.antt =====
-- A node's vote in its term, and the copy of its durable state on disk, across the handlers of the
-- package raft.
use raft_side.Prelude.{
  ℕ, ◌<◌, ◌≡◌, ◌⊎◌, inl, inr, refl, none, some, List, [], ◌∷◌, arith, ap, Bool, Option,
  Option-cases,
}
use raft_side.Raft.Types.{
  Entry, NodeState, RequestVoteRequest, RequestVoteResponse, AppendEntriesRequest,
  AppendEntriesResponse, InstallSnapshotRequest, InstallSnapshotResponse, Raft,
}
use raft_side.Raft.Persist.{
  RaftCodec, durable, clone, save_raft_state, save_state_and_snapshot, encode_state, persist,
}
use raft_side.Raft.Log.{change_state}
use raft_side.Raft.Vote.{broadcast_heartbeat, request_vote, start_election, handle_vote_response}
use raft_side.Raft.Append.{
  follow, compare_logs, accept_entries, advance_commit_index_for_follower, append_entries,
}
use raft_side.Raft.Replicate.{
  advance_commit_index_for_leader, on_success, append_new_entry, handle_append_entries_response,
  handle_install_snapshot_response,
}
use raft_side.Raft.Snapshot.{save_snapshot, take_snapshot, install_snapshot, cond_install_snapshot}
use raft_side.Raft.Server.{start, on_election_timeout}

-- The term does not fall, and a vote is not changed while the term lasts.
abbrev pub KeepsVote : {Cmd : Type 0} → Raft Cmd → Raft Cmd → Type 0
KeepsVote rf rf' =
    (rf.current_term < rf'.current_term)
    ⊎ (rf.current_term ≡ rf'.current_term)
      × ((rf.voted_for ≡ none) ⊎ (rf.voted_for ≡ rf'.voted_for))

abbrev pub zero_entry : {Cmd : Type 0} → Entry Cmd
zero_entry = record { index = 0; term = 0; command = none }

-- What is on disk is what is in memory; an empty disk stands for the state of a new node.
abbrev pub OnDisk : {Cmd : Type 0} ⦃codec : RaftCodec Cmd⦄ → Raft Cmd → Type 0
OnDisk ⦃codec⦄ rf =
    (rf.persister.raftstate ≡ codec.encode (durable rf))
    ⊎ (rf.persister.raftstate ≡ [])
      × (rf.current_term ≡ 0)
      × (rf.voted_for ≡ none)
      × (rf.logs ≡ zero_entry ∷ [])

pub clone_lem : (l : List ℕ) → clone l ≡ l
unfolding clone
clone_lem [] = refl
clone_lem (b ∷ l) = ap (◌∷◌ b) (clone_lem l)

-- The durable part of a node and its disk are the same.
abbrev pub SameDurable : {Cmd : Type 0} → Raft Cmd → Raft Cmd → Type 0
SameDurable rf rf' =
    (rf.current_term ≡ rf'.current_term)
    × (rf.voted_for ≡ rf'.voted_for)
    × (rf.logs ≡ rf'.logs)
    × (rf.persister ≡ rf'.persister)

module _ {Cmd : Type 0} where
  pub KeepsVote-trans : (a b c : Raft Cmd) → KeepsVote a b → KeepsVote b c → KeepsVote a c
  KeepsVote-trans a b c h k = ground arith

  pub change_state-SameDurable :
      (s : NodeState) (rf : Raft Cmd) {rf' : Raft Cmd}
      → change_state s rf ≡ some rf'
      → SameDurable rf rf'
  unfolding change_state
  change_state-SameDurable s rf e = ground arith

  module _ ⦃codec : RaftCodec Cmd⦄ where
    persist-OnDisk : (rf : Raft Cmd) → OnDisk (persist rf)
    unfolding persist save_raft_state encode_state
    persist-OnDisk rf = inl (clone_lem (codec.encode (durable rf)))

    pub OnDisk-SameDurable : (a b : Raft Cmd) → SameDurable a b → OnDisk a → OnDisk b
    OnDisk-SameDurable a b same d = ground arith

    pub request_vote-safe :
        (rf : Raft Cmd) (request : RequestVoteRequest) {rf' : Raft Cmd} {r : RequestVoteResponse}
        → request_vote rf request ≡ some (rf', r)
        → KeepsVote rf rf' × OnDisk rf'
    unfolding request_vote change_state persist save_raft_state encode_state
    request_vote-safe rf request e = grind (arith, clone_lem)

    accept_entries-vote :
        (rf : Raft Cmd) (request : AppendEntriesRequest Cmd) {rf' : Raft Cmd}
        {r : AppendEntriesResponse}
        → accept_entries rf request ≡ some (rf', r)
        → (rf.current_term ≡ rf'.current_term) × (rf.voted_for ≡ rf'.voted_for)
    unfolding accept_entries advance_commit_index_for_follower
    accept_entries-vote rf request e = ground arith

    compare_logs-vote :
        (rf : Raft Cmd) (request : AppendEntriesRequest Cmd) {rf' : Raft Cmd}
        {r : AppendEntriesResponse}
        → compare_logs rf request ≡ some (rf', r)
        → (rf.current_term ≡ rf'.current_term) × (rf.voted_for ≡ rf'.voted_for)
    unfolding compare_logs
    compare_logs-vote rf request {rf'} {r} e =
        ground (arith, accept_entries-vote rf request {rf' = rf'} {r = r})

    follow-KeepsVote :
        (rf : Raft Cmd) (term : ℕ) {rf' : Raft Cmd} → follow rf term ≡ some rf' → KeepsVote rf rf'
    unfolding follow change_state
    follow-KeepsVote rf term e = ground arith

    pub append_entries-safe :
        (rf : Raft Cmd) (request : AppendEntriesRequest Cmd) {rf' : Raft Cmd}
        {r : AppendEntriesResponse}
        → append_entries rf request ≡ some (rf', r)
        → KeepsVote rf rf' × OnDisk rf'
    unfolding append_entries persist save_raft_state encode_state
    append_entries-safe rf request e = elim (Option-cases (follow rf request.term)) [
      | inl failed ↦ grind (arith, clone_lem)
      | inr (a, followed) ↦ elim (Option-cases (compare_logs a request)) [
        | inl failed ↦ grind (arith, clone_lem)
        | inr ((b, r), compared) ↦
            let left = follow-KeepsVote rf request.term followed in
            let right = compare_logs-vote a request compared in grind (arith, clone_lem)
      ]
    ]

    pub handle_vote_response-safe :
        (rf : Raft Cmd) (n : ℕ) (request : RequestVoteRequest) (response : RequestVoteResponse)
        {rf' : Raft Cmd} {n' : ℕ}
        → handle_vote_response rf n request response ≡ some (rf', n')
        → OnDisk rf
        → KeepsVote rf rf' × OnDisk rf'
    unfolding handle_vote_response change_state persist broadcast_heartbeat save_raft_state
        encode_state
    handle_vote_response-safe rf n request response {rf'} e d = grind (arith, clone_lem)

    pub on_election_timeout-safe :
        (rf : Raft Cmd) {rf' : Raft Cmd} {n : ℕ}
        → on_election_timeout rf ≡ some (rf', n)
        → KeepsVote rf rf' × OnDisk rf'
    unfolding on_election_timeout start_election change_state persist save_raft_state encode_state
    on_election_timeout-safe rf e = grind (arith, clone_lem)

    pub handle_append_entries_response-safe :
        (rf : Raft Cmd) (peer : ℕ) (request : AppendEntriesRequest Cmd)
        (response : AppendEntriesResponse) {rf' : Raft Cmd}
        → handle_append_entries_response rf peer request response ≡ some rf'
        → OnDisk rf
        → KeepsVote rf rf' × OnDisk rf'
    unfolding handle_append_entries_response on_success advance_commit_index_for_leader change_state
        persist save_raft_state encode_state
    handle_append_entries_response-safe rf peer request response {rf'} e d =
        grind (arith, clone_lem)

    pub handle_install_snapshot_response-safe :
        (rf : Raft Cmd) (peer : ℕ) (request : InstallSnapshotRequest)
        (response : InstallSnapshotResponse) {rf' : Raft Cmd}
        → handle_install_snapshot_response rf peer request response ≡ some rf'
        → OnDisk rf
        → KeepsVote rf rf' × OnDisk rf'
    unfolding handle_install_snapshot_response change_state persist save_raft_state encode_state
    handle_install_snapshot_response-safe rf peer request response {rf'} e d =
        grind (arith, clone_lem)

    pub start-safe :
        (rf : Raft Cmd) (command : Cmd) {rf' : Raft Cmd} {r : Option (ℕ × ℕ)}
        → start rf command ≡ some (rf', r)
        → OnDisk rf
        → KeepsVote rf rf' × OnDisk rf'
    unfolding start append_new_entry broadcast_heartbeat persist save_raft_state encode_state
    start-safe rf command e d = grind (arith, clone_lem)

    pub take_snapshot-safe :
        (rf : Raft Cmd) (index : ℕ) (snapshot : List ℕ) {rf' : Raft Cmd}
        → take_snapshot rf index snapshot ≡ some rf'
        → OnDisk rf
        → KeepsVote rf rf' × OnDisk rf'
    unfolding take_snapshot save_snapshot save_state_and_snapshot encode_state
    take_snapshot-safe rf index snapshot e d = grind (arith, clone_lem)

    pub install_snapshot-safe :
        (rf : Raft Cmd) (request : InstallSnapshotRequest) {rf' : Raft Cmd}
        {r : InstallSnapshotResponse}
        → install_snapshot rf request ≡ some (rf', r)
        → OnDisk rf
        → KeepsVote rf rf' × OnDisk rf'
    unfolding install_snapshot change_state persist save_raft_state encode_state
    install_snapshot-safe rf request e d = grind (arith, clone_lem)

    pub cond_install_snapshot-safe :
        (rf : Raft Cmd) (term index : ℕ) (snapshot : List ℕ) {rf' : Raft Cmd} {b : Bool}
        → cond_install_snapshot rf term index snapshot ≡ some (rf', b)
        → OnDisk rf
        → KeepsVote rf rf' × OnDisk rf'
    unfolding cond_install_snapshot save_snapshot save_state_and_snapshot encode_state
    cond_install_snapshot-safe rf term index snapshot e d = grind (arith, clone_lem)

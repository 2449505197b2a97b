-- ===== src/Raft/Complete/Ends.antt =====
-- A leader's request ends with the last entry of its log; and the events that keep the last entry.
use raft_side.Prelude.{
  ℕ, zero, suc, ◌+◌, ◌-◌, ◌≡◌, inl, inr, refl, ap, arith, Bool, Option, none, some, true, false,
  List, [], ◌∷◌, length, drop, get_elem?, length-drop, bind_first-some, get_elem?-some-lt,
}
use raft_side.Raft.Types.{Entry, AppendEntriesRequest, leader, is_state, Raft}
use raft_side.Raft.Persist.{RaftCodec}
use raft_side.Raft.Shape.{IsLog, first_index, last_index, last_term}
use raft_side.Raft.Votes.{OnDisk}
use raft_side.Raft.Replicate.{gen_append_entries_request, entries_request, replicate_one_round}
use raft_side.Raft.Snapshot.{install_snapshot, take_snapshot}
use raft_side.Raft.Server.{start, applier_done, kill}
use raft_side.Raft.Node.{
  Event, election_timeout, heartbeat_timeout, vote_request, vote_response, append_request,
  append_response, snapshot_request, snapshot_response, client_command, client_snapshot,
  client_install, applied, killed, crash, step,
}
use raft_side.Raft.Cluster.{is_voting}
use raft_side.Raft.Network.{is_install}
use raft_side.Raft.Matching.Sends.{gen_append_entries_request-part, replicate_one_round-entries}
use raft_side.Raft.Matching.Calls.{start-appends, take_snapshot-cuts}
use raft_side.Raft.Complete.Last.{last_term-drop}
use raft_side.Raft.Complete.Group.{Still}
use raft_side.Raft.Complete.Settles.{
  Settles-Still, handle_append_entries_response-Settles, install_snapshot-Settles,
  handle_install_snapshot_response-Settles, make-Settles, on_heartbeat_timeout-Settles,
}
use raft_side.Raft.Complete.Appends.{as_log, end_index}

-- Requests for entries, and a leader's new commands, are steps of their own.
abbrev pub writes : {Cmd : Type 0} → Raft Cmd → Event Cmd → Bool
writes rf (append_request request) = true
writes rf (client_command command) = is_state rf.state leader
writes rf _ = false

module _ {Cmd : Type 0} where
  drop_at :
      (n : ℕ) (logs : List (Entry Cmd)) (e : Entry Cmd)
      → get_elem? logs n ≡ some e
      → drop n logs ≡ e ∷ drop (suc n) logs
  drop_at n [] e at = absurd (ground arith)
  drop_at zero (x ∷ logs) e at = ground arith
  drop_at (suc n) (x ∷ logs) e at = drop_at n logs e at

  gen_append_entries_request-term :
      (rf : Raft Cmd) (prev : ℕ) {q : AppendEntriesRequest Cmd}
      → gen_append_entries_request rf prev ≡ some q
      → q.term ≡ rf.current_term
  unfolding gen_append_entries_request
  gen_append_entries_request-term rf prev e = ground arith

  replicate_one_round-leads :
      (rf : Raft Cmd) (peer : ℕ) {q : AppendEntriesRequest Cmd}
      → replicate_one_round rf peer ≡ some (some (entries_request q))
      → is_state rf.state leader ≡ true
  unfolding replicate_one_round
  replicate_one_round-leads rf peer e = ground arith

  pub replicate_one_round-ends :
      (rf : Raft Cmd) (peer : ℕ) {q : AppendEntriesRequest Cmd}
      → replicate_one_round rf peer ≡ some (some (entries_request q))
      → IsLog rf.logs
      → (is_state rf.state leader ≡ true)
        × (q.term ≡ rf.current_term)
        × (last_term (as_log q) ≡ last_term rf.logs)
        × (end_index q ≡ last_index rf.logs)
  replicate_one_round-ends rf peer {q} round l =
      let (prev, generated) = replicate_one_round-entries rf peer round in
      let (e, low, index, found, term, entries) =
        gen_append_entries_request-part rf prev generated l in
      let n = prev - first_index rf.logs in
      let next : prev + 1 - first_index rf.logs ≡ suc n = omega arith in
      let tail : q.entries ≡ drop (suc n) rf.logs = rw next at entries in
      let dummy : Entry Cmd = record {
        index = q.prev_log_index;
        term = q.prev_log_term;
        command = none;
      } in
      let ends =
        last_term-drop n rf.logs e (drop (suc n) rf.logs) dummy (drop_at n rf.logs e found) term in
      let inside = get_elem?-some-lt rf.logs n found in
      (
        replicate_one_round-leads rf peer round,
        gen_append_entries_request-term rf prev generated,
        rw tail ends,
        rw tail (omega (arith, length-drop (suc n) rf.logs)),
      )

  module _ ⦃codec : RaftCodec Cmd⦄ where
    take_snapshot-Still :
        (rf : Raft Cmd) (index : ℕ) (snapshot : List ℕ) {rf' : Raft Cmd}
        → take_snapshot rf index snapshot ≡ some rf'
        → IsLog rf.logs
        → Still rf rf'
    take_snapshot-Still rf index snapshot {rf'} e l =
        let (state, term, logs) = take_snapshot-cuts rf index snapshot e l in
        elim logs [
          | inl same ↦ Settles-Still rf rf' (same, omega arith, inl (term, state))
          | inr (n, x, rest, low, at, cut, kept) ↦
              let dummy : Entry Cmd = record x { command = none } in
              let ends = last_term-drop n rf.logs x rest dummy cut refl in
              let long = ap length cut in
              record {
                last = (rw kept ends, rw kept (omega (arith, long, length-drop n rf.logs)));
                later = omega arith;
                leads = λ led. (rw state at led, term);
                stands = λ now. (rw state at now, term);
              }
        ]

    start-Still :
        (rf : Raft Cmd) (command : Cmd) {rf' : Raft Cmd} {r : Option (ℕ × ℕ)}
        → start rf command ≡ some (rf', r)
        → is_state rf.state leader ≡ false
        → Still rf rf'
    start-Still rf command {rf'} e other =
        let (state, term, logs) = start-appends rf command e in
        elim logs [
          | inl (no_, same) ↦ Settles-Still rf rf' (same, omega arith, inl (term, state))
          | inr (led, last, is_last, appended) ↦ absurd (ground arith)
        ]

    -- Any other event but the installation of a snapshot keeps the last entry.
    pub step-Still :
        (rf : Raft Cmd) (event : Event Cmd) {rf' : Raft Cmd}
        → step rf event ≡ some rf'
        → is_voting event ≡ false
        → is_install event ≡ false
        → writes rf event ≡ false
        → OnDisk rf
        → IsLog rf.logs
        → Still rf rf'
    unfolding step applier_done kill
    step-Still rf election_timeout e v i w d l = absurd (ground arith)
    step-Still rf heartbeat_timeout {rf'} e v i w d l =
        Settles-Still rf rf' (let s = on_heartbeat_timeout-Settles rf in ground arith)
    step-Still rf (vote_request request) e v i w d l = absurd (ground arith)
    step-Still rf (vote_response n request response) e v i w d l = absurd (ground arith)
    step-Still rf (append_request request) e v i w d l = absurd (ground arith)
    step-Still rf (append_response peer request response) {rf'} e v i w d l =
        Settles-Still rf rf' (handle_append_entries_response-Settles rf peer request response e)
    step-Still rf (snapshot_request request) {rf'} e v i w d l =
        let (r, done) = bind_first-some (install_snapshot rf request) e in
        Settles-Still rf rf' (install_snapshot-Settles rf request done)
    step-Still rf (snapshot_response peer request response) {rf'} e v i w d l =
        Settles-Still rf rf' (handle_install_snapshot_response-Settles rf peer request response e)
    step-Still rf (client_command command) e v i w d l =
        let (r, done) = bind_first-some (start rf command) e in start-Still rf command done w
    step-Still rf (client_snapshot index snapshot) e v i w d l =
        take_snapshot-Still rf index snapshot e l
    step-Still rf (client_install term index snapshot) e v i w d l = absurd (ground arith)
    step-Still rf (applied commit_index) {rf'} e v i w d l = Settles-Still rf rf' (ground arith)
    step-Still rf killed {rf'} e v i w d l = Settles-Still rf rf' (ground arith)
    step-Still rf crash {rf'} e v i w d l = Settles-Still rf rf' (make-Settles rf e d)

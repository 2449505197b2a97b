-- ===== src/Raft/Matching/Events.antt =====
-- Every event of a node keeps its log a chain.
use raft_side.Prelude.{
  ap, ℕ, ◌+◌, ◌-◌, ◌≡◌, inl, inr, refl, sym, true, some, none, List, ◌∷◌, arith, Bool, Option,
  length, drop, get_elem?, bind_first-some,
}
use raft_side.Raft.Types.{Entry, leader, is_state, Raft}
use raft_side.Raft.Persist.{RaftCodec}
use raft_side.Raft.Log.{get_last_log}
use raft_side.Raft.Shape.{IsLog, first_index, term_at, get_last_log-index}
use raft_side.Raft.Votes.{OnDisk}
use raft_side.Raft.Append.{append_entries}
use raft_side.Raft.Vote.{request_vote, handle_vote_response}
use raft_side.Raft.Cut.{term_at-drop}
use raft_side.Raft.Snapshot.{take_snapshot, install_snapshot, cond_install_snapshot}
use raft_side.Raft.Server.{start, on_election_timeout, applier_done, kill}
use raft_side.Raft.Node.{
  Event, election_timeout, heartbeat_timeout, vote_request, vote_response, append_request,
  append_response, snapshot_request, snapshot_response, client_command, client_snapshot,
  client_install, applied, killed, crash, step,
}
use raft_side.Raft.Network.{Fits}
use raft_side.Raft.Matching.{Made, LogLinked, RequestLinked}
use raft_side.Raft.Matching.Chain.{LogLinked-append}
use raft_side.Raft.Matching.Keeps.{
  Calm, state-Calm, Keeps, Keeps-Calm, request_vote-Keeps, handle_vote_response-Keeps,
  on_election_timeout-Keeps, on_heartbeat_timeout-Keeps, handle_append_entries_response-Keeps,
  install_snapshot-Keeps, handle_install_snapshot_response-Keeps, make-Keeps,
}
use raft_side.Raft.Matching.Writes.{append_entries-LogLinked, append_entries-Calm}
use raft_side.Raft.Matching.Calls.{
  IsLog-append, start-appends, take_snapshot-cuts, cond_install_snapshot-cuts, cut-LogLinked,
}

-- What an event brings in: entries of a chain, a new entry, or a snapshot that fits.
abbrev pub Sound : {Cmd : Type 0} → Made Cmd → Raft Cmd → Event Cmd → Type 0
Sound made rf (append_request request) = RequestLinked made request
Sound {Cmd} made rf (client_command command) =
    is_state rf.state leader ≡ true
    → (last : Entry Cmd) → get_last_log rf.logs ≡ some last
    → made rf.current_term (last.index + 1) ≡ some (last.term, some command)
Sound made rf (client_install term index snapshot) = Fits term index rf.logs
Sound made rf _ = Unit

module _ {Cmd : Type 0} where
  -- A log of its shape that is a chain, by rules that the state kept to.
  abbrev pub Chained : Made Cmd → Raft Cmd → Raft Cmd → Type 0
  Chained made rf rf' = IsLog rf'.logs × LogLinked made rf'.logs × Calm rf rf'

  pub Keeps-Chained :
      (made : Made Cmd) (rf rf' : Raft Cmd)
      → Keeps rf rf'
      → IsLog rf.logs
      → LogLinked made rf.logs
      → Chained made rf rf'
  Keeps-Chained made rf rf' k l linked = (rw (k.0) l, rw (k.0) linked, Keeps-Calm rf rf' k)

  get_last_log-get_elem? :
      (logs : List (Entry Cmd)) (last : Entry Cmd)
      → get_last_log logs ≡ some last
      → get_elem? logs (length logs - 1) ≡ some last
  unfolding get_last_log
  get_last_log-get_elem? logs last e = e

  module _ ⦃codec : RaftCodec Cmd⦄ (made : Made Cmd) (rf : Raft Cmd) (l : IsLog rf.logs)
      (linked : LogLinked made rf.logs) where
    start-Chained :
        (command : Cmd) {rf' : Raft Cmd} {r : Option (ℕ × ℕ)}
        → start rf command ≡ some (rf', r)
        → Sound made rf (client_command command)
        → Chained made rf rf'
    start-Chained command {rf'} e new =
        let (state, term, logs) = start-appends rf command e in
        elim logs [
          | inl (other, same) ↦ Keeps-Chained made rf rf' (same, inr (sym term, inl state)) l linked
          | inr (led, last, is_last, appended) ↦
              let (end, found, at) = get_last_log-index rf.logs l in
              let one : last ≡ end = grind arith in
              let added : Entry Cmd = record {
                index = last.index + 1;
                term = rf.current_term;
                command = some command;
              } in
              let (shape, longer) =
                IsLog-append rf.logs added l (omega (arith, ap Entry.index one)) in
              let chain =
                LogLinked-append made rf.logs last added linked
                  (get_last_log-get_elem? rf.logs last is_last) (new led last is_last) in
              (
                rw appended shape,
                rw appended chain,
                state-Calm rf rf' (inr (sym term, inl state)) (rw appended (omega arith)),
              )
        ]

    take_snapshot-Chained :
        (index : ℕ) (snapshot : List ℕ) {rf' : Raft Cmd}
        → take_snapshot rf index snapshot ≡ some rf'
        → Chained made rf rf'
    take_snapshot-Chained index snapshot {rf'} e =
        let (state, term, logs) = take_snapshot-cuts rf index snapshot e l in
        elim logs [
          | inl same ↦ Keeps-Chained made rf rf' (same, inr (sym term, inl state)) l linked
          | inr (n, x, rest, low, at, cut, kept) ↦
              let (shape, chain, last) =
                cut-LogLinked made n rf.logs x rest (record x { command = none }) l linked low cut
                  at refl in
              (
                rw kept shape,
                rw kept chain,
                state-Calm rf rf' (inr (sym term, inl state)) (rw kept (omega arith)),
              )
        ]

    -- The term of the entry at the cut.
    cut_term :
        (n : ℕ) (x : Entry Cmd) (rest : List (Entry Cmd))
        → drop n rf.logs ≡ x ∷ rest
        → term_at rf.logs n ≡ some x.term
    cut_term n x rest cut =
        let same : term_at (x ∷ rest) 0 ≡ term_at rf.logs (n + 0) =
          rw cut at (term_at-drop n rf.logs 0) in
        let e : n + 0 ≡ n = omega arith in sym (rw e at same)

    cond_install_snapshot-Chained :
        (term index : ℕ) (snapshot : List ℕ) {rf' : Raft Cmd} {b : Bool}
        → cond_install_snapshot rf term index snapshot ≡ some (rf', b)
        → Fits term index rf.logs
        → Chained made rf rf'
    cond_install_snapshot-Chained term index snapshot {rf'} e fits =
        let (state, same_term, logs) = cond_install_snapshot-cuts rf term index snapshot e l in
        elim logs [
          | inl same ↦ Keeps-Chained made rf rf' (same, inr (sym same_term, inl state)) l linked
          | inr (inl (x, rest, low, inside, cut, kept)) ↦
              let n = index - first_index rf.logs in
              let dummy : Entry Cmd = record x { term = term; index = index; command = none } in
              let (shape, chain, last) =
                cut-LogLinked made n rf.logs x rest dummy l linked inside cut (omega arith)
                  (sym (fits x.term (cut_term n x rest cut))) in
              (
                rw kept shape,
                rw kept chain,
                state-Calm rf rf' (inr (sym same_term, inl state)) (rw kept (omega arith)),
              )
          | inr (inr (beyond, kept)) ↦ (
            rw kept (record { nonempty = omega arith; contiguous = (refl, tt) }),
            rw kept tt,
            state-Calm rf rf' (inr (sym same_term, inl state)) (rw kept (omega arith)),
          )
        ]

    -- An event that brings in what was made keeps the log a chain of its shape.
    pub step-Chained :
        (event : Event Cmd) {rf' : Raft Cmd}
        → step rf event ≡ some rf'
        → OnDisk rf
        → Sound made rf event
        → Chained made rf rf'
    unfolding step applier_done kill
    step-Chained election_timeout {rf'} e d s =
        let (n, done) = bind_first-some (on_election_timeout rf) e in
        Keeps-Chained made rf rf' (on_election_timeout-Keeps rf done) l linked
    step-Chained heartbeat_timeout {rf'} e d s =
        Keeps-Chained made rf rf' (let keeps = on_heartbeat_timeout-Keeps rf in ground arith) l
          linked
    step-Chained (vote_request request) {rf'} e d s =
        let (r, done) = bind_first-some (request_vote rf request) e in
        Keeps-Chained made rf rf' (request_vote-Keeps rf request done) l linked
    step-Chained (vote_response n request response) {rf'} e d s =
        let (m, done) = bind_first-some (handle_vote_response rf n request response) e in
        Keeps-Chained made rf rf' (handle_vote_response-Keeps rf n request response done) l linked
    step-Chained (append_request request) e d s =
        let (r, done) = bind_first-some (append_entries rf request) e in
        let (shape, chain) = append_entries-LogLinked made rf request done l s linked in
        (shape, chain, append_entries-Calm rf request done l)
    step-Chained (append_response peer request response) {rf'} e d s =
        Keeps-Chained made rf rf' (handle_append_entries_response-Keeps rf peer request response e)
          l linked
    step-Chained (snapshot_request request) {rf'} e d s =
        let (r, done) = bind_first-some (install_snapshot rf request) e in
        Keeps-Chained made rf rf' (install_snapshot-Keeps rf request done) l linked
    step-Chained (snapshot_response peer request response) {rf'} e d s =
        Keeps-Chained made rf rf'
          (handle_install_snapshot_response-Keeps rf peer request response e) l linked
    step-Chained (client_command command) e d s =
        let (r, done) = bind_first-some (start rf command) e in start-Chained command done s
    step-Chained (client_snapshot index snapshot) e d s = take_snapshot-Chained index snapshot e
    step-Chained (client_install term index snapshot) e d s =
        let (b, done) = bind_first-some (cond_install_snapshot rf term index snapshot) e in
        cond_install_snapshot-Chained term index snapshot done s
    step-Chained (applied commit_index) {rf'} e d s =
        Keeps-Chained made rf rf' (ground arith) l linked
    step-Chained killed {rf'} e d s = Keeps-Chained made rf rf' (ground arith) l linked
    step-Chained crash {rf'} e d s = Keeps-Chained made rf rf' (make-Keeps rf e d) l linked

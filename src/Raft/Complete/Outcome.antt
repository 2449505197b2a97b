-- ===== src/Raft/Complete/Outcome.antt =====
-- The two outcomes of AppendEntries for a node's log.
use raft_side.Prelude.{
  ℕ, ◌-◌, ◌≤◌, ◌≡◌, ◌⊎◌, inl, inr, sym, ◌∙◌, arith, some, Bool-cases, Option-cases, true, false,
  ltb,
}
use raft_side.Raft.Types.{AppendEntriesRequest, AppendEntriesResponse, follower, Raft}
use raft_side.Raft.Persist.{RaftCodec, persist}
use raft_side.Raft.Log.{change_state}
use raft_side.Raft.Shape.{
  IsLog, first_index, term_at, holds_term, get_first_log-index, match_log_lem,
}
use raft_side.Raft.Append.{append_entries, merge_entries, compare_logs, accept_entries, follow}
use raft_side.Raft.Accept.{compare_logs-accept}
use raft_side.Raft.Matching.Writes.{accept_entries-merges, holds_term-term_at}
use raft_side.Raft.Complete.Settles.{Settles}

module _ {Cmd : Type 0} where
  -- The log takes in the entries of a request that it matches.
  abbrev pub TakesIn : AppendEntriesRequest Cmd → Raft Cmd → Raft Cmd → Type 0
  TakesIn request rf rf' =
      (first_index rf.logs ≤ request.prev_log_index)
      × (term_at rf.logs (request.prev_log_index - first_index rf.logs)
          ≡ some request.prev_log_term)
      × (merge_entries rf.logs (first_index rf.logs) request.entries ≡ some rf'.logs)

  accept_entries-succeeds :
      (rf : Raft Cmd) (request : AppendEntriesRequest Cmd) {rf' : Raft Cmd}
      {r : AppendEntriesResponse}
      → accept_entries rf request ≡ some (rf', r)
      → r.success ≡ true
  unfolding accept_entries
  accept_entries-succeeds rf request e = ground arith

  compare_logs-outcome :
      (rf : Raft Cmd) (request : AppendEntriesRequest Cmd) {rf' : Raft Cmd}
      {r : AppendEntriesResponse}
      → compare_logs rf request ≡ some (rf', r)
      → IsLog rf.logs
      → ((r.success ≡ false) × (rf' ≡ rf))
        ⊎ (r.success ≡ true)
          × TakesIn request rf rf'
          × (rf'.current_term ≡ rf.current_term)
          × (rf'.state ≡ rf.state)
  unfolding compare_logs
  compare_logs-outcome rf request {rf'} {r} e l =
      let (first, is_first, at_first) = get_first_log-index rf.logs l in
      elim (Bool-cases (ltb request.prev_log_index (first_index rf.logs))) [
        | inl cut ↦ inl (ground arith)
        | inr held ↦
            let at = request.prev_log_index - first_index rf.logs in
            let tested =
              match_log_lem rf.logs request.prev_log_term request.prev_log_index l (ground arith) in
            elim (Bool-cases (holds_term rf.logs at request.prev_log_term)) [
              | inl same ↦
                  let accepted = sym (compare_logs-accept rf request l (ground arith) same) ∙ e in
                  let (merged, state, term) = accept_entries-merges rf request accepted l in
                  inr (
                    accept_entries-succeeds rf request accepted,
                    (ground arith, holds_term-term_at rf.logs at _ same, merged),
                    term,
                    state,
                  )
              | inr other ↦ inl (ground arith)
            ]
      ]

  follow-term :
      (rf : Raft Cmd) (term : ℕ) {rf' : Raft Cmd}
      → follow rf term ≡ some rf'
      → rf.current_term ≤ term
      → (rf'.logs ≡ rf.logs) × (rf'.state ≡ follower) × (rf'.current_term ≡ term)
  unfolding follow change_state
  follow-term rf term e low = ground arith

  -- The request is refused, or it is of a term that is not old, and its entries are taken in.
  pub append_entries-outcome :
      ⦃codec : RaftCodec Cmd⦄
      → (rf : Raft Cmd) (request : AppendEntriesRequest Cmd) {rf' : Raft Cmd}
        {r : AppendEntriesResponse}
      → append_entries rf request ≡ some (rf', r)
      → IsLog rf.logs
      → (Settles rf rf' × (r.success ≡ false))
        ⊎ (r.success ≡ true)
          × TakesIn request rf rf'
          × (rf.current_term ≤ request.term)
          × (rf'.current_term ≡ request.term)
          × (rf'.state ≡ follower)
  unfolding append_entries persist
  append_entries-outcome rf request {rf'} {r} e l =
      elim (Bool-cases (ltb request.term rf.current_term)) [
        | inl old ↦ inl (ground arith)
        | inr current ↦ elim (Option-cases (follow rf request.term)) [
          | inl failed ↦ absurd (ground arith)
          | inr (a, followed) ↦ elim (Option-cases (compare_logs a request)) [
            | inl failed ↦ absurd (ground arith)
            | inr ((b, s), compared) ↦
                let (logs, state, term) = follow-term rf request.term followed (ground arith) in
                elim (compare_logs-outcome a request compared (rw logs l)) [
                  | inl (refused, same) ↦ inl (ground arith)
                  | inr (succeeds, takes, same_term, same_state) ↦
                      let end : b.logs ≡ rf'.logs = ground arith in
                      inr (
                        ground arith,
                        rw (end, logs) at takes,
                        ground arith,
                        ground arith,
                        ground arith,
                      )
                ]
          ]
        ]
      ]

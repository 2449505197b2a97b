-- ===== src/Raft/Matching/Writes.antt =====
-- The handler of AppendEntries keeps a log a chain.
use raft_side.Prelude.{
  refl, ℕ, ◌+◌, ◌-◌, ◌≤◌, ◌≡◌, ◌⊎◌, inl, inr, sym, true, some, List, arith, Option-cases,
  Bool-cases, ltb, suc, ◌∙◌,
}
use raft_side.Raft.Types.{
  Entry, follower, AppendEntriesRequest, AppendEntriesResponse, Raft, is_state,
}
use raft_side.Raft.Persist.{RaftCodec, persist}
use raft_side.Raft.Log.{change_state}
use raft_side.Raft.Shape.{
  IsLog, first_index, term_at, get_first_log-index, holds_term, match_log_lem,
}
use raft_side.Raft.Append.{
  follow, compare_logs, accept_entries, merge_entries, advance_commit_index_for_follower,
  append_entries,
}
use raft_side.Raft.Accept.{term_at-some-lt, append_entries_lem, compare_logs-accept}
use raft_side.Raft.Matching.Keeps.{Calm, state-Calm}
use raft_side.Raft.Matching.{Made, LogLinked, RequestLinked}
use raft_side.Raft.Matching.Chain.{LogLinked-merge_entries}

module _ {Cmd : Type 0} where
  -- The log is as it was, or matched the request and took in its entries.
  abbrev Merged : AppendEntriesRequest Cmd → List (Entry Cmd) → List (Entry Cmd) → Type 0
  Merged request logs logs' =
      (logs' ≡ logs)
      ⊎ (first_index logs ≤ request.prev_log_index)
        × (term_at logs (request.prev_log_index - first_index logs) ≡ some request.prev_log_term)
        × (merge_entries logs (first_index logs) request.entries ≡ some logs')

  pub accept_entries-merges :
      (rf : Raft Cmd) (request : AppendEntriesRequest Cmd) {rf' : Raft Cmd}
      {r : AppendEntriesResponse}
      → accept_entries rf request ≡ some (rf', r)
      → IsLog rf.logs
      → (merge_entries rf.logs (first_index rf.logs) request.entries ≡ some rf'.logs)
        × (rf'.state ≡ rf.state)
        × (rf'.current_term ≡ rf.current_term)
  unfolding accept_entries advance_commit_index_for_follower
  accept_entries-merges rf request e l =
      let (first, is_first, at_first) = get_first_log-index rf.logs l in ground arith

  pub holds_term-term_at :
      (logs : List (Entry Cmd)) (i t : ℕ) → holds_term logs i t ≡ true → term_at logs i ≡ some t
  holds_term-term_at logs i t h = ground arith

  compare_logs-Merged :
      (rf : Raft Cmd) (request : AppendEntriesRequest Cmd) {rf' : Raft Cmd}
      {r : AppendEntriesResponse}
      → compare_logs rf request ≡ some (rf', r)
      → IsLog rf.logs
      → Merged request rf.logs rf'.logs
        × (rf'.state ≡ rf.state)
        × (rf'.current_term ≡ rf.current_term)
  unfolding compare_logs
  compare_logs-Merged rf request {rf'} {r} e l =
      let (first, is_first, at_first) = get_first_log-index rf.logs l in
      elim (Bool-cases (ltb request.prev_log_index (first_index rf.logs))) [
        | inl cut ↦ ground arith
        | inr held ↦
            let at = request.prev_log_index - first_index rf.logs in
            let tested =
              match_log_lem rf.logs request.prev_log_term request.prev_log_index l (ground arith) in
            elim (Bool-cases (holds_term rf.logs at request.prev_log_term)) [
              | inl same ↦
                  let (merged, state, term) =
                    accept_entries-merges rf request
                      (sym (compare_logs-accept rf request l (ground arith) same) ∙ e) l in
                  (inr (ground arith, holds_term-term_at rf.logs at _ same, merged), state, term)
              | inr other ↦ ground arith
            ]
      ]

  follow-keeps :
      (rf : Raft Cmd) (term : ℕ) {rf' : Raft Cmd}
      → follow rf term ≡ some rf'
      → (rf'.logs ≡ rf.logs) × (rf'.state ≡ follower) × (rf.current_term ≤ rf'.current_term)
  unfolding follow change_state
  follow-keeps rf term e = ground arith

  append_entries-Merged :
      ⦃codec : RaftCodec Cmd⦄
      → (rf : Raft Cmd) (request : AppendEntriesRequest Cmd) {rf' : Raft Cmd}
        {r : AppendEntriesResponse}
      → append_entries rf request ≡ some (rf', r)
      → IsLog rf.logs
      → Merged request rf.logs rf'.logs
        × (rf.current_term ≤ rf'.current_term)
        × ((rf'.state ≡ follower)
            ⊎ (rf'.state ≡ rf.state) × (rf'.current_term ≡ rf.current_term) × (rf'.logs ≡ rf.logs))
  unfolding append_entries persist
  append_entries-Merged rf request {rf'} {r} e l =
      elim (Bool-cases (ltb request.term rf.current_term)) [
        | inl old ↦ ground arith
        | inr current ↦ elim (Option-cases (follow rf request.term)) [
          | inl failed ↦ absurd (ground arith)
          | inr (a, followed) ↦ elim (Option-cases (compare_logs a request)) [
            | inl failed ↦ absurd (ground arith)
            | inr ((b, s), compared) ↦
                let (logs, state, term) = follow-keeps rf request.term followed in
                let (merged, same, kept) = compare_logs-Merged a request compared (rw logs l) in
                let end : b.logs ≡ rf'.logs = ground arith in
                (rw end at (rw logs at merged), ground arith, ground arith)
          ]
        ]
      ]

  pub append_entries-LogLinked :
      ⦃codec : RaftCodec Cmd⦄
      → (made : Made Cmd) (rf : Raft Cmd) (request : AppendEntriesRequest Cmd) {rf' : Raft Cmd}
        {r : AppendEntriesResponse}
      → append_entries rf request ≡ some (rf', r)
      → IsLog rf.logs
      → RequestLinked made request
      → LogLinked made rf.logs
      → IsLog rf'.logs × LogLinked made rf'.logs
  append_entries-LogLinked made rf request {rf'} {r} e l (new, c) linked =
      let (b, s, done, handled) = append_entries_lem rf request l c in
      let same : b ≡ rf' = ground arith in
      let (merged, term, state) = append_entries-Merged rf request e l in
      (
        rw same at handled.shape,
        elim merged [
          | inl kept ↦ rw kept linked
          | inr (low, match_, done') ↦
              let n = request.prev_log_index - first_index rf.logs in
              let next : request.prev_log_index + 1 ≡ first_index rf.logs + suc n = omega arith in
              LogLinked-merge_entries made rf.logs (first_index rf.logs) request.entries n
                request.prev_log_term linked match_ (term_at-some-lt rf.logs n match_) new
                (rw next at c) done'
        ],
      )

  pub append_entries-Calm :
      ⦃codec : RaftCodec Cmd⦄
      → (rf : Raft Cmd) (request : AppendEntriesRequest Cmd) {rf' : Raft Cmd}
        {r : AppendEntriesResponse}
      → append_entries rf request ≡ some (rf', r)
      → IsLog rf.logs
      → Calm rf rf'
  append_entries-Calm rf request {rf'} e l =
      let (merged, term, state) = append_entries-Merged rf request e l in
      elim state [
        | inl now ↦ let is : is_state rf'.state follower ≡ true = rw now refl in ground arith
        | inr (same, kept, logs) ↦
            state-Calm rf rf' (inr (sym kept, inl same)) (rw logs (omega arith))
      ]

-- ===== src/Raft/Accept.antt =====
-- The handler of AppendEntries as a whole, on a node whose log has its shape.
use raft_side.Prelude.{
  [], ℕ, zero, suc, pos, ◌+◌, ◌-◌, ◌≤◌, ◌<◌, ◌≡◌, refl, true, some, List, arith, length, take,
  ne_none-some, ◌∷◌, false, ℤ, Bool-cases, ltb, Option, inl, ◌≢◌, leb, inr, ◌∙◌, sub_ℕ, none,
}
use Prim.Native.Nat.{max, min}
use raft_side.Raft.Types.{Entry, follower, AppendEntriesRequest, AppendEntriesResponse, Raft}
use raft_side.Raft.Log.{change_state}
use raft_side.Raft.Persist.{RaftCodec, persist}
use raft_side.Raft.Conflict.{find_conflict_lem, find_conflict-short}
use raft_side.Raft.Shape.{
  IsLog, Contiguous, first_index, last_index, term_at, get_last_log-index, get_first_log-index,
  holds_term, match_log_lem,
}
use raft_side.Raft.Merge.{Stored, Merges, merge_entries_lem}
use raft_side.Raft.Append.{
  follow, advance_commit_index_for_follower, accept_entries, compare_logs, refuse, append_entries,
}

module _ {Cmd : Type 0} where
  -- What a successful AppendEntries leaves: the log matches the request before its entries, keeps
  -- what it had up to there, and from there on stays or takes the entries, from the first on of
  -- whose term it had none at its index.
  pub record Accepted (logs logs' : List (Entry Cmd)) (request : AppendEntriesRequest Cmd)
      : Type 0 where
    pub reaches : first_index logs ≤ request.prev_log_index
    pub matches :
        term_at logs (request.prev_log_index - first_index logs) ≡ some request.prev_log_term
    pub same_first : first_index logs' ≡ first_index logs
    pub kept :
        take (suc (request.prev_log_index - first_index logs)) logs'
        ≡ take (suc (request.prev_log_index - first_index logs)) logs
    pub stored : Stored (suc (request.prev_log_index - first_index logs)) request.entries logs'
    pub merges : Merges (suc (request.prev_log_index - first_index logs)) request.entries logs logs'
    pub long : request.prev_log_index + length request.entries ≤ last_index logs'

  pub term_at-some-lt :
      (logs : List (Entry Cmd)) (i : ℕ) {t : ℕ} → term_at logs i ≡ some t → i < length logs
  term_at-some-lt [] i e = absurd (ground arith)
  term_at-some-lt (x ∷ logs) zero e = omega arith
  term_at-some-lt (x ∷ logs) (suc i) e = omega (arith, term_at-some-lt logs i e)

  follow-total :
      (rf : Raft Cmd) (term : ℕ)
      → (rf' : Raft Cmd) × (follow rf term ≡ some rf')
        × (rf'.logs ≡ rf.logs)
        × (rf'.commit_index ≡ rf.commit_index)
        × (rf'.state ≡ follower)
        × (rf'.election_timer ≡ true)
        × (rf.current_term ≤ term → rf'.current_term ≡ term)
  unfolding follow change_state
  follow-total rf term =
      let (a, done) = ne_none-some (follow rf term) (λ failed. ground arith) in
      (a, done, ground arith, ground arith, ground arith, ground arith, ground arith)

  advance_commit_index_for_follower_lem :
      (rf : Raft Cmd) (leader_commit : ℕ)
      → IsLog rf.logs
      → (rf' : Raft Cmd) × (advance_commit_index_for_follower rf leader_commit ≡ some rf')
        × (rf'.logs ≡ rf.logs)
        × (rf'.commit_index ≡ max rf.commit_index (min leader_commit (last_index rf.logs)))
  unfolding advance_commit_index_for_follower
  advance_commit_index_for_follower_lem rf leader_commit l =
      let (last, is_last, at_last) = get_last_log-index rf.logs l in
      let (a, done) =
        ne_none-some (advance_commit_index_for_follower rf leader_commit)
          (λ failed. ground arith) in
      (a, done, ground arith, ground arith)

  merged_first :
      (n : ℕ) (logs logs' : List (Entry Cmd))
      → take (suc n) logs' ≡ take (suc n) logs
      → 0 < length logs
      → 0 < length logs'
      → first_index logs' ≡ first_index logs
  merged_first n logs [] e h k = absurd (omega arith)
  merged_first n [] (x ∷ logs') e h k = absurd (omega arith)
  merged_first n (y ∷ logs) (x ∷ logs') e h k = ground arith

  -- Where the log matches: no panic, the entries are stored, and the commit index follows the
  -- leader's as far as the log goes.
  accept_entries_lem :
      (rf : Raft Cmd) (request : AppendEntriesRequest Cmd)
      → IsLog rf.logs
      → Contiguous (request.prev_log_index + 1) request.entries
      → first_index rf.logs ≤ request.prev_log_index
      → term_at rf.logs (request.prev_log_index - first_index rf.logs) ≡ some request.prev_log_term
      → (rf' : Raft Cmd) × (r : AppendEntriesResponse) × (accept_entries rf request ≡ some (rf', r))
        × (r.success ≡ true)
        × IsLog rf'.logs
        × Accepted rf.logs rf'.logs request
        × (rf'.commit_index ≡ max rf.commit_index (min request.leader_commit (last_index rf'.logs)))
  unfolding accept_entries
  accept_entries_lem rf request l c low matches =
      let base = first_index rf.logs in
      let at = request.prev_log_index - base in
      let inside = term_at-some-lt rf.logs at matches in
      let start : request.prev_log_index + 1 ≡ base + suc at = omega arith in
      let (logs', merged, shape, long, before, stored, merges) =
        merge_entries_lem rf.logs base request.entries (suc at) l.contiguous (rw start at c)
          (omega arith) in
      let first : first_index logs' ≡ base =
        merged_first at rf.logs logs' before l.nonempty (omega arith) in
      let l' : IsLog logs' = record { nonempty = omega arith; contiguous = rw first shape } in
      let (b, advanced, same, commit) =
        advance_commit_index_for_follower_lem (record rf { logs = logs' }) request.leader_commit
          l' in
      let (e, is_first, at_first) = get_first_log-index rf.logs l in
      let accepted : Accepted rf.logs b.logs request = rw same (record {
        reaches = low;
        matches = matches;
        same_first = first;
        kept = before;
        stored = stored;
        merges = merges;
        long = omega arith;
      }) in
      (
        b,
        record {
          term = b.current_term;
          success = true;
          conflict_index = pos 0;
          conflict_term = some 0;
        },
        ground arith,
        refl,
        rw same l',
        accepted,
        rw same commit,
      )

  -- What the handler returns on a node whose log has its shape.
  pub record Handled (rf rf' : Raft Cmd) (request : AppendEntriesRequest Cmd)
      (r : AppendEntriesResponse) : Type 0 where
    pub shape : IsLog rf'.logs
    pub accepted : r.success ≡ true → Accepted rf.logs rf'.logs request
    pub refused : r.success ≡ false → rf'.logs ≡ rf.logs
    pub succeeds :
        rf.current_term ≤ request.term
        → first_index rf.logs ≤ request.prev_log_index
        → term_at rf.logs (request.prev_log_index - first_index rf.logs)
          ≡ some request.prev_log_term
        → r.success ≡ true
    pub commit_grows : rf.commit_index ≤ rf'.commit_index

  refuse-Handled :
      (rf : Raft Cmd) (request : AppendEntriesRequest Cmd) (term : ℕ) (index : ℤ)
      (conflict : Option ℕ)
      → IsLog rf.logs
      → (first_index rf.logs ≤ request.prev_log_index
          → term_at rf.logs (request.prev_log_index - first_index rf.logs)
            ≢ some request.prev_log_term)
      → Handled rf rf request (refuse term index conflict)
  refuse-Handled rf request term index conflict l no_match = record {
    shape = l;
    accepted = λ e. absurd (ground arith);
    refused = λ e. refl;
    succeeds = λ p low matches. absurd (no_match low matches);
    commit_grows = omega arith;
  }

  compare_logs-refuse :
      (rf : Raft Cmd) (request : AppendEntriesRequest Cmd)
      → IsLog rf.logs
      → first_index rf.logs ≤ request.prev_log_index
      → holds_term rf.logs (request.prev_log_index - first_index rf.logs) request.prev_log_term
        ≡ false
      → (index : ℤ) × (conflict : Option ℕ) × (compare_logs rf request
          ≡ some (rf, refuse rf.current_term index conflict))
  unfolding compare_logs
  compare_logs-refuse rf request l low other =
      let (e, is_first, at_first) = get_first_log-index rf.logs l in
      let tested = match_log_lem rf.logs request.prev_log_term request.prev_log_index l low in
      elim (Bool-cases (leb request.prev_log_index (last_index rf.logs))) [
        | inl inside ↦
            let (t, r, found, there, low_r, all, stop) =
              find_conflict_lem rf.logs request.prev_log_index l low (ground arith) in
            (sub_ℕ (first_index rf.logs + r) 1, some t, ground arith)
        | inr short ↦
            let found = find_conflict-short rf.logs request.prev_log_index l (ground arith) in
            (pos (last_index rf.logs + 1), none, ground arith)
      ]

  pub compare_logs-accept :
      (rf : Raft Cmd) (request : AppendEntriesRequest Cmd)
      → IsLog rf.logs
      → first_index rf.logs ≤ request.prev_log_index
      → holds_term rf.logs (request.prev_log_index - first_index rf.logs) request.prev_log_term
        ≡ true
      → compare_logs rf request ≡ accept_entries rf request
  unfolding compare_logs
  compare_logs-accept rf request l low same =
      let (e, is_first, at_first) = get_first_log-index rf.logs l in
      let tested = match_log_lem rf.logs request.prev_log_term request.prev_log_index l low in
      ground arith

  compare_logs-cut :
      (rf : Raft Cmd) (request : AppendEntriesRequest Cmd)
      → IsLog rf.logs
      → request.prev_log_index < first_index rf.logs
      → compare_logs rf request ≡ some (rf, refuse 0 (pos 0) (some 0))
  unfolding compare_logs
  compare_logs-cut rf request l low =
      let (e, is_first, at_first) = get_first_log-index rf.logs l in ground arith

  compare_logs_lem :
      (rf : Raft Cmd) (request : AppendEntriesRequest Cmd)
      → IsLog rf.logs
      → Contiguous (request.prev_log_index + 1) request.entries
      → (rf' : Raft Cmd) × (r : AppendEntriesResponse) × (compare_logs rf request ≡ some (rf', r))
        × Handled rf rf' request r
  compare_logs_lem rf request l c =
      let at = request.prev_log_index - first_index rf.logs in
      elim (Bool-cases (ltb request.prev_log_index (first_index rf.logs))) [
        | inl cut ↦ (
          rf,
          refuse 0 (pos 0) (some 0),
          compare_logs-cut rf request l (ground arith),
          refuse-Handled rf request 0 (pos 0) (some 0) l (λ low. absurd (ground arith)),
        )
        | inr held ↦ elim (Bool-cases (holds_term rf.logs at request.prev_log_term)) [
          | inl same ↦
              let (rf', r, done, yes_, shape, accepted, commit) =
                accept_entries_lem rf request l c (ground arith) (ground arith) in
              (
                rf',
                r,
                compare_logs-accept rf request l (ground arith) same ∙ done,
                record {
                  shape = shape;
                  accepted = λ e. accepted;
                  refused = λ e. absurd (ground arith);
                  succeeds = λ p low matches. yes_;
                  commit_grows = omega arith;
                },
              )
          | inr other ↦
              let (index, conflict, done) = compare_logs-refuse rf request l (ground arith) other in
              (
                rf,
                refuse rf.current_term index conflict,
                done,
                refuse-Handled rf request rf.current_term index conflict l (λ low m. ground arith),
              )
        ]
      ]

  module _ ⦃codec : RaftCodec Cmd⦄ where
    -- On a node whose log has its shape, AppendEntries with entries that follow on from
    -- `PrevLogIndex` does not panic, keeps the shape, and does not lower the commit index. A refusal
    -- leaves the log. A success leaves it too, if it has an entry of the term of each of the request's
    -- at its index; else it keeps the log up to the first index where it has not, and puts the
    -- request's entries from there on, unchanged, in place of what came after. A request that is not
    -- old and matches the log succeeds.
    pub append_entries_lem :
        (rf : Raft Cmd) (request : AppendEntriesRequest Cmd)
        → IsLog rf.logs
        → Contiguous (request.prev_log_index + 1) request.entries
        → (rf' : Raft Cmd) × (r : AppendEntriesResponse) × (append_entries rf request
            ≡ some (rf', r))
          × Handled rf rf' request r
    unfolding append_entries persist
    append_entries_lem rf request l c = elim (Bool-cases (ltb request.term rf.current_term)) [
      | inl old ↦ (
        persist rf,
        refuse rf.current_term (pos 0) (some 0),
        ground arith,
        record {
          shape = l;
          accepted = λ e. absurd (ground arith);
          refused = λ e. refl;
          succeeds = λ p low matches. absurd (ground arith);
          commit_grows = omega arith;
        },
      )
      | inr current ↦
          let (a, followed, logs, commit, state, timer, adopted) = follow-total rf request.term in
          let (b, r, done, h) = compare_logs_lem a request (rw logs l) c in
          (
            persist b,
            r,
            ground arith,
            record {
              shape = h.shape;
              accepted = λ e. rw logs at (h.accepted e);
              refused = λ e. h.refused e ∙ logs;
              succeeds = λ p low matches.
                  h.succeeds (omega (arith, adopted p)) (rw logs low) (rw logs matches);
              commit_grows = omega (arith, h.commit_grows);
            },
          )
    ]

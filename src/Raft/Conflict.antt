-- ===== src/Raft/Conflict.antt =====
-- What a follower whose log does not match reports, and where the leader goes on from there: the
-- scans for a term in AppendEntries and handleAppendEntriesResponse.
use raft_side.Prelude.{
  ℕ, zero, suc, ◌+◌, ◌-◌, ◌≤◌, ◌<◌, ◌≡◌, ◌≢◌, ◌⊎◌, inl, inr, refl, none, some, List, arith, pos,
  sub_ℕ, length, get_elem?-lt, ◌==◌, Bool-cases,
}
use raft_side.Raft.Types.{Entry}
use raft_side.Raft.Shape.{
  IsLog, first_index, last_index, term_at, get_last_log-index, get_first_log-index,
  get_elem?-term_at,
}
use raft_side.Raft.Append.{scan_conflict, find_conflict}
use raft_side.Raft.Replicate.{find_last_of_term}

module _ {Cmd : Type 0} (logs : List (Entry Cmd)) where
  -- Every entry from the offset `low` to below `high` has the term.
  abbrev pub AllOfTerm : (low high term : ℕ) → Type 0
  AllOfTerm low high term = (i : ℕ) → low ≤ i → i < high → term_at logs i ≡ some term

  abbrev pub NoneOfTerm : (low high term : ℕ) → Type 0
  NoneOfTerm low high term = (i : ℕ) → low ≤ i → i < high → term_at logs i ≢ some term

  AllOfTerm-suc :
      (low k term : ℕ)
      → AllOfTerm low k term
      → term_at logs k ≡ some term
      → AllOfTerm low (suc k) term
  AllOfTerm-suc low k term all here i p q = elim (Bool-cases (i == k)) [
    | inl e ↦ ground arith
    | inr e ↦ all i p (ground arith)
  ]

  NoneOfTerm-suc :
      (low k term : ℕ)
      → NoneOfTerm low k term
      → term_at logs k ≢ some term
      → NoneOfTerm low (suc k) term
  NoneOfTerm-suc low k term none_of here i p q = elim (Bool-cases (i == k)) [
    | inl e ↦ ground arith
    | inr e ↦ none_of i p (ground arith)
  ]

  -- The scan goes down over the entries of the term, and stops above one of another.
  pub scan_conflict_lem :
      (term k : ℕ)
      → k ≤ length logs
      → (r : ℕ) × (scan_conflict logs term k ≡ some r)
        × (r ≤ k)
        × AllOfTerm r k term
        × (0 < r → term_at logs (r - 1) ≢ some term)
  unfolding scan_conflict
  scan_conflict_lem term zero h =
      (0, refl, omega arith, λ i p q. absurd (omega arith), λ p. absurd (omega arith))
  scan_conflict_lem term (suc k) h =
      let (e, found) = get_elem?-lt logs k h in
      let here = get_elem?-term_at logs k e found in
      elim (Bool-cases (e.term == term)) [
        | inl same ↦
            let (r, scanned, low, all, stop) = scan_conflict_lem term k (omega arith) in
            (r, ground arith, omega arith, AllOfTerm-suc r k term all (ground arith), stop)
        | inr other ↦
            (suc k, ground arith, omega arith, λ i p q. absurd (omega arith), λ p. ground arith)
      ]

  -- The scan of the leader finds the last entry of the term at or below the place, if there is one.
  pub find_last_of_term_lem :
      (term k : ℕ)
      → k ≤ length logs
      → ((find_last_of_term logs term k ≡ some none) × NoneOfTerm 0 k term)
        ⊎ ((r : ℕ) × (find_last_of_term logs term k ≡ some (some (suc r)))
            × (r < k)
            × (term_at logs r ≡ some term)
            × NoneOfTerm (suc r) k term)
  unfolding find_last_of_term
  find_last_of_term_lem term zero h = inl (refl, λ i p q. absurd (omega arith))
  find_last_of_term_lem term (suc k) h =
      let (e, found) = get_elem?-lt logs k h in
      let here = get_elem?-term_at logs k e found in
      elim (Bool-cases (e.term == term)) [
        | inl same ↦ inr (k, ground arith, omega arith, ground arith, λ i p q. absurd (omega arith))
        | inr other ↦ elim (find_last_of_term_lem term k (omega arith)) [
          | inl (scanned, all) ↦ inl (ground arith, NoneOfTerm-suc 0 k term all (ground arith))
          | inr (r, scanned, low, at, all) ↦
              inr
                (r, ground arith, omega arith, at, NoneOfTerm-suc (suc r) k term all (ground arith))
        ]
      ]

  -- A follower's report on a log of its shape that reaches the index but holds an entry of another term there:
  -- the term of that entry, and the last index below it that holds a third term (or the one before
  -- the log's first).
  pub find_conflict_lem :
      (prev : ℕ)
      → IsLog logs
      → first_index logs ≤ prev
      → prev ≤ last_index logs
      → (term r : ℕ) × (find_conflict logs prev ≡ some (sub_ℕ (first_index logs + r) 1, some term))
        × (term_at logs (prev - first_index logs) ≡ some term)
        × (r ≤ prev - first_index logs)
        × AllOfTerm r (prev - first_index logs) term
        × (0 < r → term_at logs (r - 1) ≢ some term)
  unfolding find_conflict
  find_conflict_lem prev l low high =
      let offset = prev - first_index logs in
      let (last, is_last, at_last) = get_last_log-index logs l in
      let (first, is_first, at_first) = get_first_log-index logs l in
      let (e, found) = get_elem?-lt logs offset (omega arith) in
      let (r, scanned, below, all, stop) = scan_conflict_lem e.term offset (omega arith) in
      (e.term, r, ground arith, get_elem?-term_at logs offset e found, below, all, stop)

  -- On a log that ends before the index, the report is the place after the last entry.
  pub find_conflict-short :
      (prev : ℕ)
      → IsLog logs
      → last_index logs < prev
      → find_conflict logs prev ≡ some (pos (last_index logs + 1), none)
  unfolding find_conflict
  find_conflict-short prev l short =
      let (last, is_last, at_last) = get_last_log-index logs l in
      let (first, is_first, at_first) = get_first_log-index logs l in ground arith

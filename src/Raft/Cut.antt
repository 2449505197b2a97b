-- ===== src/Raft/Cut.antt =====
-- Cutting the log at a snapshot keeps its shape and the entries after the cut
-- (Snapshot and CondInstallSnapshot).
use raft_side.Prelude.{
  ap, ◌∙◌, ℕ, zero, suc, ◌+◌, ◌-◌, ◌≤◌, ◌<◌, ◌≡◌, inl, inr, refl, true, some, none, List, [], ◌∷◌,
  arith, length, Bool-cases, leb, drop, length-drop, get_elem?,
}
use Prim.Native.Nat.{max}
use raft_side.Raft.Snapshot.{logs_after_snapshot, cond_install_snapshot}
use raft_side.Raft.Types.{Entry, Raft}
use raft_side.Raft.Persist.{RaftCodec, save_state_and_snapshot}
use raft_side.Raft.Votes.{clone_lem}
use raft_side.Raft.Shape.{
  IsLog, Contiguous, Contiguous-drop, first_index, last_index, term_at, get_first_log-index,
  get_last_log-index,
}
use raft_side.Raft.Snapshot.{
  clear_dummy, logs_after_snapshot, save_snapshot, take_snapshot, cond_install_snapshot,
}

module _ {Cmd : Type 0} where
  -- The logs agree on every term from the index on.
  abbrev pub SameTermsFrom : (index : ℕ) → List (Entry Cmd) → List (Entry Cmd) → Type 0
  SameTermsFrom index logs logs' =
      (i : ℕ)
      → index ≤ i
      → term_at logs' (i - first_index logs') ≡ term_at logs (i - first_index logs)

  -- The logs agree on every entry after the index.
  abbrev pub SameEntriesAfter : (index : ℕ) → List (Entry Cmd) → List (Entry Cmd) → Type 0
  SameEntriesAfter index logs logs' =
      (i : ℕ)
      → index < i
      → get_elem? logs' (i - first_index logs') ≡ get_elem? logs (i - first_index logs)

  get_elem?-drop :
      (n : ℕ) (logs : List (Entry Cmd)) (i : ℕ) → get_elem? (drop n logs) i ≡ get_elem? logs (n + i)
  get_elem?-drop zero logs i = ap (get_elem? logs) (omega arith)
  get_elem?-drop (suc n) [] i = refl
  get_elem?-drop (suc n) (x ∷ logs) i =
      let e : suc n + i ≡ suc (n + i) = omega arith in rw e (get_elem?-drop n logs i)

  pub term_at-drop :
      (n : ℕ) (logs : List (Entry Cmd)) (i : ℕ) → term_at (drop n logs) i ≡ term_at logs (n + i)
  term_at-drop zero logs i = ap (term_at logs) (omega arith)
  term_at-drop (suc n) [] i = refl
  term_at-drop (suc n) (x ∷ logs) i =
      let e : suc n + i ≡ suc (n + i) = omega arith in rw e (term_at-drop n logs i)

  drop-cons :
      (n : ℕ) (logs : List (Entry Cmd))
      → n < length logs
      → (x : Entry Cmd) × (rest : List (Entry Cmd)) × (drop n logs ≡ x ∷ rest)
  drop-cons n [] h = absurd (omega arith)
  drop-cons zero (x ∷ logs) h = (x, logs, refl)
  drop-cons (suc n) (x ∷ logs) h = drop-cons n logs (omega arith)

  term_at-command :
      (x : Entry Cmd) (rest : List (Entry Cmd)) (i : ℕ)
      → term_at (record x { command = none } ∷ rest) i ≡ term_at (x ∷ rest) i
  term_at-command x rest zero = refl
  term_at-command x rest (suc i) = refl

  -- The log without its first `n` entries, the dummy cleared: a log that begins `n` later, has the
  -- same terms, and the same entries after the dummy.
  pub cut_lem :
      (n : ℕ) (logs : List (Entry Cmd))
      → IsLog logs
      → n < length logs
      → (x : Entry Cmd) × (rest : List (Entry Cmd)) × (drop n logs ≡ x ∷ rest)
        × IsLog (record x { command = none } ∷ rest)
        × (x.index ≡ first_index logs + n)
        × (n + suc (length rest) ≡ length logs)
        × SameTermsFrom (first_index logs + n) logs (record x { command = none } ∷ rest)
        × SameEntriesAfter (first_index logs + n) logs (record x { command = none } ∷ rest)
  cut_lem n logs l h =
      let (x, rest, cut) = drop-cons n logs h in
      let tail : Contiguous (first_index logs + n) (x ∷ rest) =
        rw cut at (Contiguous-drop (first_index logs) n logs l.contiguous) in
      let long : n + suc (length rest) ≡ length logs =
        omega (arith, length-drop n logs, ap length cut) in
      (
        x,
        rest,
        cut,
        record { nonempty = omega arith; contiguous = (refl, rw (← tail.0) at tail.1) },
        tail.0,
        long,
        λ i p.
            let e : i - first_index logs ≡ n + (i - x.index) = omega arith in
            term_at-command x rest (i - x.index)
            ∙ rw (e, ← cut) (term_at-drop n logs (i - x.index)),
        λ i p.
            let later : i - x.index ≡ suc (i - x.index - 1) = omega arith in
            let e : i - first_index logs ≡ n + (i - x.index) = omega arith in
            let kept : get_elem? (x ∷ rest) (i - x.index) ≡ get_elem? logs (n + (i - x.index)) =
              rw cut at (get_elem?-drop n logs (i - x.index)) in
            rw e (rw later (rw later at kept)),
      )

  module _ ⦃codec : RaftCodec Cmd⦄ where
    -- A snapshot at an index of a log of its shape, not the first, is saved, makes that index the
    -- first, with the term that it had, and keeps every entry after it, with its command, and the
    -- last index. The log keeps its shape, the commit index stays, and there is no panic.
    pub take_snapshot_lem :
        (rf : Raft Cmd) (index : ℕ) (snapshot : List ℕ)
        → IsLog rf.logs
        → first_index rf.logs < index
        → index ≤ last_index rf.logs
        → (rf' : Raft Cmd) × (take_snapshot rf index snapshot ≡ some rf')
          × IsLog rf'.logs
          × (first_index rf'.logs ≡ index)
          × (last_index rf'.logs ≡ last_index rf.logs)
          × SameEntriesAfter index rf.logs rf'.logs
          × (term_at rf'.logs 0 ≡ term_at rf.logs (index - first_index rf.logs))
          × (rf'.persister.snapshot ≡ snapshot)
          × (rf'.commit_index ≡ rf.commit_index)
    unfolding take_snapshot clear_dummy save_snapshot save_state_and_snapshot
    take_snapshot_lem rf index snapshot l low high =
        let n = index - first_index rf.logs in
        let place : first_index rf.logs + n ≡ index = omega arith in
        let (x, rest, cut, shape, at, long, same, after) = cut_lem n rf.logs l (omega arith) in
        let (e, is_first, at_first) = get_first_log-index rf.logs l in
        let logs' : List (Entry Cmd) = record x { command = none } ∷ rest in
        (
          save_snapshot (record rf { logs = logs' }) snapshot,
          ground arith,
          shape,
          omega arith,
          omega arith,
          λ i p. after i (omega arith),
          (let first = same index (omega arith) in
              let z : index - x.index ≡ 0 = omega arith in rw z at first),
          clone_lem snapshot,
          refl,
        )

    pub logs_after_snapshot-inside :
        (logs : List (Entry Cmd)) (term index : ℕ)
        → IsLog logs
        → first_index logs ≤ index
        → index ≤ last_index logs
        → (x : Entry Cmd) × (rest : List (Entry Cmd)) × (logs_after_snapshot logs term index
            ≡ some (record x { term = term; index = index; command = none } ∷ rest))
          × IsLog (record x { term = term; index = index; command = none } ∷ rest)
          × (index + length rest ≡ last_index logs)
    unfolding logs_after_snapshot
    logs_after_snapshot-inside logs term index l low high =
        let n = index - first_index logs in
        let place : first_index logs + n ≡ index = omega arith in
        let (x, rest, cut, shape, at, long, same, after) = cut_lem n logs l (omega arith) in
        let (e, is_first, at_first) = get_first_log-index logs l in
        let (last, is_last, at_last) = get_last_log-index logs l in
        (
          x,
          rest,
          ground arith,
          record {
            nonempty = omega arith;
            contiguous = (refl, rw (at, place) at shape.contiguous.1);
          },
          omega arith,
        )

    pub logs_after_snapshot-beyond :
        (logs : List (Entry Cmd)) (term index : ℕ)
        → IsLog logs
        → last_index logs < index
        → logs_after_snapshot logs term index
          ≡ some (record { term = term; index = index; command = none } ∷ [])
    unfolding logs_after_snapshot
    logs_after_snapshot-beyond logs term index l high =
        let (last, is_last, at_last) = get_last_log-index logs l in ground arith

    -- A leader's snapshot beyond the commit index of a node with a log of its shape, which it has not
    -- cut beyond that index, is installed with no panic: the log begins at its
    -- index with its term, keeps its shape, ends where it did or at the snapshot, and both the
    -- commit index and the last applied index are the snapshot's.
    pub cond_install_snapshot_lem :
        (rf : Raft Cmd) (term index : ℕ) (snapshot : List ℕ)
        → IsLog rf.logs
        → first_index rf.logs ≤ rf.commit_index
        → rf.commit_index < index
        → (rf' : Raft Cmd) × (cond_install_snapshot rf term index snapshot ≡ some (rf', true))
          × IsLog rf'.logs
          × (first_index rf'.logs ≡ index)
          × (term_at rf'.logs 0 ≡ some term)
          × (last_index rf'.logs ≡ max index (last_index rf.logs))
          × (rf'.commit_index ≡ index)
          × (rf'.last_applied ≡ index)
    unfolding cond_install_snapshot save_snapshot
    cond_install_snapshot_lem rf term index snapshot l low new =
        elim (Bool-cases (leb index (last_index rf.logs))) [
          | inl inside ↦
              let (x, rest, cut, shape, long) =
                logs_after_snapshot-inside rf.logs term index l (omega arith) (ground arith) in
              let logs' : List (Entry Cmd) =
                record x { term = term; index = index; command = none } ∷ rest in
              (
                save_snapshot
                    (record rf { logs = logs'; last_applied = index; commit_index = index })
                    snapshot,
                ground arith,
                shape,
                refl,
                refl,
                ground arith,
                refl,
                refl,
              )
          | inr beyond ↦
              let cut = logs_after_snapshot-beyond rf.logs term index l (ground arith) in
              let logs' : List (Entry Cmd) =
                record { term = term; index = index; command = none } ∷ [] in
              (
                save_snapshot
                    (record rf { logs = logs'; last_applied = index; commit_index = index })
                    snapshot,
                ground arith,
                record { nonempty = omega arith; contiguous = (refl, tt) },
                refl,
                refl,
                ground arith,
                refl,
                refl,
              )
        ]

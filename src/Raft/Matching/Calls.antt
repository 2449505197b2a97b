-- ===== src/Raft/Matching/Calls.antt =====
-- The client's calls that write a node's log: Start, Snapshot and CondInstallSnapshot.
use raft_side.Prelude.{
  ap, ℕ, zero, suc, ◌+◌, ◌-◌, ◌≤◌, ◌<◌, ◌≡◌, ◌⊎◌, inl, inr, refl, true, some, none, List, [], ◌∷◌,
  ◌++◌, arith, Bool-cases, Option, Option-cases, length, drop, ltb, leb, length-append, Bool,
  length-drop, ap, false,
}
use raft_side.Raft.Types.{Entry, leader, is_state, Raft}
use raft_side.Raft.Persist.{RaftCodec, persist}
use raft_side.Raft.Log.{get_last_log}
use raft_side.Raft.Shape.{
  IsLog, first_index, last_index, get_first_log-index, Contiguous-append, get_last_log-index,
  Contiguous-drop,
}
use raft_side.Raft.Vote.{broadcast_heartbeat}
use raft_side.Raft.Replicate.{append_new_entry}
use raft_side.Raft.Matching.{Made, LogLinked, Contiguous}
use raft_side.Raft.Matching.Chain.{LogLinked-drop}
use raft_side.Raft.Snapshot.{
  clear_dummy, save_snapshot, take_snapshot, cond_install_snapshot, logs_after_snapshot,
}
use raft_side.Raft.Cut.{cut_lem}
use raft_side.Raft.Server.{start}

-- A cut at the end or beyond leaves nothing.
drop-past : {A : Type 0} (n : ℕ) (xs : List A) → length xs ≤ n → drop n xs ≡ []
drop-past zero [] h = refl
drop-past zero (x ∷ xs) h = absurd (omega arith)
drop-past (suc n) [] h = refl
drop-past (suc n) (x ∷ xs) h = drop-past n xs (omega arith)

module _ {Cmd : Type 0} where
  -- The new entry keeps the shape of the log, which ends with it.
  pub IsLog-append :
      (logs : List (Entry Cmd)) (e : Entry Cmd)
      → IsLog logs
      → e.index ≡ last_index logs + 1
      → IsLog (logs ++ e ∷ []) × (last_index (logs ++ e ∷ []) ≡ last_index logs + 1)
  IsLog-append [] e l at = absurd (omega (arith, l.nonempty))
  IsLog-append (x ∷ rest) e l at =
      let long = length-append rest (e ∷ []) in
      (
        record {
          nonempty = omega arith;
          contiguous = Contiguous-append x.index (x ∷ rest) (e ∷ []) l.contiguous (omega arith, tt);
        },
        omega arith,
      )

  -- A leader appends an entry of its term after its last; another node does nothing.
  pub start-appends :
      ⦃codec : RaftCodec Cmd⦄
      → (rf : Raft Cmd) (command : Cmd) {rf' : Raft Cmd} {r : Option (ℕ × ℕ)}
      → start rf command ≡ some (rf', r)
      → (rf'.state ≡ rf.state)
        × (rf'.current_term ≡ rf.current_term)
        × ((is_state rf.state leader ≡ false) × (rf'.logs ≡ rf.logs)
            ⊎ (is_state rf.state leader ≡ true)
              × (last : Entry Cmd) × (get_last_log rf.logs ≡ some last)
              × (rf'.logs
                  ≡ rf.logs
                    ++ record {
                      index = last.index + 1;
                      term = rf.current_term;
                      command = some command;
                    }
                      ∷ []))
  unfolding start append_new_entry broadcast_heartbeat persist
  start-appends rf command e = elim (Option-cases (get_last_log rf.logs)) [
    | inl no_last ↦ ground arith
    | inr (last, is_last) ↦ ground arith
  ]

  -- A leader stays the leader, and its log is one longer.
  pub start-longer :
      ⦃codec : RaftCodec Cmd⦄
      → (rf : Raft Cmd) (command : Cmd) {rf' : Raft Cmd} {r : Option (ℕ × ℕ)}
      → start rf command ≡ some (rf', r)
      → IsLog rf.logs
      → is_state rf.state leader ≡ true
      → (is_state rf'.state leader ≡ true)
        × (rf'.current_term ≡ rf.current_term)
        × (last_index rf'.logs ≡ last_index rf.logs + 1)
  start-longer rf command e l led =
      let (state, term, logs) = start-appends rf command e in
      elim logs [
        | inl (other, same) ↦ absurd (ground arith)
        | inr (is, last, is_last, appended) ↦
            let (end, found, at) = get_last_log-index rf.logs l in
            let one : last ≡ end = grind arith in
            let added : Entry Cmd = record {
              index = last.index + 1;
              term = rf.current_term;
              command = some command;
            } in
            let (shape, longer) =
              IsLog-append rf.logs added l (omega (arith, ap Entry.index one)) in
            (rw state led, term, rw appended longer)
      ]

  pub take_snapshot-cuts :
      ⦃codec : RaftCodec Cmd⦄
      → (rf : Raft Cmd) (index : ℕ) (snapshot : List ℕ) {rf' : Raft Cmd}
      → take_snapshot rf index snapshot ≡ some rf'
      → IsLog rf.logs
      → (rf'.state ≡ rf.state)
        × (rf'.current_term ≡ rf.current_term)
        × ((rf'.logs ≡ rf.logs)
            ⊎ (n : ℕ) × (x : Entry Cmd) × (rest : List (Entry Cmd)) × (n < length rf.logs)
              × (x.index ≡ first_index rf.logs + n)
              × (drop n rf.logs ≡ x ∷ rest)
              × (rf'.logs ≡ record x { command = none } ∷ rest))
  unfolding take_snapshot clear_dummy save_snapshot
  take_snapshot-cuts rf index snapshot {rf'} e l =
      let (first, is_first, at_first) = get_first_log-index rf.logs l in
      let n = index - first_index rf.logs in
      elim (Bool-cases (leb index (first_index rf.logs))) [
        | inl old ↦ ground arith
        | inr new ↦ elim (Bool-cases (ltb n (length rf.logs))) [
          | inl inside ↦
              let (x, rest, cut, shape, at, long, same, after) =
                cut_lem n rf.logs l (ground arith) in
              (ground arith, ground arith, inr (n, x, rest, ground arith, at, cut, ground arith))
          | inr outside ↦ absurd (ground (arith, drop-past n rf.logs))
        ]
      ]

  pub cond_install_snapshot-cuts :
      ⦃codec : RaftCodec Cmd⦄
      → (rf : Raft Cmd) (term index : ℕ) (snapshot : List ℕ) {rf' : Raft Cmd} {b : Bool}
      → cond_install_snapshot rf term index snapshot ≡ some (rf', b)
      → IsLog rf.logs
      → (rf'.state ≡ rf.state)
        × (rf'.current_term ≡ rf.current_term)
        × ((rf'.logs ≡ rf.logs)
            ⊎ ((x : Entry Cmd) × (rest : List (Entry Cmd)) × (first_index rf.logs ≤ index)
                × (index - first_index rf.logs < length rf.logs)
                × (drop (index - first_index rf.logs) rf.logs ≡ x ∷ rest)
                × (rf'.logs ≡ record x { term = term; index = index; command = none } ∷ rest))
            ⊎ (last_index rf.logs < index)
              × (rf'.logs ≡ record { term = term; index = index; command = none } ∷ []))
  unfolding cond_install_snapshot logs_after_snapshot save_snapshot
  cond_install_snapshot-cuts rf term index snapshot {rf'} e l =
      let (first, is_first, at_first) = get_first_log-index rf.logs l in
      let (last, is_last, at_last) = get_last_log-index rf.logs l in
      let n = index - first_index rf.logs in
      elim (Bool-cases (leb index rf.commit_index)) [
        | inl old ↦ ground arith
        | inr new ↦ elim (Bool-cases (ltb (last_index rf.logs) index)) [
          | inl beyond ↦ (ground arith, ground arith, inr (inr (ground arith, ground arith)))
          | inr within ↦ elim (Bool-cases (leb (first_index rf.logs) index)) [
            | inl inside ↦
                let (x, rest, cut, shape, at, long, same, after) =
                  cut_lem n rf.logs l (ground arith) in
                (
                  ground arith,
                  ground arith,
                  inr (inl (x, rest, ground arith, ground arith, cut, ground arith)),
                )
            | inr cut_off ↦ absurd (ground arith)
          ]
        ]
      ]

  -- A cut keeps a chain a chain, with its last index, whatever the command of the entry at the cut.
  pub cut-LogLinked :
      (made : Made Cmd) (n : ℕ) (logs : List (Entry Cmd)) (x : Entry Cmd) (rest : List (Entry Cmd))
      (dummy : Entry Cmd)
      → IsLog logs
      → LogLinked made logs
      → n < length logs
      → drop n logs ≡ x ∷ rest
      → dummy.index ≡ first_index logs + n
      → dummy.term ≡ x.term
      → IsLog (dummy ∷ rest)
        × LogLinked made (dummy ∷ rest)
        × (last_index (dummy ∷ rest) ≡ last_index logs)
  cut-LogLinked made n logs x rest dummy l linked low cut at term =
      let tail : Contiguous (first_index logs + n) (x ∷ rest) =
        rw cut at (Contiguous-drop (first_index logs) n logs l.contiguous) in
      let chain : LogLinked made (x ∷ rest) = rw cut at (LogLinked-drop made n logs linked) in
      (
        record { nonempty = omega arith; contiguous = (refl, rw at tail.1) },
        rw term chain,
        omega (arith, length-drop n logs, ap length cut),
      )

-- ===== src/Raft/Complete/Inv.antt =====
-- What a group of nodes keeps besides log matching: each log has what its node acknowledged, unless a
-- later leader had not; each leader's log has what its term made; and a candidate's voters had logs
-- that were no later than its own.
use raft_side.Prelude.{ℕ, suc, ◌≤◌, ◌≡◌, ◌⊎◌, inl, inr, arith, Option, some, true}
use raft_side.Raft.Types.{leader, is_state, Raft}
use raft_side.Raft.Shape.{last_term, last_index}
use raft_side.Raft.Cluster.Inv.{Cast}
use raft_side.Raft.Matching.{Made}
use raft_side.Raft.Complete.{On}
use raft_side.Raft.Complete.Tree.{On-MadeGrows}
use raft_side.Raft.Complete.History.{Base, Acked, Lost, IsEntry}
use raft_side.Raft.Complete.Grows.{Grown, IsEntry-MadeGrows, Lost-Grown}

module _ {Cmd : Type 0} where
  -- A node has what it acknowledged, or a leader up to its term had not.
  pub record NodeKeeps (made : Made Cmd) (base : Base) (acked : Acked) (i : ℕ) (rf : Raft Cmd)
      : Type 0 where
    pub kept :
        (t j : ℕ)
        → acked i t j ≡ true
        → (t ≤ rf.current_term)
          × (On made t j (last_term rf.logs) (last_index rf.logs)
              ⊎ Lost made base t j (suc rf.current_term))
    pub entry :
        IsEntry made (last_term rf.logs) (last_index rf.logs)
        × (last_term rf.logs ≤ rf.current_term)
    pub led :
        is_state rf.state leader ≡ true
        → (bt : ℕ) × (bi : ℕ) × (base rf.current_term ≡ some (bt, bi))
          × On made bt bi (last_term rf.logs) (last_index rf.logs)
          × ((last_term rf.logs ≡ rf.current_term)
              ⊎ (bt ≡ last_term rf.logs) × (bi ≡ last_index rf.logs))
          × ((j : ℕ) (x : ℕ × Option Cmd)
              → made rf.current_term j ≡ some x
              → On made rf.current_term j (last_term rf.logs) (last_index rf.logs)
                × (acked i rf.current_term j ≡ true))

  -- The same last entry.
  abbrev pub SameLast : Raft Cmd → Raft Cmd → Type 0
  SameLast rf rf' =
      (last_term rf'.logs ≡ last_term rf.logs) × (last_index rf'.logs ≡ last_index rf.logs)

  -- A node that moves on with its last entry, while the history goes on elsewhere.
  pub NodeKeeps-Grown :
      {made made' : Made Cmd} {base base' : Base} {acked acked' : Acked} {cast cast' : Cast}
      {terms : ℕ → ℕ} (g : Grown made made' base base' acked acked' cast cast' terms) (i : ℕ)
      (rf rf' : Raft Cmd)
      → NodeKeeps made base acked i rf
      → SameLast rf rf'
      → rf.current_term ≤ rf'.current_term
      → ((t j : ℕ) → acked' i t j ≡ acked i t j)
      → (is_state rf'.state leader ≡ true
          → (is_state rf.state leader ≡ true)
            × (rf'.current_term ≡ rf.current_term)
            × ((j : ℕ) (x : ℕ × Option Cmd)
                → made' rf.current_term j ≡ some x
                → made rf.current_term j ≡ some x))
      → NodeKeeps made' base' acked' i rf'
  NodeKeeps-Grown {made} {made'} g i rf rf' k (same_t, same_i) later acks still = record {
    kept = λ t j is.
        let (low, held) = k.kept t j (rw acks at is) in
        (
          omega arith,
          rw (same_t, same_i)
              (elim held [
                | inl on ↦ inl (On-MadeGrows made made' t j _ _ g.made_grows on)
                | inr lost ↦ inr (
                    Lost-Grown g t j (suc rf.current_term) (suc rf'.current_term) (omega arith)
                      lost)
              ]),
        );
    entry =
        rw (same_t, same_i)
          (IsEntry-MadeGrows made made' _ _ g.made_grows k.entry.0, omega (arith, k.entry.1));
    led = λ l.
        let (led, term, made_before) = still l in
        let (bt, bi, is, on, end, all) = k.led led in
        rw (term, same_t, same_i)
          (
            bt,
            bi,
            g.base_grows rf.current_term bt bi is,
            On-MadeGrows made made' bt bi _ _ g.made_grows on,
            end,
            λ j x at.
                let (on_j, acked_j) = all j x (made_before j x at) in
                (On-MadeGrows made made' _ j _ _ g.made_grows on_j, rw acks acked_j),
          );
  }

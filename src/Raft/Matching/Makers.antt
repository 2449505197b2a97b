-- ===== src/Raft/Matching/Makers.antt =====
-- An entry of a term was made by a node that the majority voted for in it, and that has not been
-- past it: so its leader's next entry is new.
use raft_side.Prelude.{
  refl, ℕ, ◌/◌, ◌≤◌, ◌<◌, ◌≡◌, ◌⊎◌, inl, inr, arith, true, false, Bool-cases, ◌==◌,
}
use raft_side.Raft.Types.{follower, candidate, leader, is_state, NodeState, Raft}
use raft_side.Raft.Shape.{last_index}
use raft_side.Raft.Cluster.{set_at}
use raft_side.Raft.Cluster.Count.{count, count_mono}
use raft_side.Raft.Cluster.Inv.{Cast, Grows, supports, supports-Grows}
use raft_side.Raft.Matching.Keeps.{Calm}

-- A node is one of the three.
one_state :
    (s : NodeState)
    → ((is_state s follower ≡ true) × (is_state s candidate ≡ false) × (is_state s leader ≡ false))
      ⊎ ((is_state s follower ≡ false) × (is_state s candidate ≡ true))
      ⊎ (is_state s follower ≡ false) × (is_state s candidate ≡ false)
one_state follower = inl (refl, refl, refl)
one_state candidate = inr (inl (refl, refl))
one_state leader = inr (inr (refl, refl))

module _ {Cmd : Type 0} where
  -- The node is past the making of an entry.
  abbrev pub Past : (t j : ℕ) → Raft Cmd → Type 0
  Past t j rf =
      (t < rf.current_term)
      ⊎ (t ≡ rf.current_term)
        × ((is_state rf.state follower ≡ true)
            ⊎ (is_state rf.state leader ≡ true) × (j ≤ last_index rf.logs))

  Past-Calm : (t j : ℕ) (rf rf' : Raft Cmd) → Past t j rf → Calm rf rf' → Past t j rf'
  Past-Calm t j rf rf' p c = ground (arith, one_state rf.state)

  -- A leader has made no entry of its term beyond its last.
  pub Past-leader :
      (j : ℕ) (rf : Raft Cmd)
      → is_state rf.state leader ≡ true
      → Past rf.current_term j rf
      → j ≤ last_index rf.logs
  Past-leader j rf led p = ground (arith, one_state rf.state)

  -- The maker of an entry.
  abbrev pub HasMaker : (size : ℕ) → Cast → (ℕ → Raft Cmd) → (t j : ℕ) → Type 0
  HasMaker size cast nodes t j =
      (m : ℕ) × (size / 2 < count size (supports cast m t)) × Past t j (nodes m)

  -- A step keeps it.
  pub HasMaker-set_at :
      (size : ℕ) (cast cast' : Cast) (nodes : ℕ → Raft Cmd) (i t j : ℕ) (rf : Raft Cmd)
      → Grows cast cast'
      → Calm (nodes i) rf
      → HasMaker size cast nodes t j
      → HasMaker size cast' (set_at nodes i rf) t j
  HasMaker-set_at size cast cast' nodes i t j rf grows calm (m, voted, past) =
      let more =
        count_mono size (supports cast m t) (supports cast' m t)
          (supports-Grows cast cast' grows m t) in
      (
        m,
        omega (arith, voted, more),
        elim (Bool-cases (i == m)) [
          | inl same ↦
              let e : i ≡ m = ground arith in rw same (Past-Calm t j (nodes i) rf (rw e past) calm)
          | inr other ↦ rw other past
        ],
      )

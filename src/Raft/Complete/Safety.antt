-- ===== src/Raft/Complete/Safety.antt =====
-- Leader completeness over a group of nodes: what more than half of the nodes have stored is in the
-- log of every leader of a later term.
use raft_side.Prelude.{
  ℕ, zero, suc, List, [], ◌∷◌, ◌+◌, ◌-◌, ◌/◌, ◌≤◌, ◌<◌, ◌≡◌, inl, inr, refl, arith, Option, Bool,
  some, true, false, get_elem?,
}
use raft_side.Raft.Types.{Entry, leader, is_state}
use raft_side.Raft.Persist.{RaftCodec}
use raft_side.Raft.Shape.{first_index, last_index, last_term, term_at, Contiguous-get_elem?}
use raft_side.Raft.Cluster.Count.{count, count_mono}
use raft_side.Raft.Network.{Network, NetworkReach, IsNew, installs, has_stored}
use raft_side.Raft.Matching.Chain.{LogLinked-link}
use raft_side.Raft.Matching.Agree.{AgreeAt, LogLinked-agree}
use raft_side.Raft.Complete.{On}
use raft_side.Raft.Complete.Tree.{On-trans}
use raft_side.Raft.Complete.History.{complete, made-base}
use raft_side.Raft.Complete.Appends.{On-term_at}
use raft_side.Raft.Complete.Steps.{IsComplete}
use raft_side.Raft.Complete.Stores.{HasStored}
use raft_side.Raft.Complete.Runs.{NetworkReach-Complete}

module _ {Cmd : Type 0} ⦃codec : RaftCodec Cmd⦄ (size : ℕ) where
  term_at-get_elem? :
      (logs : List (Entry Cmd)) (i : ℕ) {t : ℕ}
      → term_at logs i ≡ some t
      → (y : Entry Cmd) × (get_elem? logs i ≡ some y) × (y.term ≡ t)
  term_at-get_elem? [] i at = absurd (ground arith)
  term_at-get_elem? (x ∷ logs) zero at = (x, refl, ground arith)
  term_at-get_elem? (x ∷ logs) (suc i) at = term_at-get_elem? logs i at

  -- What more than half of the nodes stored of a term is on the way down from a later leader's last
  -- entry.
  stored-On :
      {n : Network Cmd} (h : IsComplete size n) (stored : ℕ → Bool) (t j i : ℕ) (y : ℕ × Option Cmd)
      → ((p : ℕ) → stored p ≡ true → HasStored h.matched.made h.base h.acked p t j)
      → size / 2 < count size stored
      → h.matched.made t j ≡ some y
      → is_state (n.cluster.nodes i).state leader ≡ true
      → t < (n.cluster.nodes i).current_term
      → On h.matched.made t j
          (last_term (n.cluster.nodes i).logs)
          (last_index (n.cluster.nodes i).logs)
  stored-On {n} h stored t j i y held most made led later =
      let node = n.cluster.nodes i in
      let history = h.keeps.history in
      let (ct, ci, is_t, low, down) =
        made-base size h.matched.made h.base h.acked h.matched.fair.cast history t j y made in
      let more =
        count_mono size stored (λ p. h.acked p t j)
          (λ p s.
            let (bt, bi, is, rest) = held p s in
            elim rest [ inl below ↦ absurd (ground arith) | inr (x, at, acked) ↦ acked ]) in
      let (bt, bi, is, on, end, all) = (h.keeps.nodes_keep i).led led in
      On-trans h.matched.made t j bt bi (last_term node.logs) (last_index node.logs) on (
        complete size h.matched.made h.base h.acked h.matched.fair.cast history t j
          node.current_term bt bi (omega arith) later is)

  -- In every state that new nodes reach, over elections that overlap, requests that are sent and
  -- then delivered at any time, in any order, again or never, commands and snapshots of the clients,
  -- and crashes with restarts, but no installed snapshots: if a node's log has, after its first, an
  -- entry at an index, and more than half of the nodes took a step that gave them the log of the
  -- leader of the entry's term up to that index at least, then the log of every leader of a later
  -- term has, at every index up to it that neither log has cut off, an entry of the same term, and
  -- of the same command unless the index is the first of one of them.
  pub leader_completeness :
      (start n : Network Cmd) (r : NetworkReach size start n)
      → IsNew size start
      → installs r ≡ false
      → (m i j k : ℕ) (x : Entry Cmd) → first_index (n.cluster.nodes m).logs < j
      → get_elem? (n.cluster.nodes m).logs (j - first_index (n.cluster.nodes m).logs) ≡ some x
      → size / 2 < count size (λ p. has_stored r p x.term j)
      → is_state (n.cluster.nodes i).state leader ≡ true
      → x.term < (n.cluster.nodes i).current_term
      → k ≤ j
      → first_index (n.cluster.nodes m).logs ≤ k
      → first_index (n.cluster.nodes i).logs ≤ k
      → AgreeAt k (n.cluster.nodes i).logs (n.cluster.nodes m).logs
  leader_completeness start n r new none_installs m i j k x after at most led later below low_m
        low_i =
      let (h, held) = NetworkReach-Complete size r new none_installs in
      let made = h.matched.made in
      let a = (n.cluster.nodes i).logs in
      let b = (n.cluster.nodes m).logs in
      let place : j - first_index b ≡ suc (j - first_index b - 1) = omega arith in
      let is_j =
        Contiguous-get_elem? (first_index b) b (j - first_index b) (h.matched.shaped m).contiguous
          at in
      let (p, at_p, link) =
        LogLinked-link made (j - first_index b - 1) b (h.matched.linked m) (rw place at at) in
      let same_j : x.index ≡ j = omega arith in
      let on =
        stored-On h (λ q. has_stored r q x.term j) x.term j i (p.term, x.command)
          (λ q stored. held q x.term j stored) most (rw same_j at link) led later in
      let here : j ≡ first_index a + (j - first_index a) = omega arith in
      let (y, at_y, term) = term_at-get_elem? a (j - first_index a) (
        On-term_at made a x.term (j - first_index a) (h.matched.shaped i) (h.matched.linked i)
          (rw (← here) on)) in
      LogLinked-agree made a b j k y x (h.matched.shaped i) (h.matched.shaped m)
        (h.matched.linked i) (h.matched.linked m) at_y at term below low_i low_m

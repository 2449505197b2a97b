-- ===== src/Raft/Matching/Safety.antt =====
-- Log matching over a group of nodes: logs that have an entry of the same term at the same index are
-- the same up to it.
use raft_side.Prelude.{ℕ, ◌-◌, ◌≤◌, ◌≡◌, refl, arith, none, some, get_elem?}
use raft_side.Raft.Types.{Entry}
use raft_side.Raft.Persist.{RaftCodec}
use raft_side.Raft.Shape.{first_index}
use raft_side.Raft.Cluster.Safety.{IsStart-IsFair}
use raft_side.Raft.Network.{Network, NetworkStep, elect, send, act, NetworkReach, here, next, IsNew}
use raft_side.Raft.Server.{start}
use raft_side.Raft.Matching.Agree.{AgreeAt, LogLinked-agree}
use raft_side.Raft.Matching.Sends.{replicate_one_round-RequestLinked}
use raft_side.Raft.Matching.Act.{act-IsMatched}
use raft_side.Raft.Matching.Inv.{IsMatched, elect-IsMatched, send-IsMatched}

module _ {Cmd : Type 0} ⦃codec : RaftCodec Cmd⦄ (size : ℕ) where
  -- Nobody has voted, and no entry is made.
  pub IsNew-IsMatched :
      (n : Network Cmd)
      → IsNew size n
      → (h : IsMatched size n) × ((p t : ℕ) → h.fair.cast p t ≡ none)
        × ((t j : ℕ) → h.made t j ≡ none)
  IsNew-IsMatched n new =
      let (fair, uncast) = IsStart-IsFair size n.cluster new.start in
      (
        record {
          fair = fair;
          made = λ t j. none;
          makers = λ t j x at. absurd (ground arith);
          shaped =
              λ i. rw (new.logs i) (record { nonempty = omega arith; contiguous = (refl, tt) });
          linked = λ i. rw (new.logs i) tt;
          requests = λ k q at. absurd (ground (arith, new.nothing_sent));
        },
        uncast,
        λ t j. refl,
      )

  NetworkStep-IsMatched :
      {n m : Network Cmd} → NetworkStep size n m → IsMatched size n → IsMatched size m
  NetworkStep-IsMatched {n} (elect d st e) h = (elect-IsMatched size n h d st e).0
  NetworkStep-IsMatched {n} (send i peer q sends) h =
      (send-IsMatched size n h q (
        replicate_one_round-RequestLinked h.made (n.cluster.nodes i) peer sends (h.shaped i)
          (h.linked i))).0
  NetworkStep-IsMatched {n} (act i event rf not_vote allowed done) h =
      act-IsMatched size n h i event rf not_vote allowed done

  NetworkReach-IsMatched :
      {n m : Network Cmd} → NetworkReach size n m → IsMatched size n → IsMatched size m
  NetworkReach-IsMatched here h = h
  NetworkReach-IsMatched (next r st) h = NetworkStep-IsMatched st (NetworkReach-IsMatched r h)

  -- In every state that new nodes reach, over elections that overlap, requests that are sent and
  -- then delivered at any time, in any order, again or never, commands and snapshots of the clients,
  -- crashes with restarts, and installed snapshots whose term is that of the log's entry at their
  -- index if there is one: if two nodes have an entry of the same term at the same index, then at
  -- every index up to it that neither has cut off both have an entry of the same term, and of the
  -- same command unless the index is the first of one of them.
  pub log_matching :
      (start n : Network Cmd)
      → IsNew size start
      → NetworkReach size start n
      → (i j k m : ℕ) (x y : Entry Cmd)
      → get_elem? (n.cluster.nodes i).logs (k - first_index (n.cluster.nodes i).logs) ≡ some x
      → get_elem? (n.cluster.nodes j).logs (k - first_index (n.cluster.nodes j).logs) ≡ some y
      → x.term ≡ y.term
      → m ≤ k
      → first_index (n.cluster.nodes i).logs ≤ m
      → first_index (n.cluster.nodes j).logs ≤ m
      → AgreeAt m (n.cluster.nodes i).logs (n.cluster.nodes j).logs
  log_matching start n new r i j k m x y at_i at_j term below low_i low_j =
      let h = NetworkReach-IsMatched r (IsNew-IsMatched start new).0 in
      LogLinked-agree h.made (n.cluster.nodes i).logs (n.cluster.nodes j).logs k m x y (h.shaped i)
        (h.shaped j) (h.linked i) (h.linked j) at_i at_j term below low_i low_j

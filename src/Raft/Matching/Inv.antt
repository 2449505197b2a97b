-- ===== src/Raft/Matching/Inv.antt =====
-- What a group of nodes and its requests keep: logs are parts of one tree of chains. Elections and
-- the sending of requests keep it.
use raft_side.Prelude.{zero, suc, ℕ, ◌≡◌, refl, arith, true, Option, some, List, ◌∷◌, get_elem?}
use raft_side.Raft.Types.{AppendEntriesRequest, Raft}
use raft_side.Raft.Persist.{RaftCodec}
use raft_side.Raft.Shape.{IsLog}
use raft_side.Raft.Cluster.{Cluster, Step, begin, ask, answer, react, set_at}
use raft_side.Raft.Cluster.Inv.{set_at-All}
use raft_side.Raft.Cluster.Safety.{IsFair, Step-IsFair, CastBy}
use raft_side.Raft.Network.{Network, is_election}
use raft_side.Raft.Matching.{Made, MadeGrows, LogLinked, RequestLinked}
use raft_side.Raft.Matching.Chain.{Linked-MadeGrows, LogLinked-MadeGrows}
use raft_side.Raft.Matching.Keeps.{
  Keeps, Keeps-Calm, request_vote-Keeps, handle_vote_response-Keeps, on_election_timeout-Keeps,
}
use raft_side.Raft.Matching.Makers.{HasMaker, HasMaker-set_at}
use raft_side.Raft.Matching.Events.{Chained, Keeps-Chained}

pub get_elem?-cons_All :
    {A : Type 0} (P : A → Type 0) (xs : List A) (x : A)
    → P x
    → ((k : ℕ) (a : A) → get_elem? xs k ≡ some a → P a)
    → (k : ℕ) (a : A) → get_elem? (x ∷ xs) k ≡ some a
    → P a
get_elem?-cons_All P xs x new h zero a at = let same : x ≡ a = ground arith in rw same at new
get_elem?-cons_All P xs x new h (suc k) a at = h k a at

module _ {Cmd : Type 0} ⦃codec : RaftCodec Cmd⦄ (size : ℕ) where
  -- The entries that were made, such that every log and every request is a part of a chain of them.
  pub record IsMatched (n : Network Cmd) : Type 0 where
    pub fair : IsFair size n.cluster
    pub made : Made Cmd
    pub makers :
        (t j : ℕ) (x : ℕ × Option Cmd)
        → made t j ≡ some x
        → HasMaker size fair.cast n.cluster.nodes t j
    pub shaped : (i : ℕ) → IsLog (n.cluster.nodes i).logs
    pub linked : (i : ℕ) → LogLinked made (n.cluster.nodes i).logs
    pub requests :
        (k : ℕ) (q : AppendEntriesRequest Cmd) → get_elem? n.sent k ≡ some q → RequestLinked made q

  -- An election's step moves one node, which keeps its log.
  election-moves :
      {c d : Cluster Cmd} (st : Step size c d)
      → is_election st ≡ true
      → (i : ℕ) × (rf : Raft Cmd) × (d.nodes ≡ set_at c.nodes i rf) × Keeps (c.nodes i) rf
  election-moves {c} (begin i id votes rf request low new began asks) e =
      (i, rf, refl, on_election_timeout-Keeps (c.nodes i) began)
  election-moves {c} (ask id p e rf r at waits done) _ =
      (p, rf, refl, request_vote-Keeps (c.nodes p) e.request done)
  election-moves {c} (answer id p votes e rf r at waits done) _ =
      let i = e.request.candidate_id in
      (i, rf, refl, handle_vote_response-Keeps (c.nodes i) e.granted_votes e.request r done)
  election-moves (react i event rf not_vote done) e = absurd (ground arith)

  -- One node moves on, and entries may have been made.
  pub moved-IsMatched :
      (n : Network Cmd) (h : IsMatched n) (d : Cluster Cmd) (fair : IsFair size d) (i : ℕ)
      (rf : Raft Cmd) (made : Made Cmd)
      → d.nodes ≡ set_at n.cluster.nodes i rf
      → MadeGrows h.made made
      → Chained made (n.cluster.nodes i) rf
      → ((t j : ℕ) (x : ℕ × Option Cmd)
          → made t j ≡ some x
          → HasMaker size fair.cast (set_at n.cluster.nodes i rf) t j)
      → (h' : IsMatched (record n { cluster = d })) × (h'.made ≡ made) × (h'.fair.cast ≡ fair.cast)
  moved-IsMatched n h d fair i rf made nodes grows (shape, chain, calm) makers = (
    record {
      fair = fair;
      made = made;
      makers = rw nodes makers;
      shaped =
          rw nodes (set_at-All (λ k node. IsLog node.logs) n.cluster.nodes i rf shape h.shaped);
      linked = rw nodes (
          set_at-All (λ k node. LogLinked made node.logs) n.cluster.nodes i rf chain
            (λ k. LogLinked-MadeGrows h.made made (n.cluster.nodes k).logs grows (h.linked k)));
      requests = λ k q at.
          let (entries, indices) = h.requests k q at in
          (Linked-MadeGrows h.made made q.prev_log_term q.entries grows entries, indices);
    },
    refl,
    refl,
  )

  pub elect-IsMatched :
      (n : Network Cmd) (h : IsMatched n) (d : Cluster Cmd) (st : Step size n.cluster d)
      → is_election st ≡ true
      → (h' : IsMatched (record n { cluster = d })) × (h'.made ≡ h.made)
        × CastBy size st h.fair.cast h'.fair.cast
  elect-IsMatched n h d st e =
      let (i, rf, nodes, keeps) = election-moves st e in
      let (fair, (grows, cast_by)) = Step-IsFair size st h.fair in
      let (h', made, cast) =
        moved-IsMatched n h d fair i rf h.made nodes (λ t j x at. at)
          (Keeps-Chained h.made (n.cluster.nodes i) rf keeps (h.shaped i) (h.linked i))
          (λ t j x at.
            HasMaker-set_at size h.fair.cast fair.cast n.cluster.nodes i t j rf grows
              (Keeps-Calm (n.cluster.nodes i) rf keeps) (h.makers t j x at)) in
      (h', made, rw cast (grows, cast_by))

  pub send-IsMatched :
      (n : Network Cmd) (h : IsMatched n) (q : AppendEntriesRequest Cmd)
      → RequestLinked h.made q
      → (h' : IsMatched (record n { sent = q ∷ n.sent })) × (h'.made ≡ h.made)
        × (h'.fair.cast ≡ h.fair.cast)
  send-IsMatched n h q new = (
    record {
      fair = h.fair;
      made = h.made;
      makers = h.makers;
      shaped = h.shaped;
      linked = h.linked;
      requests = λ k r at. get_elem?-cons_All (RequestLinked h.made) n.sent q new h.requests k r at;
    },
    refl,
    refl,
  )

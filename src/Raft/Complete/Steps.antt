-- ===== src/Raft/Complete/Steps.antt =====
-- Every step of a group of nodes with its requests keeps the history of its elections and entries.
use raft_side.Prelude.{ℕ, ◌≤◌, ◌≡◌, inl, inr, ◌∙◌, arith, some, true}
use raft_side.Raft.Persist.{RaftCodec}
use raft_side.Raft.Cluster.{Cluster, set_at, Step, begin, ask, answer, react}
use raft_side.Raft.Cluster.Inv.{Leads}
use raft_side.Raft.Cluster.Quiet.{on_election_timeout-begins}
use raft_side.Raft.Cluster.Safety.{IsFair}
use raft_side.Raft.Network.{Network, is_election}
use raft_side.Raft.Matching.{MadeGrows}
use raft_side.Raft.Matching.Inv.{IsMatched, elect-IsMatched}
use raft_side.Raft.Complete.History.{Base, Acked}
use raft_side.Raft.Complete.Group.{GroupKeeps}
use raft_side.Raft.Complete.Votes.{ask-GroupKeeps, begin-GroupKeeps}
use raft_side.Raft.Complete.Wins.{answer-GroupKeeps}

module _ {Cmd : Type 0} ⦃codec : RaftCodec Cmd⦄ (size : ℕ) where
  pub record IsComplete (n : Network Cmd) : Type 0 where
    pub matched : IsMatched size n
    pub base : Base
    pub acked : Acked
    pub keeps : GroupKeeps size matched.made matched.fair.cast base acked n.cluster n.sent

  -- A node votes in no term after its own.
  pub cast_past :
      {c : Cluster Cmd} (h : IsFair size c) (p t v : ℕ)
      → h.cast p t ≡ some v
      → t ≤ (c.nodes p).current_term
  cast_past h p t v voted = ground (arith, h.voting.held p t v voted)

  -- The history goes on.
  abbrev pub GoesOn : {n m : Network Cmd} → IsComplete n → IsComplete m → Type 0
  GoesOn a b =
      ((u bt bi : ℕ) → a.base u ≡ some (bt, bi) → b.base u ≡ some (bt, bi))
      × ((p t j : ℕ) → a.acked p t j ≡ true → b.acked p t j ≡ true)
      × MadeGrows a.matched.made b.matched.made

  pub elect-IsComplete :
      (n : Network Cmd) (h : IsComplete n) (d : Cluster Cmd) (st : Step size n.cluster d)
      (e : is_election st ≡ true)
      → (h' : IsComplete (record n { cluster = d })) × GoesOn h h'
  elect-IsComplete n h d (begin i id votes rf request low new began asks) e =
      let st = begin i id votes rf request low new began asks in
      let (m, made, by) = elect-IsMatched size n h.matched d st e in
      let (not_leader, peers, me, term, vote, one, r_term, r_id) =
        on_election_timeout-begins (n.cluster.nodes i) began asks in
      (
        record {
          matched = m;
          base = h.base;
          acked = h.acked;
          keeps = rw made (
              begin-GroupKeeps h.keeps (cast_past h.matched.fair) h.matched.shaped m.fair.cast i id
                votes rf request low new began asks (me ∙ h.matched.fair.voting.named i) by);
        },
        (λ u bt bi is. is, λ p t j is. is, λ t j x at. rw made at),
      )
  elect-IsComplete n h d (ask id p e rf r at waits done) y =
      let (m, made, by) = elect-IsMatched size n h.matched d (ask id p e rf r at waits done) y in
      (
        record {
          matched = m;
          base = h.base;
          acked = h.acked;
          keeps = rw made (
              ask-GroupKeeps h.keeps (cast_past h.matched.fair) h.matched.shaped m.fair.cast id p e
                rf r at waits done by);
        },
        (λ u bt bi is. is, λ p t j is. is, λ t j x at. rw made at),
      )
  elect-IsComplete n h d (answer id p votes e rf r at waits done) y =
      let i = e.request.candidate_id in
      let (m, made, by) =
        elect-IsMatched size n h.matched d (answer id p votes e rf r at waits done) y in
      let self : set_at n.cluster.nodes i rf i ≡ rf = ground arith in
      let votes_led : Leads size m.fair.cast i rf = rw self at (m.fair.voting.led i) in
      let (base', grows, keeps) =
        answer-GroupKeeps h.keeps (cast_past h.matched.fair) m.fair.cast id p votes e rf r at done
          (by.0, λ q t v voted. elim (by.1 q t v voted) [ inl old ↦ old | inr new ↦ absurd new ])
          votes_led in
      (
        record { matched = m; base = base'; acked = h.acked; keeps = rw made keeps },
        (grows, λ p t j is. is, λ t j x at. rw made at),
      )
  elect-IsComplete n h d (react i event rf not_vote done) e = absurd (ground arith)

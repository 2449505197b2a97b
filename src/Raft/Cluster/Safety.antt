-- ===== src/Raft/Cluster/Safety.antt =====
-- Election safety: in every state that a group of nodes reaches, a term has one leader at most.
use raft_side.Prelude.{
  refl, ℕ, ◌/◌, ◌<◌, ◌≡◌, ◌⊎◌, inl, inr, sym, ap, ◌∙◌, arith, true, false, none, some, ◌==◌,
  Bool-cases, Option-cases,
}
use raft_side.Raft.Types.{Raft, leader, is_state}
use raft_side.Raft.Persist.{RaftCodec}
use raft_side.Raft.Votes.{
  OnDisk, request_vote-safe, handle_vote_response-safe, on_election_timeout-safe,
}
use raft_side.Raft.History.{step-safe}
use raft_side.Raft.Cluster.{
  ended, Election, Cluster, set_at, Step, begin, ask, answer, react, Reach, here, next,
}
use raft_side.Raft.Cluster.Count.{count, count_mono, count_disjoint}
use raft_side.Raft.Cluster.Quiet.{
  request_vote-Quiet, request_vote-grants, on_election_timeout-begins, handle_vote_response-counts,
  step-Quiet,
}
use raft_side.Raft.Cluster.Inv.{
  Cast, Grows, supports, counts, Leads, HasVoted, AllCounted, cast_vote, HasVoted-set_at,
  HasVoted-cast_vote, AllCounted-set_at, HasCounted-Grows,
}
use raft_side.Raft.Cluster.Tally.{HasCounted-begin, HasCounted-ask, HasCounted-answer}

set_at_self : {A : Type 0} (f : ℕ → A) (p : ℕ) (a : A) → set_at f p a p ≡ a
set_at_self f p a = ground arith

-- A node casts one vote in a term, so two that more than half voted for are one.
pub majority-one :
    (size : ℕ) (cast : Cast) (i j t : ℕ)
    → size / 2 < count size (supports cast i t)
    → size / 2 < count size (supports cast j t)
    → i ≡ j
majority-one size cast i j t a b = elim (Bool-cases (i == j)) [
  | inl one ↦ ground arith
  | inr two ↦
      let apart = count_disjoint size (supports cast i t) (supports cast j t) (λ p s.
        elim (Option-cases (cast p t)) [
          | inl none_cast ↦ absurd (ground arith)
          | inr (v, voted) ↦ ground arith
        ]) in
      absurd (omega (arith, apart))
]

module _ {Cmd : Type 0} ⦃codec : RaftCodec Cmd⦄ (size : ℕ) where
  -- The votes that were cast, such that all nodes hold to them and all elections counted them.
  pub record IsFair (c : Cluster Cmd) : Type 0 where
    pub cast : Cast
    pub voting : HasVoted size c.nodes cast
    pub counting : AllCounted size cast c.elections

  Quiet-Leads :
      (cast : Cast) (c : Cluster Cmd) (i : ℕ) (rf : Raft Cmd)
      → HasVoted size c.nodes cast
      → (is_state rf.state leader ≡ false)
        ⊎ (is_state (c.nodes i).state leader ≡ true) × (rf.current_term ≡ (c.nodes i).current_term)
      → Leads size cast i rf
  Quiet-Leads cast c i rf h (inl none_led) l = absurd (ground arith)
  Quiet-Leads cast c i rf h (inr (led, term)) l = rw (sym term) at (h.led i led)

  -- The vote that a step casts: a candidate's own, or the one that it asked for and was granted.
  abbrev pub Voted : {c d : Cluster Cmd} → Step size c d → (p t v : ℕ) → Type 0
  Voted (begin i id votes rf request low new began asks) p t v =
      (p ≡ i) × (t ≡ request.term) × (v ≡ i)
  Voted (ask id q e rf r at waits done) p t v =
      (r.vote_granted ≡ true) × (p ≡ q) × (t ≡ e.request.term) × (v ≡ e.request.candidate_id)
  Voted (answer id q votes e rf r at waits done) p t v = ⊥
  Voted (react i event rf not_vote done) p t v = ⊥

  -- A step takes back no vote, and casts no other.
  abbrev pub CastBy : {c d : Cluster Cmd} → Step size c d → Cast → Cast → Type 0
  CastBy st cast cast' =
      Grows cast cast' × ((p t v : ℕ) → cast' p t ≡ some v → (cast p t ≡ some v) ⊎ Voted st p t v)

  pub Step-IsFair :
      {c d : Cluster Cmd} (st : Step size c d) (h : IsFair c)
      → (h' : IsFair d) × CastBy st h.cast h'.cast
  Step-IsFair {c} (begin i id votes rf request low new began asks) h =
      let (not_leader, peers, me, term, vote, one, r_term, r_id) =
        on_election_timeout-begins (c.nodes i) began asks in
      let (keeps, disk) = on_election_timeout-safe (c.nodes i) began in
      let moved =
        HasVoted-set_at size c.nodes h.cast i rf h.voting peers me keeps disk
          (λ l. absurd (ground arith)) in
      let here = set_at_self c.nodes i rf in
      let (voting, grows) =
        HasVoted-cast_vote size (set_at c.nodes i rf) h.cast i request.term i moved
          (ap Raft.current_term here ∙ sym r_term)
          (ap Raft.voted_for here ∙ vote ∙ ap some (h.voting.named i)) in
      let cast = cast_vote i request.term i h.cast in
      let mine : supports cast request.candidate_id request.term rf.me ≡ true =
        ground (arith, h.voting.named i) in
      let fresh =
        HasCounted-begin size rf.peers rf.me cast request (ground (arith, h.voting.named i))
          (peers ∙ h.voting.sized i) mine in
      (
        record {
          cast = cast;
          voting = voting;
          counting =
              AllCounted-set_at size h.cast cast c.elections id _ grows h.counting
                (rw (sym one) at fresh);
        },
        (grows, λ q u w at. ground arith),
      )
  Step-IsFair {c} (ask id p e rf r at waits done) h =
      let (peers, me, leads) = request_vote-Quiet (c.nodes p) e.request done in
      let (keeps, disk) = request_vote-safe (c.nodes p) e.request done in
      let moved =
        HasVoted-set_at size c.nodes h.cast p rf h.voting peers me keeps disk
          (Quiet-Leads h.cast c p rf h.voting leads) in
      let here = set_at_self c.nodes p rf in
      elim (Bool-cases r.vote_granted) [
        | inl gave ↦
            let (term, vote) = request_vote-grants (c.nodes p) e.request done gave in
            let t = e.request.term in
            let v = e.request.candidate_id in
            let (voting, grows) =
              HasVoted-cast_vote size (set_at c.nodes p rf) h.cast p t v moved
                (ap Raft.current_term here ∙ term) (ap Raft.voted_for here ∙ vote) in
            let cast = cast_vote p t v h.cast in
            (
              record {
                cast = cast;
                voting = voting;
                counting = AllCounted-set_at size h.cast cast c.elections id _ grows h.counting (
                    HasCounted-ask size p cast e r
                      (HasCounted-Grows size h.cast cast e grows (h.counting id e at)) waits
                      (λ y. ground arith));
              },
              (grows, λ q u w at. ground arith),
            )
        | inr kept ↦ (
          record {
            cast = h.cast;
            voting = moved;
            counting =
                AllCounted-set_at size h.cast h.cast c.elections id _ (λ q t v s. s) h.counting
                  (HasCounted-ask size p h.cast e r (h.counting id e at) waits
                    (λ y. absurd (ground arith)));
          },
          (λ q t v s. s, λ q t v s. inl s),
        )
      ]
  Step-IsFair {c} (answer id p votes e rf r at waits done) h =
      let i = e.request.candidate_id in
      let (peers, me, more, leads) =
        handle_vote_response-counts (c.nodes i) e.granted_votes e.request r done in
      let (keeps, disk) =
        handle_vote_response-safe (c.nodes i) e.granted_votes e.request r done (h.voting.disk i) in
      let e' : Election = record e { granted_votes = votes; asking = set_at e.asking p ended } in
      let counted = HasCounted-answer size p votes h.cast e r (h.counting id e at) waits more in
      let enough =
        count_mono size (counts h.cast e') (supports h.cast i e.request.term)
          (λ q s. ground arith) in
      (
        record {
          cast = h.cast;
          voting = HasVoted-set_at size c.nodes h.cast i rf h.voting peers me keeps disk (λ l.
              elim leads [
                | inl not_leader ↦ absurd (ground arith)
                | inr (inl (led, term)) ↦ rw (sym term) at (h.voting.led i led)
                | inr (inr (term, majority)) ↦
                    let big : size / 2 < count size (supports h.cast i e.request.term) =
                      omega (arith, majority, counted.counted, enough, h.voting.sized i) in
                    rw (sym term) at big
              ]);
          counting =
              AllCounted-set_at size h.cast h.cast c.elections id e' (λ q t v s. s) h.counting
                counted;
        },
        (λ q t v s. s, λ q t v s. inl s),
      )
  Step-IsFair {c} (react i event rf not_vote done) h =
      let (peers, me, leads) = step-Quiet (c.nodes i) event not_vote done in
      let (keeps, disk) = step-safe (c.nodes i) event done (h.voting.disk i) in
      (
        record {
          cast = h.cast;
          voting =
              HasVoted-set_at size c.nodes h.cast i rf h.voting peers me keeps disk
                (Quiet-Leads h.cast c i rf h.voting leads);
          counting = h.counting;
        },
        (λ q t v s. s, λ q t v s. inl s),
      )

  Reach-IsFair : {c d : Cluster Cmd} → IsFair c → Reach size c d → IsFair d
  Reach-IsFair h here = h
  Reach-IsFair h (next r st) = (Step-IsFair st (Reach-IsFair h r)).0

  -- A group at its start: no election, no leader, and every node as its disk has it.
  pub record IsStart (c : Cluster Cmd) : Type 0 where
    pub named : (i : ℕ) → (c.nodes i).me ≡ i
    pub sized : (i : ℕ) → (c.nodes i).peers ≡ size
    pub disk : (i : ℕ) → OnDisk (c.nodes i)
    pub no_leader : (i : ℕ) → is_state (c.nodes i).state leader ≡ false
    pub no_election : (id : ℕ) → c.elections id ≡ none

  -- Nobody has voted.
  pub IsStart-IsFair :
      (c : Cluster Cmd) → IsStart c → (h : IsFair c) × ((p t : ℕ) → h.cast p t ≡ none)
  IsStart-IsFair c s = (
    record {
      cast = λ p t. none;
      voting = record {
        named = s.named;
        sized = s.sized;
        disk = s.disk;
        held = λ p t v h. absurd (ground arith);
        led = λ i l. absurd (ground (arith, s.no_leader i));
      };
      counting = λ id e at. absurd (ground (arith, s.no_election id));
    },
    λ p t. refl,
  )

  -- In every state that a group of nodes reaches from its start, over elections that overlap,
  -- messages that are delayed or lost, crashes with restarts, and any other events of the nodes, two
  -- nodes that lead in the same term are one.
  pub election_safety :
      (start c : Cluster Cmd)
      → IsStart start
      → Reach size start c
      → (i j : ℕ) → is_state (c.nodes i).state leader ≡ true
      → is_state (c.nodes j).state leader ≡ true
      → (c.nodes i).current_term ≡ (c.nodes j).current_term
      → i ≡ j
  election_safety start c s r i j l m same =
      let h = Reach-IsFair (IsStart-IsFair start s).0 r in
      majority-one size h.cast i j ((c.nodes j).current_term) (rw same at (h.voting.led i l))
        (h.voting.led j m)

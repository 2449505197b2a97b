-- ===== src/Raft/Complete/Group.antt =====
-- The group's part of what is kept, and a step of one node that keeps its last entry.
use raft_side.Prelude.{
  ℕ, ◌+◌, ◌/◌, ◌≤◌, ◌<◌, ◌≡◌, ◌⊎◌, inl, inr, refl, arith, Option, none, some, Bool-cases, true,
  false, List, ◌∷◌, get_elem?, length,
}
use raft_side.Raft.Types.{
  AppendEntriesRequest, RequestVoteRequest, candidate, leader, is_state, Raft,
}
use raft_side.Raft.Shape.{last_term, last_index}
use raft_side.Raft.Cluster.{Election, Cluster, set_at}
use raft_side.Raft.Cluster.Count.{count, count_mono}
use raft_side.Raft.Cluster.Inv.{Cast, Grows, supports, set_at-All, supports-Grows}
use raft_side.Raft.Matching.{Made}
use raft_side.Raft.Complete.{On}
use raft_side.Raft.Complete.History.{Base, Acked, Voter, IsHistory}
use raft_side.Raft.Complete.Grows.{Grown, Voter-Grown, IsHistory-Grown}
use raft_side.Raft.Complete.Inv.{NodeKeeps, NodeKeeps-Grown, SameLast}

-- A majority stays one.
pub majority-Grows :
    (size m u : ℕ) (cast cast' : Cast)
    → Grows cast cast'
    → size / 2 < count size (supports cast m u)
    → size / 2 < count size (supports cast' m u)
majority-Grows size m u cast cast' grows most =
    let more =
      count_mono size (supports cast m u) (supports cast' m u)
        (supports-Grows cast cast' grows m u) in
    omega arith

module _ {Cmd : Type 0} where
  -- The last entry of a request is of the leader's log at its election, or the leader made it.
  abbrev pub SentOn : Made Cmd → Base → AppendEntriesRequest Cmd → Type 0
  SentOn made base q =
      let end =
        last_term (
          record { index = q.prev_log_index; term = q.prev_log_term; command = none }
          ∷ q.entries) in
      let place = q.prev_log_index + length q.entries in
      (bt : ℕ) × (bi : ℕ) × (base q.term ≡ some (bt, bi))
      × (On made end place bt bi
          ⊎ (end ≡ q.term) × (x : ℕ × Option Cmd) × (made q.term place ≡ some x))

  -- While its node is a candidate, an election's request has the last entry of the node's log.
  abbrev pub AskedBy : RequestVoteRequest → Raft Cmd → Type 0
  AskedBy r rf =
      (0 < r.term)
      × (r.term ≤ rf.current_term)
      × (is_state rf.state candidate ≡ true
          → r.term ≡ rf.current_term
          → (last_term rf.logs ≡ r.last_log_term) × (last_index rf.logs ≡ r.last_log_index))

  -- The winner of a term is past its candidacy.
  abbrev pub HasWon : (u : ℕ) → Raft Cmd → Type 0
  HasWon u rf =
      (u < rf.current_term) ⊎ (u ≡ rf.current_term) × (is_state rf.state candidate ≡ false)

  -- The voters of a candidate, while its term has no leader.
  abbrev pub Polled : Made Cmd → Base → Acked → Cast → (v : ℕ) → Raft Cmd → Type 0
  Polled made base acked cast v rf =
      is_state rf.state candidate ≡ true
      → base rf.current_term ≡ none
      → (p : ℕ) → cast p rf.current_term ≡ some v
      → Voter made base acked cast p rf.current_term (last_term rf.logs) (last_index rf.logs)

  pub record GroupKeeps (size : ℕ) (made : Made Cmd) (cast : Cast) (base : Base) (acked : Acked)
      (c : Cluster Cmd) (sent : List (AppendEntriesRequest Cmd)) : Type 0 where
    pub history : IsHistory size made base acked cast
    pub nodes_keep : (i : ℕ) → NodeKeeps made base acked i (c.nodes i)
    pub winner :
        (u bt bi : ℕ)
        → base u ≡ some (bt, bi)
        → (m : ℕ) × (size / 2 < count size (supports cast m u)) × HasWon u (c.nodes m)
    pub asked :
        (id : ℕ) (e : Election)
        → c.elections id ≡ some e
        → AskedBy e.request (c.nodes e.request.candidate_id)
    pub polled : (v : ℕ) → Polled made base acked cast v (c.nodes v)
    pub cast_term : (p t v : ℕ) → cast p t ≡ some v → t ≤ (c.nodes v).current_term
    pub sent_on :
        (k : ℕ) (q : AppendEntriesRequest Cmd) → get_elem? sent k ≡ some q → SentOn made base q

  -- A step of one node: its last entry stays, its term does not fall, and it does not begin to lead
  -- or to stand.
  pub record Still (rf rf' : Raft Cmd) : Type 0 where
    pub last : SameLast rf rf'
    pub later : rf.current_term ≤ rf'.current_term
    pub leads :
        is_state rf'.state leader ≡ true
        → (is_state rf.state leader ≡ true) × (rf'.current_term ≡ rf.current_term)
    pub stands :
        is_state rf'.state candidate ≡ true
        → (is_state rf.state candidate ≡ true) × (rf'.current_term ≡ rf.current_term)

  HasWon-Still : (u : ℕ) (rf rf' : Raft Cmd) → Still rf rf' → HasWon u rf → HasWon u rf'
  HasWon-Still u rf rf' s w = elim (Bool-cases (is_state rf'.state candidate)) [
    | inl now ↦ let (was, same) = s.stands now in ground arith
    | inr other ↦ ground (arith, s.later)
  ]

  AskedBy-Still :
      (r : RequestVoteRequest) (rf rf' : Raft Cmd) → Still rf rf' → AskedBy r rf → AskedBy r rf'
  AskedBy-Still r rf rf' s (pos, low, last) = (
    pos,
    omega (arith, s.later),
    λ now same.
        let (was, term) = s.stands now in
        let (same_t, same_i) = s.last in rw (same_t, same_i) (last was (omega arith)),
  )

  Polled-Still :
      (made : Made Cmd) (base : Base) (acked : Acked) (cast : Cast) (v : ℕ) (rf rf' : Raft Cmd)
      → Still rf rf'
      → Polled made base acked cast v rf
      → Polled made base acked cast v rf'
  Polled-Still made base acked cast v rf rf' s polled now open_ p voted =
      let (was, term) = s.stands now in
      let (same_t, same_i) = s.last in
      rw (term, same_t, same_i) (polled was (rw term at open_) p (rw term at voted))

  -- A new vote of a step.
  abbrev pub NewVote : Made Cmd → Base → Acked → Cast → (p t v : ℕ) → Raft Cmd → Type 0
  NewVote made base acked cast p t v rf =
      (t ≤ rf.current_term)
      × (is_state rf.state candidate ≡ true
          → base rf.current_term ≡ none
          → t ≡ rf.current_term
          → Voter made base acked cast p t (last_term rf.logs) (last_index rf.logs))

  -- The history goes on by votes alone.
  pub votes-Grown :
      (made : Made Cmd) (base : Base) (acked : Acked) (cast cast' : Cast) (terms : ℕ → ℕ)
      → Grows cast cast'
      → Grown made made base base acked acked cast cast' terms
  votes-Grown made base acked cast cast' terms grows = record {
    made_grows = λ t j x at. at;
    base_grows = λ u bt bi is. is;
    cast_grows = grows;
    acked_grows = λ p t j is. inl is;
  }

  pub votes-IsHistory :
      (size : ℕ) (made : Made Cmd) (base : Base) (acked : Acked) (cast cast' : Cast) (terms : ℕ → ℕ)
      → Grows cast cast'
      → IsHistory size made base acked cast
      → ((p t v : ℕ) → cast p t ≡ some v → t ≤ terms p)
      → IsHistory size made base acked cast'
  votes-IsHistory size made base acked cast cast' terms grows h past =
      IsHistory-Grown (votes-Grown made base acked cast cast' terms grows) size h past
        (λ u j v x at. inl at) h.no_zero (λ u bt bi is. inl is) h.acked_made

  pub Still-GroupKeeps :
      {size : ℕ} {made : Made Cmd} {cast : Cast} {base : Base} {acked : Acked} {c : Cluster Cmd}
      {sent : List (AppendEntriesRequest Cmd)} (k : GroupKeeps size made cast base acked c sent)
      (cast' : Cast) (d : Cluster Cmd) (i : ℕ) (rf : Raft Cmd)
      → d.nodes ≡ set_at c.nodes i rf
      → ((p t v : ℕ) → cast p t ≡ some v → t ≤ (c.nodes p).current_term)
      → Grows cast cast'
      → ((p t v : ℕ)
          → cast' p t ≡ some v
          → (cast p t ≡ some v) ⊎ NewVote made base acked cast' p t v (c.nodes v))
      → Still (c.nodes i) rf
      → ((id : ℕ) (e : Election)
          → d.elections id ≡ some e
          → (id' : ℕ) × (e' : Election) × (c.elections id' ≡ some e') × (e'.request ≡ e.request))
      → GroupKeeps size made cast' base acked d sent
  Still-GroupKeeps {size} {made} {cast} {base} {acked} {c} k cast' d i rf nodes past grows votes
        still elections =
      let terms : ℕ → ℕ = λ p. (c.nodes p).current_term in
      let g : Grown made made base base acked acked cast cast' terms = record {
        made_grows = λ t j x at. at;
        base_grows = λ u bt bi is. is;
        cast_grows = grows;
        acked_grows = λ p t j is. inl is;
      } in
      let keeps = NodeKeeps-Grown g in
      let polled' : (v : ℕ) → Polled made base acked cast' v (c.nodes v) = λ v stands open_ p voted.
        elim (votes p (c.nodes v).current_term v voted) [
          | inl old ↦
              Voter-Grown g p (c.nodes v).current_term _ _ (λ w. past p (c.nodes v).current_term w)
                (k.polled v stands open_ p old)
          | inr (low, new) ↦ new stands open_ refl
        ] in
      record {
        history =
            IsHistory-Grown g size k.history past (λ u j v x at. inl at) k.history.no_zero
              (λ u bt bi is. inl is) k.history.acked_made;
        nodes_keep = rw nodes (
            set_at-All (λ j node. NodeKeeps made base acked j node) c.nodes i rf
              (keeps i (c.nodes i) rf (k.nodes_keep i) still.last still.later (λ t j. refl)
                (λ l. let (led, term) = still.leads l in (led, term, λ j x at. at)))
              k.nodes_keep);
        winner = λ u bt bi is.
            let (m, most, won) = k.winner u bt bi is in
            let more =
              count_mono size (supports cast m u) (supports cast' m u)
                (supports-Grows cast cast' grows m u) in
            (
              m,
              omega arith,
              rw nodes (
                  set_at-All (λ j node. HasWon u (c.nodes j) → HasWon u node) c.nodes i rf
                    (HasWon-Still u (c.nodes i) rf still) (λ j w. w) m won),
            );
        asked = λ id e at.
            let (id', e', at', same) = elections id e at in
            let was : AskedBy e.request (c.nodes e.request.candidate_id) =
              rw same at (k.asked id' e' at') in
            rw nodes (
              set_at-All (λ j node. AskedBy e.request (c.nodes j) → AskedBy e.request node) c.nodes
                i rf (AskedBy-Still e.request (c.nodes i) rf still) (λ j w. w)
                e.request.candidate_id was);
        polled = rw nodes (
            set_at-All (λ j node. Polled made base acked cast' j node) c.nodes i rf
              (Polled-Still made base acked cast' i (c.nodes i) rf still (polled' i)) polled');
        cast_term = λ p t v voted.
            let low : t ≤ (c.nodes v).current_term = elim (votes p t v voted) [
              | inl old ↦ k.cast_term p t v old
              | inr new ↦ new.0
            ] in
            let later : (c.nodes v).current_term ≤ (set_at c.nodes i rf v).current_term =
              set_at-All (λ j node. (c.nodes j).current_term ≤ node.current_term) c.nodes i rf
                still.later (λ j. omega arith) v in
            rw nodes (omega arith);
        sent_on = k.sent_on;
      }

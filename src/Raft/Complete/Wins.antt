-- ===== src/Raft/Complete/Wins.antt =====
-- The step of an election that may win it.
use raft_side.Prelude.{
  ◌∙◌, ℕ, suc, ◌/◌, ◌≤◌, ◌<◌, ◌≡◌, ◌⊎◌, inl, inr, refl, sym, arith, Option, none, some, Bool-cases,
  Option-cases, ◌==◌, true, false, List, if◌then◌else◌,
}
use raft_side.Raft.Types.{
  AppendEntriesRequest, RequestVoteResponse, candidate, leader, is_state, Raft,
}
use raft_side.Raft.Persist.{RaftCodec}
use raft_side.Raft.Shape.{last_term, last_index}
use raft_side.Raft.Vote.{handle_vote_response}
use raft_side.Raft.Cluster.{ended, Election, Cluster, set_at}
use raft_side.Raft.Cluster.Count.{count}
use raft_side.Raft.Cluster.Inv.{Cast, supports, set_at-All}
use raft_side.Raft.Cluster.Safety.{majority-one}
use raft_side.Raft.Matching.{Made}
use raft_side.Raft.Matching.Act.{SameCast}
use raft_side.Raft.Complete.Tree.{On-self}
use raft_side.Raft.Complete.History.{Base, Acked, made-base}
use raft_side.Raft.Complete.Grows.{Grown, Voter-Grown, IsHistory-Grown, Lost-Grown}
use raft_side.Raft.Complete.Inv.{NodeKeeps, NodeKeeps-Grown}
use raft_side.Raft.Complete.Group.{
  GroupKeeps, Still-GroupKeeps, AskedBy, HasWon, Polled, majority-Grows,
}
use raft_side.Raft.Complete.Settles.{Settles-Still, handle_vote_response-outcome}
use raft_side.Raft.Complete.Votes.{set_at-request}

supports-some : (cast : Cast) (v t p : ℕ) → supports cast v t p ≡ true → cast p t ≡ some v
supports-some cast v t p s = elim (Option-cases (cast p t)) [
  | inl no_vote ↦ absurd (ground arith)
  | inr (w, voted) ↦ ground arith
]

-- The term has its leader now.
abbrev elect_base : (t bt bi : ℕ) → Base → Base
elect_base t bt bi base u = if t == u then some (bt, bi) else base u

elect_base_self : (t bt bi : ℕ) (base : Base) → elect_base t bt bi base t ≡ some (bt, bi)
elect_base_self t bt bi base = ground arith

elect_base-cases :
    (t lt li : ℕ) (base : Base) (u bt bi : ℕ)
    → elect_base t lt li base u ≡ some (bt, bi)
    → (base u ≡ some (bt, bi)) ⊎ (u ≡ t) × (bt ≡ lt) × (bi ≡ li)
elect_base-cases t lt li base u bt bi is = ground arith

module _ {Cmd : Type 0} {size : ℕ} {made : Made Cmd} {cast : Cast} {base : Base} {acked : Acked}
    {c : Cluster Cmd} {sent : List (AppendEntriesRequest Cmd)}
    (k : GroupKeeps size made cast base acked c sent)
    (past : (p t v : ℕ) → cast p t ≡ some v → t ≤ (c.nodes p).current_term) (cast' : Cast)
    (same_cast : SameCast cast cast') (i : ℕ) (stands : is_state (c.nodes i).state candidate ≡ true)
    (most : size / 2 < count size (supports cast' i (c.nodes i).current_term)) where
  -- No other has won the term.
  open_term : base (c.nodes i).current_term ≡ none
  open_term = elim (Option-cases (base (c.nodes i).current_term)) [
    | inl open_ ↦ open_
    | inr ((bt, bi), is) ↦
        let t = (c.nodes i).current_term in
        let (m, many, won) = k.winner t bt bi is in
        let one : m ≡ i =
          majority-one size cast' m i t (majority-Grows size m t cast cast' same_cast.0 many)
            most in
        let here : HasWon t (c.nodes i) = rw one at won in absurd (ground arith)
  ]

  none_made : (j : ℕ) (x : ℕ × Option Cmd) → made (c.nodes i).current_term j ≡ some x → ⊥
  none_made j x at =
      let (bt, bi, is, low, on) = made-base size made base acked cast k.history _ j x at in
      absurd (ground (arith, open_term))

  older : 0 < (c.nodes i).current_term → last_term (c.nodes i).logs < (c.nodes i).current_term
  older pos = elim (Bool-cases (last_term (c.nodes i).logs == (c.nodes i).current_term)) [
    | inr other ↦ ground (arith, (k.nodes_keep i).entry.1)
    | inl same ↦
        let e : last_term (c.nodes i).logs ≡ (c.nodes i).current_term = ground arith in
        elim (k.nodes_keep i).entry.0 [
          | inl (zero_term, zero_index) ↦ absurd (omega arith)
          | inr (x, at) ↦ absurd (none_made _ x (rw e at at))
        ]
  ]

  win-GroupKeeps :
      (rf : Raft Cmd) (d : Cluster Cmd)
      → 0 < (c.nodes i).current_term
      → d.nodes ≡ set_at c.nodes i rf
      → rf.logs ≡ (c.nodes i).logs
      → rf.current_term ≡ (c.nodes i).current_term
      → rf.state ≡ leader
      → ((id : ℕ) (e : Election)
          → d.elections id ≡ some e
          → (id' : ℕ) × (e' : Election) × (c.elections id' ≡ some e') × (e'.request ≡ e.request))
      → GroupKeeps size made cast'
          (elect_base
            (c.nodes i).current_term
            (last_term (c.nodes i).logs)
            (last_index (c.nodes i).logs)
            base)
          acked
          d
          sent
  win-GroupKeeps rf d pos nodes logs term state elections =
      let node = c.nodes i in
      let t = node.current_term in
      let lt = last_term node.logs in
      let li = last_index node.logs in
      let base' = elect_base t lt li base in
      let open_ = open_term in
      let g : Grown made made base base' acked acked cast cast' (λ p. (c.nodes p).current_term) =
        record {
          made_grows = λ u j x at. at;
          base_grows = λ u bt bi is. ground arith;
          cast_grows = same_cast.0;
          acked_grows = λ p u j is. inl is;
        } in
      let no_candidate : is_state rf.state candidate ≡ false = rw state refl in
      record {
        history =
            IsHistory-Grown g size k.history past (λ u j v x at. inl at) k.history.no_zero
              (λ u bt bi is. elim (elect_base-cases t lt li base u bt bi is) [
                | inl old ↦ inl old
                | inr (is_u, is_t, is_i) ↦ inr (
                    rw (is_u, is_t, is_i)
                      (
                        older pos,
                        (k.nodes_keep i).entry.0,
                        supports cast' i t,
                        most,
                        λ p votes.
                            k.polled i stands open_ p
                              (same_cast.1 p t i (supports-some cast' i t p votes)),
                      ))
              ])
              k.history.acked_made;
        nodes_keep = rw nodes (
            set_at-All (λ j a. NodeKeeps made base' acked j a) c.nodes i rf
              (record {
                kept = λ u j is.
                    let (low, held) = (k.nodes_keep i).kept u j is in
                    rw (logs, term)
                      (
                        low,
                        elim held [
                          | inl on ↦ inl on
                          | inr lost ↦ inr (Lost-Grown g u j (suc t) (suc t) (omega arith) lost)
                        ],
                      );
                entry = rw (logs, term) (k.nodes_keep i).entry;
                led = λ l.
                    rw (logs, term)
                      (
                        lt,
                        li,
                        elect_base_self t lt li base,
                        On-self made lt li,
                        inr (refl, refl),
                        λ j x at. absurd (none_made j x at),
                      );
              })
              (λ j.
                NodeKeeps-Grown g j (c.nodes j) (c.nodes j) (k.nodes_keep j) (refl, refl)
                  (omega arith) (λ u l. refl) (λ l. (l, refl, λ m x at. at))));
        winner = λ u bt bi is. elim (elect_base-cases t lt li base u bt bi is) [
          | inl old ↦
              let (m, many, won) = k.winner u bt bi old in
              (
                m,
                majority-Grows size m u cast cast' same_cast.0 many,
                rw nodes (
                    set_at-All (λ j a. HasWon u (c.nodes j) → HasWon u a) c.nodes i rf
                      (λ w. ground arith) (λ j w. w) m won),
              )
          | inr (is_u, is_t, is_i) ↦
              let self : set_at c.nodes i rf i ≡ rf = ground arith in
              (i, rw is_u most, rw (nodes, self) (inr (is_u ∙ sym term, no_candidate)))
        ];
        asked = λ id e at.
            let (id', e', at', same) = elections id e at in
            let was : AskedBy e.request (c.nodes e.request.candidate_id) =
              rw same at (k.asked id' e' at') in
            rw nodes (
              set_at-All (λ j a. AskedBy e.request (c.nodes j) → AskedBy e.request a) c.nodes i rf
                (λ (first, low, last). (first, rw term low, λ now. absurd (ground arith)))
                (λ j w. w) e.request.candidate_id was);
        polled = rw nodes (
            set_at-All (λ v a. Polled made base' acked cast' v a) c.nodes i rf
              (λ now. absurd (ground arith))
              (λ v now open' p voted.
                Voter-Grown g p (c.nodes v).current_term _ _
                  (λ w. past p (c.nodes v).current_term w)
                  (k.polled v now (ground arith) p
                    (same_cast.1 p (c.nodes v).current_term v voted))));
        cast_term = λ p u v voted.
            let later : (c.nodes v).current_term ≤ (set_at c.nodes i rf v).current_term =
              set_at-All (λ j a. (c.nodes j).current_term ≤ a.current_term) c.nodes i rf
                (omega arith) (λ j. omega arith) v in
            let low = k.cast_term p u v (same_cast.1 p u v voted) in rw nodes (omega arith);
        sent_on = λ j q at.
            let (bt, bi, is, on) = k.sent_on j q at in (bt, bi, g.base_grows q.term bt bi is, on);
      }

module _ {Cmd : Type 0} ⦃codec : RaftCodec Cmd⦄ {size : ℕ} {made : Made Cmd} {cast : Cast}
    {base : Base} {acked : Acked} {c : Cluster Cmd} {sent : List (AppendEntriesRequest Cmd)} where
  -- An answer that reaches a candidate.
  pub answer-GroupKeeps :
      (k : GroupKeeps size made cast base acked c sent)
      (past : (p t v : ℕ) → cast p t ≡ some v → t ≤ (c.nodes p).current_term) (cast' : Cast)
      (id p votes : ℕ) (e : Election) (rf : Raft Cmd) (r : RequestVoteResponse)
      → c.elections id ≡ some e
      → handle_vote_response (c.nodes e.request.candidate_id) e.granted_votes e.request r
        ≡ some (rf, votes)
      → SameCast cast cast'
      → (is_state rf.state leader ≡ true
          → size / 2 < count size (supports cast' e.request.candidate_id rf.current_term))
      → (base' : Base) × ((u bt bi : ℕ) → base u ≡ some (bt, bi) → base' u ≡ some (bt, bi))
        × GroupKeeps size made cast' base' acked
            (record {
              nodes = set_at c.nodes e.request.candidate_id rf;
              elections =
                  set_at c.elections id
                    (some (record e { granted_votes = votes; asking = set_at e.asking p ended }));
            })
            sent
  answer-GroupKeeps k past cast' id p votes e rf r at done same most =
      let i = e.request.candidate_id in
      elim (handle_vote_response-outcome (c.nodes i) e.granted_votes e.request r done) [
        | inl settles ↦ (
          base,
          λ u bt bi is. is,
          Still-GroupKeeps k cast' _ i rf refl past same.0 (λ q t v voted. inl (same.1 q t v voted))
              (Settles-Still (c.nodes i) rf settles) (set_at-request c.elections id e _ at refl),
        )
        | inr (logs, term, stood, leads, of_term) ↦
            let (pos, low, last) = k.asked id e at in
            let many : size / 2 < count size (supports cast' i (c.nodes i).current_term) =
              rw term at (most (rw leads refl)) in
            (
              _,
              λ u bt bi is. ground (arith, open_term k past cast' same i stood many),
              win-GroupKeeps k past cast' same i stood many rf _ (omega arith) refl logs term leads
                  (set_at-request c.elections id e _ at refl),
            )
      ]

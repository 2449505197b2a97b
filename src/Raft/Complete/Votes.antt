-- ===== src/Raft/Complete/Votes.antt =====
-- The steps of an election but for the one that wins it.
use raft_side.Prelude.{
  ℕ, ◌≤◌, ◌<◌, ◌≡◌, inl, inr, refl, sym, ap, arith, Option, none, some, Bool-cases, ◌==◌, true,
  List,
}
use raft_side.Raft.Types.{AppendEntriesRequest, RequestVoteRequest, RequestVoteResponse, Raft}
use raft_side.Raft.Persist.{RaftCodec}
use raft_side.Raft.Shape.{IsLog, last_term, last_index, get_last_log-index, get_last_log-last_term}
use raft_side.Raft.Vote.{request_vote, gen_request_vote_request}
use raft_side.Raft.Server.{on_election_timeout}
use raft_side.Raft.Cluster.{asked, answered, ask_others, Election, Cluster, set_at, begin, ask}
use raft_side.Raft.Cluster.Inv.{Cast, set_at-All}
use raft_side.Raft.Cluster.Safety.{CastBy}
use raft_side.Raft.Matching.{Made}
use raft_side.Raft.Complete.History.{Base, Acked, Covers}
use raft_side.Raft.Complete.Grows.{Voter-Grown}
use raft_side.Raft.Complete.Inv.{NodeKeeps, NodeKeeps-Grown, SameLast}
use raft_side.Raft.Complete.Group.{
  HasWon, Polled, votes-Grown, votes-IsHistory, majority-Grows, GroupKeeps, Still-GroupKeeps,
  NewVote, AskedBy,
}
use raft_side.Raft.Complete.Settles.{
  Settles-Still, request_vote-Settles, request_vote-IsUpToDate, on_election_timeout-stands,
}

-- An election that moves on has its request.
pub set_at-request :
    (elections : ℕ → Option Election) (id : ℕ) (e after : Election)
    → elections id ≡ some e
    → after.request ≡ e.request
    → (j : ℕ) (f : Election) → set_at elections id (some after) j ≡ some f
    → (j' : ℕ) × (f' : Election) × (elections j' ≡ some f') × (f'.request ≡ f.request)
set_at-request elections id e after at same =
    set_at-All
      (λ j o.
        (f : Election)
        → o ≡ some f
        → (j' : ℕ) × (f' : Election) × (elections j' ≡ some f') × (f'.request ≡ f.request))
      elections id (some after) (λ f is. (id, e, at, ground arith)) (λ j f is. (j, f, is, refl))

module _ {Cmd : Type 0} where
  -- What a node covers when its term has no leader yet.
  pub NodeKeeps-Covers :
      (made : Made Cmd) (base : Base) (acked : Acked) (p later : ℕ) (rf : Raft Cmd)
      → NodeKeeps made base acked p rf
      → rf.current_term ≤ later
      → base later ≡ none
      → Covers made base acked p later (last_term rf.logs) (last_index rf.logs)
  NodeKeeps-Covers made base acked p later rf k low open_ t j below is =
      let (old, held) = k.kept t j is in
      elim held [
        | inl on ↦ inl on
        | inr (u, bt, bi, above_t, below_u, is_u, misses) ↦ elim (Bool-cases (u == later)) [
          | inl same ↦ let e : u ≡ later = ground arith in absurd (ground arith)
          | inr other ↦ inr (u, bt, bi, above_t, ground arith, is_u, misses)
        ]
      ]

  -- A vote request has the last entry of the node's log.
  gen_request_vote_request-last :
      (rf : Raft Cmd) {request : RequestVoteRequest}
      → gen_request_vote_request rf ≡ some request
      → IsLog rf.logs
      → (last_term rf.logs ≡ request.last_log_term)
        × (last_index rf.logs ≡ request.last_log_index)
        × (request.term ≡ rf.current_term)
        × (request.candidate_id ≡ rf.me)
  unfolding gen_request_vote_request
  gen_request_vote_request-last rf e l =
      let (last, is_last, at_last) = get_last_log-index rf.logs l in
      let term = get_last_log-last_term rf.logs last is_last in ground arith

  module _ ⦃codec : RaftCodec Cmd⦄ {size : ℕ} {made : Made Cmd} {cast : Cast} {base : Base}
      {acked : Acked} {c : Cluster Cmd} {sent : List (AppendEntriesRequest Cmd)}
      (k : GroupKeeps size made cast base acked c sent)
      (past : (p t v : ℕ) → cast p t ≡ some v → t ≤ (c.nodes p).current_term)
      (shaped : (i : ℕ) → IsLog (c.nodes i).logs) (cast' : Cast) where
    ask-NewVote :
        (id p : ℕ) (e : Election) (rf : Raft Cmd) (r : RequestVoteResponse)
        → c.elections id ≡ some e
        → request_vote (c.nodes p) e.request ≡ some (rf, r)
        → r.vote_granted ≡ true
        → cast' p e.request.term ≡ some e.request.candidate_id
        → NewVote made base acked cast' p e.request.term e.request.candidate_id
            (c.nodes e.request.candidate_id)
    ask-NewVote id p e rf r at done gave voted =
        let (pos, low, last) = k.asked id e at in
        let (newest, old) = request_vote-IsUpToDate (c.nodes p) e.request done gave (shaped p) in
        let node = c.nodes p in
        (
          low,
          λ stands open_ same.
              let (same_t, same_i) = last stands same in
              (
                e.request.candidate_id,
                last_term node.logs,
                last_index node.logs,
                voted,
                rw (same_t, same_i) newest,
                (k.nodes_keep p).entry.0,
                NodeKeeps-Covers made base acked p e.request.term node (k.nodes_keep p) old
                    (rw same open_),
              ),
        )

    pub ask-GroupKeeps :
        (id p : ℕ) (e : Election) (rf : Raft Cmd) (r : RequestVoteResponse)
        (at : c.elections id ≡ some e) (waits : e.asking p ≡ asked)
        (done : request_vote (c.nodes p) e.request ≡ some (rf, r))
        → CastBy size {c = c} (ask id p e rf r at waits done) cast cast'
        → GroupKeeps size made cast' base acked
            (record {
              nodes = set_at c.nodes p rf;
              elections =
                  set_at c.elections id
                    (some (record e { asking = set_at e.asking p (answered r) }));
            })
            sent
    ask-GroupKeeps id p e rf r at waits done (grows, by) =
        Still-GroupKeeps k cast' _ p rf refl past grows
          (λ q t v voted. elim (by q t v voted) [
            | inl old ↦ inl old
            | inr (gave, is_p, is_t, is_v) ↦ inr (
                rw (is_p, is_t, is_v)
                  (ask-NewVote id p e rf r at done gave (rw (is_p, is_t, is_v) at voted)))
          ])
          (Settles-Still (c.nodes p) rf (request_vote-Settles (c.nodes p) e.request done))
          (set_at-request c.elections id e _ at refl)

    -- A node that begins to stand: it is of a new term, in which only it has its own vote.
    pub begin-GroupKeeps :
        (i id votes : ℕ) (rf : Raft Cmd) (request : RequestVoteRequest) (low : i < size)
        (new : c.elections id ≡ none) (began : on_election_timeout (c.nodes i) ≡ some (rf, votes))
        (asks : gen_request_vote_request rf ≡ some request)
        → rf.me ≡ i
        → CastBy size {c = c} (begin i id votes rf request low new began asks) cast cast'
        → GroupKeeps size made cast' base acked
            (record {
              nodes = set_at c.nodes i rf;
              elections = set_at c.elections id (
                  some (record {
                    request = request;
                    granted_votes = votes;
                    asking = ask_others rf.peers rf.me;
                  }));
            })
            sent
    begin-GroupKeeps i id votes rf request low new began asks me (grows, by) =
        let node = c.nodes i in
        let (logs, term, no_leader) = on_election_timeout-stands node began in
        let (last_t, last_i, r_term, r_id) =
          gen_request_vote_request-last rf asks (rw logs (shaped i)) in
        let same : SameLast node rf = (ap last_term logs, ap last_index logs) in
        let g = votes-Grown made base acked cast cast' (λ p. (c.nodes p).current_term) grows in
        record {
          history =
              votes-IsHistory size made base acked cast cast' (λ p. (c.nodes p).current_term) grows
                k.history past;
          nodes_keep =
              set_at-All (λ j a. NodeKeeps made base acked j a) c.nodes i rf
                (NodeKeeps-Grown g i node rf (k.nodes_keep i) same (omega arith) (λ t j. refl)
                  (λ l. absurd (ground arith)))
                k.nodes_keep;
          winner = λ u bt bi is.
              let (m, most, won) = k.winner u bt bi is in
              (
                m,
                majority-Grows size m u cast cast' grows most,
                set_at-All (λ j a. HasWon u (c.nodes j) → HasWon u a) c.nodes i rf
                    (λ w. ground arith) (λ j w. w) m won,
              );
          asked = λ j e at.
              set_at-All
                (λ l o.
                  (f : Election)
                  → o ≡ some f
                  → AskedBy f.request (set_at c.nodes i rf f.request.candidate_id))
                c.elections id _
                (λ f is.
                  let e : request ≡ f.request = ground arith in
                  let self : set_at c.nodes i rf request.candidate_id ≡ rf = ground arith in
                  rw (← e)
                    (rw self (omega arith, omega arith, λ stands same_term. (last_t, last_i))))
                (λ l f is.
                  set_at-All (λ m a. AskedBy f.request (c.nodes m) → AskedBy f.request a) c.nodes i
                    rf
                    (λ (pos, old, last).
                      (pos, omega arith, λ stands same_term. absurd (omega arith)))
                    (λ m w. w) f.request.candidate_id (k.asked l f is))
                j e at;
          polled =
              set_at-All (λ v a. Polled made base acked cast' v a) c.nodes i rf
                (λ stands open_ p voted. elim (by p rf.current_term i voted) [
                  | inl old ↦ absurd (omega (arith, k.cast_term p rf.current_term i old))
                  | inr (is_p, is_t, is_v) ↦
                      let (same_t, same_i) = same in
                      rw is_p (
                        i,
                        last_term node.logs,
                        last_index node.logs,
                        rw is_p at voted,
                        inr (sym same_t, omega (arith, same_i)),
                        (k.nodes_keep i).entry.0,
                        NodeKeeps-Covers made base acked i rf.current_term node (k.nodes_keep i)
                            (omega arith) open_,
                      )
                ])
                (λ v stands open_ p voted. elim (by p (c.nodes v).current_term v voted) [
                  | inl old ↦
                      Voter-Grown g p (c.nodes v).current_term _ _
                        (λ w. past p (c.nodes v).current_term w) (k.polled v stands open_ p old)
                  | inr (is_p, is_t, is_v) ↦
                      absurd (omega (arith, ap (λ m. (c.nodes m).current_term) is_v))
                ]);
          cast_term = λ p t v voted.
              let later : (c.nodes v).current_term ≤ (set_at c.nodes i rf v).current_term =
                set_at-All (λ j a. (c.nodes j).current_term ≤ a.current_term) c.nodes i rf
                  (omega arith) (λ j. omega arith) v in
              elim (by p t v voted) [
                | inl old ↦ omega (arith, k.cast_term p t v old)
                | inr (is_p, is_t, is_v) ↦ ground arith
              ];
          sent_on = k.sent_on;
        }

-- ===== src/Raft/Cluster/Tally.antt =====
-- What a new election, a request and an answer do to an election's count of votes.
use raft_side.Prelude.{ℕ, ◌+◌, ◌<◌, ◌≡◌, ◌≢◌, ◌⊎◌, inl, inr, refl, arith, true, false}
use raft_side.Raft.Types.{RequestVoteRequest, RequestVoteResponse}
use raft_side.Raft.Cluster.{idle, asked, answered, ended, Election, set_at, ask_others}
use raft_side.Raft.Cluster.Count.{count_mono, count_more}
use raft_side.Raft.Cluster.Inv.{set_at-All, Cast, supports, counts, HasCounted}

-- A new election has one vote, its candidate's.
pub HasCounted-begin :
    (size peers me : ℕ) (cast : Cast) (request : RequestVoteRequest)
    → me < size
    → peers ≡ size
    → supports cast request.candidate_id request.term me ≡ true
    → HasCounted size cast
        (record { request = request; granted_votes = 1; asking = ask_others peers me })
HasCounted-begin size peers me cast request low same voted =
    let e : Election = record {
      request = request;
      granted_votes = 1;
      asking = ask_others peers me;
    } in
    record {
      counted =
          let one =
            count_more size me (λ _. false) (counts cast e) (λ q h. absurd (ground arith)) low refl
              (ground arith) in
          omega (arith, one);
      granted = λ p r a y. absurd (ground arith);
      within = λ p h. ground arith;
    }

pub HasCounted-ask :
    (size p : ℕ) (cast : Cast) (e : Election) (r : RequestVoteResponse)
    → HasCounted size cast e
    → e.asking p ≡ asked
    → (r.vote_granted ≡ true → supports cast e.request.candidate_id e.request.term p ≡ true)
    → HasCounted size cast (record e { asking = set_at e.asking p (answered r) })
HasCounted-ask size p cast e r h waits voted = record {
  counted =
      let e' = record e { asking = set_at e.asking p (answered r) } in
      let more = count_mono size (counts cast e) (counts cast e') (λ q c. ground arith) in
      omega (arith, h.counted, more);
  granted =
      set_at-All
        (λ q a.
          (s : RequestVoteResponse)
          → a ≡ answered s
          → s.vote_granted ≡ true
          → supports cast e.request.candidate_id e.request.term q ≡ true)
        e.asking p (answered r) (λ s a y. voted (ground arith)) h.granted;
  within =
      set_at-All (λ q a. a ≢ idle → q < size) e.asking p (answered r)
        (λ busy. h.within p (λ is. ground arith)) h.within;
}

pub HasCounted-answer :
    (size p votes : ℕ) (cast : Cast) (e : Election) (r : RequestVoteResponse)
    → HasCounted size cast e
    → e.asking p ≡ answered r
    → (votes ≡ e.granted_votes) ⊎ (r.vote_granted ≡ true) × (votes ≡ e.granted_votes + 1)
    → HasCounted size cast (record e { granted_votes = votes; asking = set_at e.asking p ended })
HasCounted-answer size p votes cast e r h waits v =
    let e' : Election = record e { granted_votes = votes; asking = set_at e.asking p ended } in
    let low = h.within p (λ is. ground arith) in
    let keep : (q : ℕ) → counts cast e q ≡ true → counts cast e' q ≡ true = λ q c. ground arith in
    record {
      counted = elim v [
        | inl same ↦ omega (arith, h.counted, count_mono size (counts cast e) (counts cast e') keep)
        | inr (yes_vote, more) ↦
            let voted = h.granted p r waits yes_vote in
            let one =
              count_more size p (counts cast e) (counts cast e') keep low (ground arith)
                (ground arith) in
            omega (arith, h.counted, one)
      ];
      granted =
          set_at-All
            (λ q a.
              (s : RequestVoteResponse)
              → a ≡ answered s
              → s.vote_granted ≡ true
              → supports cast e.request.candidate_id e.request.term q ≡ true)
            e.asking p ended (λ s a y. absurd (ground arith)) h.granted;
      within = set_at-All (λ q a. a ≢ idle → q < size) e.asking p ended (λ busy. low) h.within;
    }

-- ===== src/Raft/Cluster/Inv.antt =====
-- What a group of nodes keeps: who voted for whom in each term, and how many of those votes each
-- election has counted.
use raft_side.Prelude.{
  ℕ, ◌/◌, ◌≤◌, ◌<◌, ◌≡◌, ◌≢◌, ◌⊎◌, inl, inr, arith, Bool, true, false, ◌&&◌, Option, none, some,
  ◌==◌, if◌then◌else◌, Bool-cases, Option-cases,
}
use raft_side.Raft.Types.{Raft, leader, is_state, RequestVoteResponse}
use raft_side.Raft.Persist.{RaftCodec}
use raft_side.Raft.Votes.{KeepsVote, OnDisk}
use raft_side.Raft.Cluster.{Asking, idle, answered, ended, Election, set_at}
use raft_side.Raft.Cluster.Count.{count, count_mono}

-- The votes cast: by each node, in each term.
abbrev pub Cast : Type 0
Cast = ℕ → ℕ → Option ℕ

abbrev pub is_for : ℕ → Option ℕ → Bool
is_for candidate none = false
is_for candidate (some v) = v == candidate

abbrev pub supports : Cast → (candidate term p : ℕ) → Bool
supports cast candidate term p = is_for candidate (cast p term)

-- A leader has the votes of more than half in its term.
abbrev pub Leads : {Cmd : Type 0} → (size : ℕ) → Cast → ℕ → Raft Cmd → Type 0
Leads size cast i rf =
    is_state rf.state leader ≡ true → size / 2 < count size (supports cast i rf.current_term)

abbrev pub has_ended : Asking → Bool
has_ended ended = true
has_ended _ = false

abbrev pub counts : Cast → Election → ℕ → Bool
counts cast e p = has_ended (e.asking p) && supports cast e.request.candidate_id e.request.term p

-- Every vote that a node cast in its term it holds to, and it cast none in a later one.
pub record HasVoted {Cmd : Type 0} ⦃codec : RaftCodec Cmd⦄ (size : ℕ) (nodes : ℕ → Raft Cmd)
    (cast : Cast) : Type 0 where
  pub named : (i : ℕ) → (nodes i).me ≡ i
  pub sized : (i : ℕ) → (nodes i).peers ≡ size
  pub disk : (i : ℕ) → OnDisk (nodes i)
  pub held :
      (p t v : ℕ)
      → cast p t ≡ some v
      → (t < (nodes p).current_term) ⊎ (t ≡ (nodes p).current_term) × ((nodes p).voted_for ≡ some v)
  pub led : (i : ℕ) → Leads size cast i (nodes i)

-- An election's counter counts votes that were cast, of peers whose goroutine has ended; an answer
-- that grants a vote is true.
pub record HasCounted (size : ℕ) (cast : Cast) (e : Election) : Type 0 where
  pub counted : e.granted_votes ≤ count size (counts cast e)
  pub granted :
      (p : ℕ) (r : RequestVoteResponse)
      → e.asking p ≡ answered r
      → r.vote_granted ≡ true
      → supports cast e.request.candidate_id e.request.term p ≡ true
  pub within : (p : ℕ) → e.asking p ≢ idle → p < size

abbrev pub AllCounted : (size : ℕ) → Cast → (ℕ → Option Election) → Type 0
AllCounted size cast elections =
    (id : ℕ) (e : Election) → elections id ≡ some e → HasCounted size cast e

-- No vote is taken back.
abbrev pub Grows : Cast → Cast → Type 0
Grows cast cast' = (p t v : ℕ) → cast p t ≡ some v → cast' p t ≡ some v

some_eq : {A : Type 0} (a b : A) → some a ≡ some b → a ≡ b
some_eq a b e = cc

pub set_at-All :
    {A : Type 0} (P : ℕ → A → Type 0) (f : ℕ → A) (p : ℕ) (a : A)
    → P p a
    → ((i : ℕ) → P i (f i))
    → (i : ℕ) → P i (set_at f p a i)
set_at-All P f p a here rest i = elim (Bool-cases (p == i)) [
  | inl same ↦ let e : p ≡ i = ground arith in rw same (rw e at here)
  | inr other ↦ rw other (rest i)
]

pub supports-Grows :
    (cast cast' : Cast)
    → Grows cast cast'
    → (candidate term p : ℕ) → supports cast candidate term p ≡ true
    → supports cast' candidate term p ≡ true
supports-Grows cast cast' g candidate term p h = elim (Option-cases (cast p term)) [
  | inl new ↦ absurd (ground arith)
  | inr (v, voted) ↦ ground (arith, g p term v voted)
]

pub HasCounted-Grows :
    (size : ℕ) (cast cast' : Cast) (e : Election)
    → Grows cast cast'
    → HasCounted size cast e
    → HasCounted size cast' e
HasCounted-Grows size cast cast' e g h = record {
  counted =
      let more : (p : ℕ) → counts cast e p ≡ true → counts cast' e p ≡ true = λ p c.
        ground (arith, supports-Grows cast cast' g e.request.candidate_id e.request.term p) in
      omega (arith, h.counted, count_mono size (counts cast e) (counts cast' e) more);
  granted = λ p r a y.
      supports-Grows cast cast' g e.request.candidate_id e.request.term p (h.granted p r a y);
  within = h.within;
}

-- One election begins or moves on, and votes are only added.
pub AllCounted-set_at :
    (size : ℕ) (cast cast' : Cast) (elections : ℕ → Option Election) (id : ℕ) (e : Election)
    → Grows cast cast'
    → AllCounted size cast elections
    → HasCounted size cast' e
    → AllCounted size cast' (set_at elections id (some e))
AllCounted-set_at size cast cast' elections id e g h new =
    set_at-All (λ j o. (f : Election) → o ≡ some f → HasCounted size cast' f) elections id (some e)
      (λ f same. rw (some_eq e f same) at new)
      (λ j f at. HasCounted-Grows size cast cast' f g (h j f at))

abbrev pub cast_vote : (p t v : ℕ) → Cast → Cast
cast_vote p t v cast q u = if p == q && t == u then some v else cast q u

module _ {Cmd : Type 0} ⦃codec : RaftCodec Cmd⦄ (size : ℕ) where
  -- A node moves on, and keeps its votes.
  pub HasVoted-set_at :
      (nodes : ℕ → Raft Cmd) (cast : Cast) (p : ℕ) (rf : Raft Cmd)
      → HasVoted size nodes cast
      → rf.peers ≡ (nodes p).peers
      → rf.me ≡ (nodes p).me
      → KeepsVote (nodes p) rf
      → OnDisk rf
      → Leads size cast p rf
      → HasVoted size (set_at nodes p rf) cast
  HasVoted-set_at nodes cast p rf h peers me keeps disk leads = record {
    named = λ i. ground (arith, h.named i);
    sized = λ i. ground (arith, h.sized i);
    disk = set_at-All (λ i node. OnDisk node) nodes p rf disk h.disk;
    held = λ q t v c. ground (arith, h.held q t v c);
    led = set_at-All (λ i node. Leads size cast i node) nodes p rf leads h.led;
  }

  -- The vote that a node holds is one that it cast.
  pub HasVoted-cast_vote :
      (nodes : ℕ → Raft Cmd) (cast : Cast) (p t v : ℕ)
      → HasVoted size nodes cast
      → (nodes p).current_term ≡ t
      → (nodes p).voted_for ≡ some v
      → HasVoted size nodes (cast_vote p t v cast) × Grows cast (cast_vote p t v cast)
  HasVoted-cast_vote nodes cast p t v h term voted =
      let grows : Grows cast (cast_vote p t v cast) = λ q u w c. ground (arith, h.held q u w c) in
      (
        record {
          named = h.named;
          sized = h.sized;
          disk = h.disk;
          held = λ q u w c. ground (arith, h.held q u w);
          led = λ i l.
              let cast' = cast_vote p t v cast in
              let more =
                count_mono size (supports cast i ((nodes i).current_term))
                  (supports cast' i ((nodes i).current_term))
                  (supports-Grows cast cast' grows i ((nodes i).current_term)) in
              omega (arith, h.led i l, more);
        },
        grows,
      )

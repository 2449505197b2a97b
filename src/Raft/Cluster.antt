-- ===== src/Raft/Cluster.antt =====
-- A group of nodes with its elections: raft/raft_election.go's goroutines, one for each peer that is
-- asked, and the network between them. A message is delivered at any time, in any order, or never.
pub mod Count
pub mod Quiet
pub mod Inv
pub mod Tally
pub mod Safety
use raft_side.Prelude.{ℕ, ◌<◌, ◌≡◌, Bool, true, false, Option, none, some, ◌==◌, if◌then◌else◌, ltb}
use raft_side.Raft.Types.{RequestVoteRequest, RequestVoteResponse, Raft}
use raft_side.Raft.Persist.{RaftCodec}
use raft_side.Raft.Vote.{gen_request_vote_request, request_vote, handle_vote_response}
use raft_side.Raft.Server.{on_election_timeout}
use raft_side.Raft.Node.{Event, election_timeout, vote_request, vote_response, step}

-- How far the goroutine for a peer has come: there is none; the request is under way; the answer
-- is; it has ended.
pub data Asking : Type 0 where
  idle : Asking
  asked : Asking
  answered : RequestVoteResponse → Asking
  ended : Asking

-- What the goroutines of one call of `StartElection` share.
pub record Election : Type 0 where
  pub request : RequestVoteRequest
  pub granted_votes : ℕ
  pub asking : ℕ → Asking

pub record Cluster (Cmd : Type 0) : Type 0 where
  pub nodes : ℕ → Raft Cmd
  pub elections : ℕ → Option Election

abbrev pub set_at : {A : Type 0} → (ℕ → A) → ℕ → A → ℕ → A
set_at f i a j = if i == j then a else f j

-- `for peer := range rf.peers { if peer == rf.me { continue }; go … }`; the node's own vote counts
-- from the start.
abbrev pub ask_others : (peers me : ℕ) → ℕ → Asking
ask_others peers me p = if p == me then ended else (if ltb p peers then asked else idle)

-- The events that have to do with votes are steps of their own.
abbrev pub is_voting : {Cmd : Type 0} → Event Cmd → Bool
is_voting election_timeout = true
is_voting (vote_request request) = true
is_voting (vote_response n request response) = true
is_voting _ = false

module _ {Cmd : Type 0} ⦃codec : RaftCodec Cmd⦄ where
  pub data Step (size : ℕ) (c : Cluster Cmd) : Cluster Cmd → Type 0 where
    -- A node's election timer fires. The request is the one that `StartElection` made: what it
    -- depends on is as it was.
    begin :
        (i id votes : ℕ) (rf : Raft Cmd) (request : RequestVoteRequest)
        → i < size
        → c.elections id ≡ none
        → on_election_timeout (c.nodes i) ≡ some (rf, votes)
        → gen_request_vote_request rf ≡ some request
        → Step size c (record {
          nodes = set_at c.nodes i rf;
          elections = set_at c.elections id (
              some (record {
                request = request;
                granted_votes = votes;
                asking = ask_others rf.peers rf.me;
              }));
        })
    -- A request reaches its peer.
    ask :
        (id p : ℕ) (e : Election) (rf : Raft Cmd) (r : RequestVoteResponse)
        → c.elections id ≡ some e
        → e.asking p ≡ asked
        → request_vote (c.nodes p) e.request ≡ some (rf, r)
        → Step size c (record {
          nodes = set_at c.nodes p rf;
          elections =
              set_at c.elections id (some (record e { asking = set_at e.asking p (answered r) }));
        })
    -- An answer reaches the candidate.
    answer :
        (id p votes : ℕ) (e : Election) (rf : Raft Cmd) (r : RequestVoteResponse)
        → c.elections id ≡ some e
        → e.asking p ≡ answered r
        → handle_vote_response (c.nodes e.request.candidate_id) e.granted_votes e.request r
          ≡ some (rf, votes)
        → Step size c (record {
          nodes = set_at c.nodes e.request.candidate_id rf;
          elections =
              set_at c.elections id
                (some (record e { granted_votes = votes; asking = set_at e.asking p ended }));
        })
    -- Any other event of a node, whatever a message says: a request for entries or a snapshot, an
    -- answer to one, a call of the client, a crash with its restart.
    react :
        (i : ℕ) (event : Event Cmd) (rf : Raft Cmd)
        → is_voting event ≡ false
        → step (c.nodes i) event ≡ some rf
        → Step size c (record c { nodes = set_at c.nodes i rf })

  pub data Reach (size : ℕ) (c : Cluster Cmd) : Cluster Cmd → Type 0 where
    here : Reach size c c
    next : {d e : Cluster Cmd} → Reach size c d → Step size d e → Reach size c e

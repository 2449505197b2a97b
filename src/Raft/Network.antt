-- ===== src/Raft/Network.antt =====
-- A group of nodes with the requests for entries between them: the goroutines of
-- raft/raft_replication.go send them, and the network may deliver each of them at any time, in any
-- order, many times or never. Votes go as raft_side.Raft.Cluster has them.
use raft_side.Prelude.{
  none, some, ◌+◌, ◌&&◌, ◌||◌, ◌==◌, leb, length, ℕ, ◌-◌, ◌≡◌, Bool, true, false, some, List, [],
  ◌∷◌, get_elem?, Option,
}
use raft_side.Raft.Types.{
  Entry, AppendEntriesRequest, AppendEntriesResponse, leader, is_state, Raft,
}
use raft_side.Raft.Persist.{RaftCodec}
use raft_side.Raft.Shape.{first_index, last_index, term_at}
use raft_side.Raft.Votes.{zero_entry}
use raft_side.Raft.Append.{append_entries}
use raft_side.Raft.Replicate.{entries_request, replicate_one_round}
use raft_side.Raft.Node.{Event, append_request, client_command, client_install, step}
use raft_side.Raft.Cluster.{Cluster, Step, begin, ask, answer, react, set_at, is_voting}
use raft_side.Raft.Cluster.Safety.{IsStart}

pub record Network (Cmd : Type 0) : Type 0 where
  pub cluster : Cluster Cmd
  pub sent : List (AppendEntriesRequest Cmd)

-- The snapshot's term is that of the log's entry at its index, where the log has one.
abbrev pub Fits : {Cmd : Type 0} → (term index : ℕ) → List (Entry Cmd) → Type 0
Fits term index logs = (t : ℕ) → term_at logs (index - first_index logs) ≡ some t → t ≡ term

-- A request for entries is one that was sent. `CondInstallSnapshot` does not look at the term of the
-- entry at the snapshot's index: the steps are those where it is the snapshot's.
abbrev pub Allowed :
    {Cmd : Type 0} → List (AppendEntriesRequest Cmd) → Raft Cmd → Event Cmd → Type 0
Allowed sent rf (append_request request) = (k : ℕ) × (get_elem? sent k ≡ some request)
Allowed sent rf (client_install term index snapshot) = Fits term index rf.logs
Allowed sent rf _ = Unit

abbrev pub is_install : {Cmd : Type 0} → Event Cmd → Bool
is_install (client_install term index snapshot) = true
is_install _ = false

abbrev pub succeeds : {Cmd : Type 0} → Option (Raft Cmd × AppendEntriesResponse) → Bool
succeeds none = false
succeeds (some (rf, response)) = response.success

module _ {Cmd : Type 0} ⦃codec : RaftCodec Cmd⦄ where
  -- A step of an election.
  abbrev pub is_election : {size : ℕ} {c d : Cluster Cmd} → Step size c d → Bool
  is_election (begin i id votes rf request low new began asks) = true
  is_election (ask id p e rf r at waits done) = true
  is_election (answer id p votes e rf r at waits done) = true
  is_election (react i event rf not_vote done) = false

  pub data NetworkStep (size : ℕ) (n : Network Cmd) : Network Cmd → Type 0 where
    elect :
        (d : Cluster Cmd) (st : Step size n.cluster d)
        → is_election st ≡ true
        → NetworkStep size n (record n { cluster = d })
    -- A round of a leader for a peer sends a request.
    send :
        (i peer : ℕ) (request : AppendEntriesRequest Cmd)
        → replicate_one_round (n.cluster.nodes i) peer ≡ some (some (entries_request request))
        → NetworkStep size n (record n { sent = request ∷ n.sent })
    -- Any other event of a node.
    act :
        (i : ℕ) (event : Event Cmd) (rf : Raft Cmd)
        → is_voting event ≡ false
        → Allowed n.sent (n.cluster.nodes i) event
        → step (n.cluster.nodes i) event ≡ some rf
        → NetworkStep size n
            (record n { cluster = record n.cluster { nodes = set_at n.cluster.nodes i rf } })

  pub data NetworkReach (size : ℕ) (n : Network Cmd) : Network Cmd → Type 0 where
    here : NetworkReach size n n
    next :
        {m k : Network Cmd} → NetworkReach size n m → NetworkStep size m k → NetworkReach size n k

  -- The run calls `CondInstallSnapshot`.
  abbrev pub installs : {size : ℕ} {n m : Network Cmd} → NetworkReach size n m → Bool
  installs here = false
  installs (next r (elect d st e)) = installs r
  installs (next r (send i peer request sends)) = installs r
  installs (next r (act i event rf not_vote allowed done)) = installs r || is_install event

  -- A step by which node `p` has the log of the leader of term `t` up to index `j` at least: it takes
  -- in a request of that term that reaches so far, or is the leader and appends an entry there.
  abbrev pub stores : Raft Cmd → Event Cmd → (t j : ℕ) → Bool
  stores rf (append_request request) t j =
      request.term == t
      && (leb j (request.prev_log_index + length request.entries)
          && succeeds (append_entries rf request))
  stores rf (client_command command) t j =
      is_state rf.state leader && (rf.current_term == t && leb j (last_index rf.logs + 1))
  stores rf _ t j = false

  -- Some step of the run was such a step.
  abbrev pub has_stored :
      {size : ℕ} {n m : Network Cmd} → NetworkReach size n m → (p t j : ℕ) → Bool
  has_stored here p t j = false
  has_stored (next r (elect d st e)) p t j = has_stored r p t j
  has_stored (next r (send i peer request sends)) p t j = has_stored r p t j
  has_stored (next {m} r (act i event rf not_vote allowed done)) p t j =
      has_stored r p t j || (i == p && stores (m.cluster.nodes i) event t j)

  -- New nodes, and nothing sent.
  pub record IsNew (size : ℕ) (n : Network Cmd) : Type 0 where
    pub start : IsStart size n.cluster
    pub logs : (i : ℕ) → (n.cluster.nodes i).logs ≡ zero_entry ∷ []
    pub nothing_sent : n.sent ≡ []

-- ===== src/Tests/NetworkRuns.antt =====
-- The group of three nodes: node 0, elected, takes a command and sends it to node 1.
use raft_side.Prelude.{ℕ, ◌≡◌, ◌<◌, true, false, refl, arith, some, none, [], ◌∷◌, pos}
use raft_side.Raft.Types.{
  Entry, Raft, candidate, leader, ask_vote, replicate_round, RequestVoteRequest,
  RequestVoteResponse, AppendEntriesRequest, wake_replicator,
}
use raft_side.Raft.Persist.{save_raft_state, encode_state, persist, clone}
use raft_side.Raft.Log.{
  change_state, is_log_up_to_date, get_last_log, get_first_log, match_log, has_term_at,
}
use raft_side.Raft.Vote.{
  request_vote, handle_vote_response, gen_request_vote_request, start_election, tasks_for_others,
  broadcast_heartbeat,
}
use raft_side.Raft.Append.{
  min_int, differs_at, merge_entries, advance_commit_index_for_follower, follow, accept_entries,
  compare_logs, append_entries,
}
use raft_side.Raft.Replicate.{gen_append_entries_request, replicate_one_round, append_new_entry}
use raft_side.Raft.Server.{start, on_election_timeout}
use raft_side.Raft.Node.{append_request, client_command, step}
use raft_side.Raft.Cluster.{
  Election, Cluster, set_at, ask_others, answered, ended, begin, ask, answer,
}
use raft_side.Raft.Cluster.Count.{count}
use raft_side.Raft.Network.{
  Network, NetworkReach, here, next, elect, send, act, IsNew, installs, has_stored,
}
use raft_side.Raft.Matching.Agree.{AgreeAt}
use raft_side.Raft.Matching.Safety.{log_matching}
use raft_side.Raft.Complete.Safety.{leader_completeness}
use raft_side.Tests.RaftData.{number_codec, encode_durable}
use raft_side.Tests.ClusterRuns

-- What the runs below compute with.
program : Unit {0}
unfolding request_vote persist change_state is_log_up_to_date get_last_log save_raft_state clone
    encode_state encode_durable handle_vote_response gen_request_vote_request start_election
    tasks_for_others broadcast_heartbeat on_election_timeout get_first_log match_log has_term_at
    min_int differs_at merge_entries advance_commit_index_for_follower follow accept_entries
    compare_logs append_entries gen_append_entries_request replicate_one_round append_new_entry
    start step count
program = tt

abbrev new_network : Network ℕ
new_network = record { cluster = ClusterRuns.start; sent = [] }

new_network-IsNew : IsNew 3 new_network
new_network-IsNew = record {
  start = ClusterRuns.start-IsStart;
  logs = λ i. refl;
  nothing_sent = refl;
}

abbrev entry : Entry ℕ
entry = record { index = 1; term = 1; command = some 7 }

abbrev leading : Raft ℕ
leading = record ClusterRuns.elected {
  logs = record { index = 0; term = 0; command = none } ∷ entry ∷ [];
  match_index = 1 ∷ 0 ∷ 0 ∷ [];
  next_index = pos 2 ∷ pos 1 ∷ pos 1 ∷ [];
  persister = record { raftstate = 1 ∷ 1 ∷ 0 ∷ 0 ∷ 0 ∷ 1 ∷ 1 ∷ 8 ∷ []; snapshot = [] };
  tasks = wake_replicator 2 ∷ wake_replicator 1 ∷ ClusterRuns.elected.tasks;
}

abbrev round : AppendEntriesRequest ℕ
round = record {
  term = 1;
  leader_id = 0;
  prev_log_index = 0;
  prev_log_term = 0;
  leader_commit = 0;
  entries = entry ∷ [];
}

abbrev following : Raft ℕ
following = record ClusterRuns.voter {
  logs = record { index = 0; term = 0; command = none } ∷ entry ∷ [];
  persister = record { raftstate = 1 ∷ 1 ∷ 0 ∷ 0 ∷ 0 ∷ 1 ∷ 1 ∷ 8 ∷ []; snapshot = [] };
}

abbrev replicated : Network ℕ
replicated = record {
  cluster = record ClusterRuns.led_state {
    nodes = set_at (set_at ClusterRuns.led_state.nodes 0 leading) 1 following;
  };
  sent = round ∷ [];
}

elected_reached :
    NetworkReach 3 new_network (record new_network { cluster = ClusterRuns.led_state })
unfolding program
elected_reached =
    next
      (next
        (next here (
          elect ClusterRuns.begun
            (begin 0 0 1 ClusterRuns.standing ClusterRuns.request (omega arith) refl refl refl)
            refl))
        (elect ClusterRuns.asked_state
          (ask 0 1 ClusterRuns.campaign ClusterRuns.voter ClusterRuns.granted refl refl refl) refl))
      (elect ClusterRuns.led_state
        (answer 0 1 2 ClusterRuns.voted ClusterRuns.elected ClusterRuns.granted refl refl refl)
        refl)

replicated_reached : NetworkReach 3 new_network replicated
unfolding program
replicated_reached =
    next
      (next (next elected_reached (act 0 (client_command 7) leading refl tt refl))
        (send 0 1 round refl))
      (act 1 (append_request round) following refl (0, refl) refl)

log_matching_example : AgreeAt 1 (replicated.cluster.nodes 0).logs (replicated.cluster.nodes 1).logs
log_matching_example =
    log_matching 3 new_network replicated new_network-IsNew replicated_reached 0 1 1 1 entry entry
      refl refl refl (omega arith) (omega arith) (omega arith)

-- Then node 1 stands, and node 2 votes for it.
abbrev second : RequestVoteRequest
second = record { term = 2; candidate_id = 1; last_log_index = 1; last_log_term = 1 }

abbrev standing : Raft ℕ
standing = record following {
  state = candidate;
  current_term = 2;
  voted_for = some 1;
  election_timer = true;
  persister = record { raftstate = 2 ∷ 2 ∷ 0 ∷ 0 ∷ 0 ∷ 1 ∷ 1 ∷ 8 ∷ []; snapshot = [] };
  tasks = ask_vote 2 second ∷ ask_vote 0 second ∷ [];
}

abbrev voter : Raft ℕ
voter = record (ClusterRuns.node 2) {
  current_term = 2;
  voted_for = some 1;
  persister = record { raftstate = 2 ∷ 2 ∷ 0 ∷ 0 ∷ 0 ∷ []; snapshot = [] };
}

abbrev granted : RequestVoteResponse
granted = record { term = 2; vote_granted = true }

abbrev elected : Raft ℕ
elected = record standing {
  state = leader;
  match_index = 0 ∷ 0 ∷ 0 ∷ [];
  next_index = pos 2 ∷ pos 2 ∷ pos 2 ∷ [];
  election_timer = false;
  heartbeat_timer = true;
  tasks = replicate_round 2 ∷ replicate_round 0 ∷ ask_vote 2 second ∷ ask_vote 0 second ∷ [];
}

abbrev campaign : Election
campaign = record { request = second; granted_votes = 1; asking = ask_others 3 1 }

abbrev voted : Election
voted = record campaign { asking = set_at campaign.asking 2 (answered granted) }

abbrev begun : Cluster ℕ
begun = record {
  nodes = set_at replicated.cluster.nodes 1 standing;
  elections = set_at replicated.cluster.elections 1 (some campaign);
}

abbrev asked_state : Cluster ℕ
asked_state = record {
  nodes = set_at begun.nodes 2 voter;
  elections = set_at begun.elections 1 (some voted);
}

abbrev led_state : Cluster ℕ
led_state = record {
  nodes = set_at asked_state.nodes 1 elected;
  elections =
      set_at asked_state.elections 1
        (some (record voted { granted_votes = 2; asking = set_at voted.asking 2 ended }));
}

abbrev led_network : Network ℕ
led_network = record { cluster = led_state; sent = round ∷ [] }

-- The run, in which nodes 0 and 1 store the entry.
led_again :
    (r : NetworkReach 3 new_network led_network) × (installs r ≡ false)
    × (1 < count 3 (λ p. has_stored r p 1 1))
unfolding program
led_again = (
  next
      (next
        (next
          (next
            (next
              (next
                (next
                  (next
                    (next here (
                      elect ClusterRuns.begun
                        (begin 0 0 1 ClusterRuns.standing ClusterRuns.request (omega arith) refl
                          refl refl)
                        refl))
                    (elect ClusterRuns.asked_state
                      (ask 0 1 ClusterRuns.campaign ClusterRuns.voter ClusterRuns.granted refl refl
                        refl)
                      refl))
                  (elect ClusterRuns.led_state
                    (answer 0 1 2 ClusterRuns.voted ClusterRuns.elected ClusterRuns.granted refl
                      refl refl)
                    refl))
                (act 0 (client_command 7) leading refl tt refl))
              (send 0 1 round refl))
            (act 1 (append_request round) following refl (0, refl) refl))
          (elect begun (begin 1 1 1 standing second (omega arith) refl refl refl) refl))
        (elect asked_state (ask 1 2 campaign voter granted refl refl refl) refl))
      (elect led_state (answer 1 2 2 voted elected granted refl refl refl) refl),
  refl,
  omega arith,
)

leader_completeness_example : AgreeAt 1 (led_state.nodes 1).logs (led_state.nodes 0).logs
leader_completeness_example =
    leader_completeness 3 new_network led_network led_again.0 new_network-IsNew led_again.1 0 1 1 1
      entry (omega arith) refl led_again.2 refl (omega arith) (omega arith) (omega arith)
      (omega arith)

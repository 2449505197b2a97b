-- ===== src/Tests/ClusterRuns.antt =====
-- A group of three nodes that elects node 0.
use raft_side.Prelude.{ℕ, ◌≡◌, inr, refl, arith, true, false, some, none, [], ◌∷◌, pos}
use raft_side.Raft.Types.{
  Raft, candidate, leader, ask_vote, replicate_round, RequestVoteRequest, RequestVoteResponse,
}
use raft_side.Raft.Persist.{save_raft_state, encode_state, persist, clone}
use raft_side.Raft.Log.{change_state, is_log_up_to_date, get_last_log}
use raft_side.Raft.Vote.{
  request_vote, handle_vote_response, gen_request_vote_request, start_election, tasks_for_others,
  broadcast_heartbeat,
}
use raft_side.Raft.Server.{on_election_timeout}
use raft_side.Raft.Cluster.{
  Election, Cluster, set_at, ask_others, answered, ended, begin, ask, answer, Reach, here, next,
}
use raft_side.Raft.Cluster.Safety.{IsStart, election_safety}
use raft_side.Tests.RaftData.{number_codec, new_node, encode_durable}

-- What the runs below compute with.
program : Unit {0}
unfolding request_vote persist change_state is_log_up_to_date get_last_log save_raft_state clone
    encode_state encode_durable handle_vote_response gen_request_vote_request start_election
    tasks_for_others broadcast_heartbeat on_election_timeout
program = tt

abbrev pub node : ℕ → Raft ℕ
node i = record new_node { me = i }

abbrev pub start : Cluster ℕ
start = record { nodes = node; elections = λ id. none }

pub start-IsStart : IsStart 3 start
start-IsStart = record {
  named = λ i. refl;
  sized = λ i. refl;
  disk = λ i. inr (refl, refl, refl, refl);
  no_leader = λ i. refl;
  no_election = λ id. refl;
}

abbrev pub request : RequestVoteRequest
request = record { term = 1; candidate_id = 0; last_log_index = 0; last_log_term = 0 }

abbrev pub standing : Raft ℕ
standing = record new_node {
  state = candidate;
  current_term = 1;
  voted_for = some 0;
  election_timer = true;
  persister = record { raftstate = 1 ∷ 1 ∷ 0 ∷ 0 ∷ 0 ∷ []; snapshot = [] };
  tasks = ask_vote 2 request ∷ ask_vote 1 request ∷ [];
}

abbrev pub campaign : Election
campaign = record { request = request; granted_votes = 1; asking = ask_others 3 0 }

abbrev pub begun : Cluster ℕ
begun = record { nodes = set_at node 0 standing; elections = set_at (λ id. none) 0 (some campaign) }

start_runs : on_election_timeout (node 0) ≡ some (standing, 1)
unfolding program
start_runs = refl

abbrev pub voter : Raft ℕ
voter = record (node 1) {
  current_term = 1;
  voted_for = some 0;
  persister = record { raftstate = 1 ∷ 1 ∷ 0 ∷ 0 ∷ 0 ∷ []; snapshot = [] };
}

abbrev pub granted : RequestVoteResponse
granted = record { term = 1; vote_granted = true }

abbrev pub elected : Raft ℕ
elected = record standing {
  state = leader;
  match_index = 0 ∷ 0 ∷ 0 ∷ [];
  next_index = pos 1 ∷ pos 1 ∷ pos 1 ∷ [];
  election_timer = false;
  heartbeat_timer = true;
  tasks = replicate_round 2 ∷ replicate_round 1 ∷ ask_vote 2 request ∷ ask_vote 1 request ∷ [];
}

abbrev pub voted : Election
voted = record campaign { asking = set_at campaign.asking 1 (answered granted) }

abbrev pub asked_state : Cluster ℕ
asked_state = record {
  nodes = set_at begun.nodes 1 voter;
  elections = set_at begun.elections 0 (some voted);
}

abbrev pub led_state : Cluster ℕ
led_state = record {
  nodes = set_at asked_state.nodes 0 elected;
  elections =
      set_at asked_state.elections 0
        (some (record voted { granted_votes = 2; asking = set_at voted.asking 1 ended }));
}

led_reached : Reach 3 start led_state
unfolding program
led_reached =
    next
      (next (next here (begin 0 0 1 standing request (omega arith) refl refl refl))
        (ask 0 1 campaign voter granted refl refl refl))
      (answer 0 1 2 voted elected granted refl refl refl)

election_safety_example : ◌≡◌ {A = ℕ} 0 0
election_safety_example =
    election_safety 3 start led_state start-IsStart led_reached 0 0 refl refl refl

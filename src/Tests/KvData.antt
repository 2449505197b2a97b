-- ===== src/Tests/KvData.antt =====
-- Groups of servers, configurations and requests that the tests on the package shardkv share.
use raft_side.Prelude.{ℕ, pos, true, false, some, none, [], ◌∷◌, List, replicate}
use raft_side.Prelude.Dict.{Dict, lookup}
use raft_side.Raft.Types.{Raft, leader}
use raft_side.ShardCtrler.Types.{Config, n_shards}
use raft_side.ShardKv.Types.{
  op_put, op_get, CommandRequest, CommandResponse, OperationContext, ok, serving, pulling, g_cing,
  be_pulling, ShardOperationRequest, ShardOperationResponse, Command,
}
use raft_side.ShardKv.Shard.{Shard}
use raft_side.ShardKv.State.{ShardKv}
use raft_side.ShardKv.Apply.{reply}
use raft_side.ShardKv.Spec.{KvSpec}
use raft_side.ShardKv.Refine.{view}
use Prim.Native.String.{String}

abbrev leading_kv : Raft Command
leading_kv = record {
  peers = 3;
  persister = record { raftstate = []; snapshot = [] };
  me = 0;
  dead = false;
  state = leader;
  current_term = 1;
  voted_for = some 0;
  logs = record { index = 0; term = 0; command = none } ∷ [];
  commit_index = 0;
  last_applied = 0;
  next_index = pos 1 ∷ pos 1 ∷ pos 1 ∷ [];
  match_index = 0 ∷ 0 ∷ 0 ∷ [];
  election_timer = false;
  heartbeat_timer = true;
  tasks = [];
}

abbrev pub all_to : (num gid : ℕ) → Config
all_to num gid = record { num = num; shards = replicate n_shards gid; groups = [] }

abbrev pub empty_shard : Shard
empty_shard = record { kv = []; status = serving }

-- Ten shards, the one of the key "a" first among those that differ.
abbrev machines_with : Shard → Dict Shard
machines_with shard =
    (0, empty_shard)
    ∷ (1, empty_shard)
    ∷ (2, empty_shard)
    ∷ (3, empty_shard)
    ∷ (4, empty_shard)
    ∷ (5, empty_shard)
    ∷ (6, empty_shard)
    ∷ (7, shard)
    ∷ (8, empty_shard)
    ∷ (9, empty_shard)
    ∷ []

abbrev pub group_with : Shard → ShardKv
group_with shard = record {
  rf = leading_kv;
  dead = false;
  gid = 1;
  max_raft_state = none;
  last_applied = 0;
  last_config = all_to 0 0;
  current_config = all_to 1 1;
  state_machines = machines_with shard;
  last_operations = [];
  notify_chans = [];
}

-- "a" := "x", and the read of it.
abbrev pub put_a : CommandRequest
put_a = record { key = 97 ∷ []; value = 120 ∷ []; op = op_put; client_id = 5; command_id = 1 }

abbrev pub read_a : CommandRequest
read_a = record { key = 97 ∷ []; value = []; op = op_get; client_id = 6; command_id = 0 }

abbrev pub full_shard : Shard
full_shard = record { kv = (97 ∷ [], 120 ∷ []) ∷ []; status = serving }

abbrev noted_put : OperationContext
noted_put = record { max_applied_command_id = 1; last_response = reply ok }

abbrev pub after_put : ShardKv
after_put = record (group_with full_shard) { last_operations = (5, noted_put) ∷ [] }

-- Under the next configuration, which leaves every shard where it is.
abbrev pub moved_away : ShardKv
moved_away = record after_put { last_config = all_to 1 1; current_config = all_to 2 1 }

-- Configuration 2 gives every shard to group 2.
abbrev losing : Shard
losing = record { kv = []; status = be_pulling }

abbrev pub all_losing : Dict Shard
all_losing =
    (0, losing)
    ∷ (1, losing)
    ∷ (2, losing)
    ∷ (3, losing)
    ∷ (4, losing)
    ∷ (5, losing)
    ∷ (6, losing)
    ∷ (7, record full_shard { status = be_pulling })
    ∷ (8, losing)
    ∷ (9, losing)
    ∷ []

abbrev pub lost : ShardKv
lost = record after_put {
  last_config = all_to 1 1;
  current_config = all_to 2 2;
  state_machines = all_losing;
}

abbrev pub waiting : ShardKv
waiting = group_with (record { kv = []; status = pulling })

abbrev pub pulled : ShardOperationResponse
pulled = record {
  err = ok;
  config_num = 1;
  shards = (7, (97 ∷ [], 120 ∷ []) ∷ []) ∷ [];
  last_operations = (5, noted_put) ∷ [];
}

abbrev pub filled_group : ShardKv
filled_group = record (group_with (record full_shard { status = g_cing })) {
  last_operations = (5, noted_put) ∷ [];
}

abbrev pub collection : ShardOperationRequest
collection = record { config_num = 1; shard_ids = 7 ∷ [] }

abbrev pub collected_group : ShardKv
collected_group = record (group_with full_shard) { last_operations = (5, noted_put) ∷ [] }

abbrev pub handed_over : ShardOperationResponse
handed_over = record {
  err = ok;
  config_num = 1;
  shards = (7, (97 ∷ [], 120 ∷ []) ∷ []) ∷ [];
  last_operations = (5, noted_put) ∷ [];
}

abbrev pub spec_after_put : KvSpec
spec_after_put = record {
  store = view after_put;
  sessions = λ c. lookup c after_put.last_operations;
}

abbrev pub read_x : CommandResponse
read_x = record { err = ok; value = 120 ∷ [] }

-- Group 2 pulls the shard of the key "a" from group 1, both at configuration 2.
abbrev pub puller : ShardKv
puller = record waiting { gid = 2; last_config = all_to 1 1; current_config = all_to 2 2 }

abbrev pub pull_7 : ShardOperationRequest
pull_7 = record { config_num = 2; shard_ids = 7 ∷ [] }

abbrev pub sent_7 : ShardOperationResponse
sent_7 = record handed_over { config_num = 2 }

-- A group that pulls the shard of the key "a" from group 2.
abbrev pub pulls_from_2 : ShardKv
pulls_from_2 = record waiting { last_config = all_to 1 2; current_config = all_to 2 1 }

abbrev pub ids_7 : Dict (List ℕ)
ids_7 = (2, 7 ∷ []) ∷ []

abbrev pub call_7 : List String × ShardOperationRequest
call_7 = ([], record { config_num = 2; shard_ids = 7 ∷ [] })

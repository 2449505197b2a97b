-- ===== src/ShardKv/Monitor.antt =====
-- The monitors' actions of shardkv/server.go, which propose commands to Raft. What another server
-- answers to a call is an argument.
use raft_side.Prelude.{
  ℕ, ◌+◌, ℤ, pos, Bool, true, false, Option, none, some, List, [], ◌∷◌, ◌>>=◌, ◌==◌, if◌then◌else◌,
}
use Prim.Native.String.{String}
use raft_side.Prelude.Dict.{Dict, lookup}
use raft_side.Raft.Log.{has_log_in_current_term}
use raft_side.ShardCtrler.Types.{Config}
use raft_side.ShardKv.Types.{
  ok, ShardStatus, serving, pulling, g_cing, is_status, ShardOperationRequest,
  ShardOperationResponse, Command, configuration, insert_shards, delete_shards, empty_entry,
}
use raft_side.ShardKv.Shard.{Shard}
use raft_side.ShardKv.State.{ShardKv, get_shard_status, get_shard_ids_by_status}

-- The loop of `configureAction`.
unfoldable pub all_serving : Dict Shard → Bool
all_serving [] = true
all_serving ((i, shard) ∷ machines) =
    let rest = all_serving machines in if is_status shard.status serving then rest else false

-- `query` is the call of the shard controller. The statuses are computed for the log.
unfoldable pub configure_action : ShardKv → (query : ℤ → Config) → Option (Option Command)
configure_action sk query =
    if all_serving sk.state_machines
    then (let num = sk.current_config.num in
        let next_config = query (pos (num + 1)) in
        some (if next_config.num == num + 1 then some (configuration next_config) else none))
    else (do statuses ← get_shard_status sk; some none)

-- The servers of a group; none for a group that the configuration does not name.
unfoldable pub servers_of : Dict (List String) → (gid : ℕ) → List String
servers_of groups gid = elim (lookup gid groups) [ none ↦ [] | some servers ↦ servers ]

-- The calls of `migrationAction` and of `gcAction`: for each group, its servers and the request.
unfoldable pub calls_to :
    Dict (List String)
    → (config_num : ℕ) → Dict (List ℕ)
    → List (List String × ShardOperationRequest)
unfolding servers_of
calls_to groups config_num [] = []
calls_to groups config_num ((gid, shard_ids) ∷ ids) =
    (servers_of groups gid, record { config_num = config_num; shard_ids = shard_ids })
    ∷ calls_to groups config_num ids

-- A server's answer, `none` where the call fails: the commands to execute, one for each server that
-- answered with success.
unfoldable pub insertions : List (Option ShardOperationResponse) → List Command
insertions [] = []
insertions (none ∷ answers) = insertions answers
insertions (some answer ∷ answers) = elim answer.err as (λ _. List Command) [
  | ok ↦ insert_shards answer ∷ insertions answers
  | _ ↦ insertions answers
]

unfoldable pub deletions :
    ShardOperationRequest → List (Option ShardOperationResponse) → List Command
deletions request [] = []
deletions request (none ∷ answers) = deletions request answers
deletions request (some answer ∷ answers) = elim answer.err as (λ _. List Command) [
  | ok ↦ delete_shards request ∷ deletions request answers
  | _ ↦ deletions request answers
]

-- The calls that an action makes for the shards of one status: `migrationAction` for those that are
-- pulling, `gcAction` for those to be collected.
unfoldable pub action_calls :
    ShardStatus → ShardKv → Option (List (List String × ShardOperationRequest))
action_calls status sk = do
  ids ← get_shard_ids_by_status sk status
  some (calls_to sk.last_config.groups sk.current_config.num ids)

unfoldable pub migration_action : ShardKv → Option (List (List String × ShardOperationRequest))
migration_action sk = action_calls pulling sk

unfoldable pub gc_action : ShardKv → Option (List (List String × ShardOperationRequest))
gc_action sk = action_calls g_cing sk

unfoldable pub check_entry_in_current_term_action : ShardKv → Option (Option Command)
check_entry_in_current_term_action sk = do
  has ← has_log_in_current_term sk.rf
  some (if has then none else some empty_entry)

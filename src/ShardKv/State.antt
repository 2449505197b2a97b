-- ===== src/ShardKv/State.antt =====
-- The struct `ShardKV` of shardkv/server.go and the functions that read it or set a part of it.
-- `none` is a run-time panic, as for a shard that the map does not hold (a nil pointer).
use raft_side.Prelude.{
  ℕ, zero, suc, ◌+◌, Bool, true, false, ◌||◌, Option, none, some, List, [], ◌∷◌, ◌++◌, ◌>>=◌, leb,
  ◌==◌, if◌then◌else◌, get_elem?,
}
use raft_side.Prelude.Dict.{Dict, lookup, insert, delete}
use raft_side.Raft.Types.{Raft}
use raft_side.ShardCtrler.Types.{Config, n_shards}
use raft_side.ShardKv.Types.{
  ShardStatus, serving, g_cing, is_status, OperationContext, CommandResponse, Command,
}
use raft_side.ShardKv.Shard.{Shard, new_shard}

-- `maxRaftState` writes -1 as `none`.
pub record ShardKv : Type 0 where
  pub rf : Raft Command
  pub dead : Bool
  pub gid : ℕ
  pub max_raft_state : Option ℕ
  pub last_applied : ℕ
  pub last_config : Config
  pub current_config : Config
  pub state_machines : Dict Shard
  pub last_operations : Dict OperationContext
  pub notify_chans : Dict (Option CommandResponse)

-- The loop of `initStateMachines`, over so many shards from `i` on.
init_from : (count i : ℕ) → Dict Shard → Dict Shard
init_from zero i machines = machines
init_from (suc count) i machines =
    init_from count (i + 1)
      (elim (lookup i machines) [ none ↦ insert i new_shard machines | some shard ↦ machines ])

unfoldable pub init_state_machines : ShardKv → ShardKv
unfolding init_from
init_state_machines sk = record sk { state_machines = init_from n_shards 0 sk.state_machines }

unfoldable pub can_serve : ShardKv → (shard_id : ℕ) → Option Bool
can_serve sk shard_id = do
  gid ← get_elem? sk.current_config.shards shard_id
  if gid == sk.gid
      then (do
        shard ← lookup shard_id sk.state_machines
        some (is_status shard.status serving || is_status shard.status g_cing))
      else some false

unfoldable pub is_duplicate_request : ShardKv → (client_id request_id : ℕ) → Bool
is_duplicate_request sk client_id request_id = elim (lookup client_id sk.last_operations) [
  | none ↦ false
  | some context ↦ leb request_id context.max_applied_command_id
]

unfoldable pub get_notify_chan : ShardKv → (index : ℕ) → ShardKv × Option CommandResponse
get_notify_chan sk index = elim (lookup index sk.notify_chans) [
  | none ↦ (record sk { notify_chans = insert index none sk.notify_chans }, none)
  | some chan ↦ (sk, chan)
]

unfoldable pub remove_outdated_notify_chan : ShardKv → (index : ℕ) → ShardKv
remove_outdated_notify_chan sk index = record sk { notify_chans = delete index sk.notify_chans }

-- The loop of `getShardStatus`.
status_from : (count i : ℕ) → Dict Shard → Option (List ShardStatus)
status_from zero i machines = some []
status_from (suc count) i machines = do
  shard ← lookup i machines
  rest ← status_from count (i + 1) machines
  some (shard.status ∷ rest)

unfoldable pub get_shard_status : ShardKv → Option (List ShardStatus)
unfolding status_from
get_shard_status sk = status_from n_shards 0 sk.state_machines

-- `if gid != 0 { gid2shardIDs[gid] = append(gid2shardIDs[gid], i) }`
unfoldable pub add_id : (gid i : ℕ) → Dict (List ℕ) → Dict (List ℕ)
add_id zero i ids = ids
add_id (suc gid) i ids = elim (lookup (suc gid) ids) [
  | none ↦ insert (suc gid) (i ∷ []) ids
  | some old ↦ insert (suc gid) (old ++ i ∷ []) ids
]

unfoldable pub ids_by_status :
    ShardStatus → (shards : List ℕ) → Dict Shard → Dict (List ℕ) → Option (Dict (List ℕ))
unfolding add_id
ids_by_status status shards [] ids = some ids
ids_by_status status shards ((i, shard) ∷ machines) ids = elim (is_status shard.status status) [
  | true ↦ (do gid ← get_elem? shards i; ids_by_status status shards machines (add_id gid i ids))
  | false ↦ ids_by_status status shards machines ids
]

unfoldable pub get_shard_ids_by_status : ShardKv → ShardStatus → Option (Dict (List ℕ))
get_shard_ids_by_status sk status = ids_by_status status sk.last_config.shards sk.state_machines []

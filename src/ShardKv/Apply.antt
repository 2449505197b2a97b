-- ===== src/ShardKv/Apply.antt =====
-- The applier's handlers of shardkv/server.go, one for each kind of command. Go visits a map in any
-- order: here that of its entries, so that a theorem about all maps is about all orders.
use raft_side.Prelude.{
  ℕ, zero, suc, ◌+◌, Bool, true, false, not, ◌&&◌, ◌||◌, Option, none, some, List, [], ◌∷◌, ◌>>=◌,
  ltb, ◌==◌, if◌then◌else◌, get_elem?,
}
use raft_side.Prelude.Dict.{Dict, lookup, insert}
use raft_side.ShardCtrler.Types.{Config, n_shards}
use raft_side.ShardKv.Strings.{StrMap}
use raft_side.ShardKv.Types.{
  Err, ok, err_wrong_group, err_out_dated, ShardStatus, serving, pulling, be_pulling, g_cing,
  is_status, OperationOp, op_put, op_append, op_get, is_get, OperationContext, CommandRequest,
  CommandResponse, ShardOperationRequest, ShardOperationResponse, Command, operation, configuration,
  insert_shards, delete_shards, empty_entry,
}
use raft_side.ShardKv.Shard.{Shard, new_shard, get, put, append, fill, key2shard}
use raft_side.ShardKv.State.{ShardKv, can_serve, is_duplicate_request, get_shard_status}

abbrev pub reply : Err → CommandResponse
reply e = record { err = e; value = [] }

abbrev pub set_shard : ShardKv → ℕ → Shard → ShardKv
set_shard sk i shard = record sk { state_machines = insert i shard sk.state_machines }

unfoldable pub run_on_shard : OperationOp → Shard → CommandRequest → Shard × CommandResponse
run_on_shard op_put shard request =
    let (shard', e) = put shard request.key request.value in (shard', reply e)
run_on_shard op_append shard request =
    let (shard', e) = append shard request.key request.value in (shard', reply e)
run_on_shard op_get shard request =
    let (value, e) = get shard request.key in (shard, record { err = e; value = value })

unfoldable pub apply_log_to_state_machines :
    ShardKv → CommandRequest → (shard_id : ℕ) → Option (ShardKv × CommandResponse)
apply_log_to_state_machines sk request shard_id = do
  shard ← lookup shard_id sk.state_machines
  let (shard', response) = run_on_shard request.op shard request
  some (set_shard sk shard_id shard', response)

-- `applyOperation` once the shard is one that the group serves.
unfoldable pub serve :
    ShardKv → CommandRequest → (shard_id : ℕ) → Option (ShardKv × CommandResponse)
serve sk request shard_id =
    if not (is_get request.op) && is_duplicate_request sk request.client_id request.command_id
    then (do
      context ← lookup request.client_id sk.last_operations
      some (sk, context.last_response))
    else (do
      (sk', response) ← apply_log_to_state_machines sk request shard_id
      let context : OperationContext = record {
        max_applied_command_id = request.command_id;
        last_response = response;
      }
      some (
        if is_get request.op then sk' else record sk' {
          last_operations = insert request.client_id context sk'.last_operations;
        },
        response,
      ))

unfoldable pub apply_operation : ShardKv → CommandRequest → Option (ShardKv × CommandResponse)
apply_operation sk request = do
  served ← can_serve sk (key2shard request.key)
  if served then serve sk request (key2shard request.key) else some (sk, reply err_wrong_group)

-- The tests of `updateShardStatus`: the shard comes from another group, or goes to one.
abbrev pub gains : (gid old new : ℕ) → Bool
gains gid old new = not (old == gid) && new == gid && not (old == 0)

abbrev pub loses : (gid old new : ℕ) → Bool
loses gid old new = old == gid && not (new == gid) && not (new == 0)

-- The status of a shard for which one test holds, or both.
unfoldable pub next_status : (gid old new : ℕ) → ShardStatus
next_status gid old new = if loses gid old new then be_pulling else pulling

-- A round of the loop of `updateShardStatus`. A shard for which neither test holds is not touched.
unfoldable pub update_one : (i gid old new : ℕ) → Dict Shard → Option (Dict Shard)
update_one i gid old new machines = elim (gains gid old new || loses gid old new) [
  | true ↦ (do
    shard ← lookup i machines
    some (insert i (record shard { status = next_status gid old new }) machines))
  | false ↦ some machines
]

unfoldable pub update_from :
    (count i gid : ℕ) → (current next : List ℕ) → Dict Shard → Option (Dict Shard)
update_from zero i gid current next machines = some machines
update_from (suc count) i gid current next machines = do
  old ← get_elem? current i
  new ← get_elem? next i
  machines' ← update_one i gid old new machines
  update_from count (i + 1) gid current next machines'

unfoldable pub update_shard_status : ShardKv → Config → Option ShardKv
update_shard_status sk next_config = do
  machines ←
      update_from n_shards 0 sk.gid sk.current_config.shards next_config.shards sk.state_machines
  some (record sk { state_machines = machines })

unfoldable pub apply_configuration : ShardKv → Config → Option (ShardKv × CommandResponse)
apply_configuration sk next_config =
    if next_config.num == sk.current_config.num + 1
    then (do
      sk' ← update_shard_status sk next_config
      some
          (record sk' { last_config = sk'.current_config; current_config = next_config }, reply ok))
    else some (sk, reply err_out_dated)

-- A shard with the entries that were pulled for it.
abbrev pub filled : StrMap → Shard → Shard
filled entries shard = record (fill entries shard) { status = g_cing }

-- The first loop of `applyInsertShards`, which breaks at a shard that is not pulling.
unfoldable pub insert_all : Dict StrMap → Dict Shard → Option (Dict Shard)
insert_all [] machines = some machines
insert_all ((shard_id, entries) ∷ shards) machines = do
  shard ← lookup shard_id machines
  elim (is_status shard.status pulling) [
    | true ↦ insert_all shards (insert shard_id (filled entries shard) machines)
    | false ↦ some machines
  ]

-- The second loop: a client's later operation wins.
unfoldable pub merge_operation :
    (client_id : ℕ) → OperationContext → Dict OperationContext → Dict OperationContext
merge_operation client_id context last_operations = elim (lookup client_id last_operations) [
  | none ↦ insert client_id context last_operations
  | some last ↦
      if ltb last.max_applied_command_id context.max_applied_command_id
      then insert client_id context last_operations
      else last_operations
]

unfoldable pub merge_operations :
    Dict OperationContext → Dict OperationContext → Dict OperationContext
merge_operations [] last_operations = last_operations
merge_operations ((client_id, context) ∷ contexts) last_operations =
    merge_operations contexts (merge_operation client_id context last_operations)

unfoldable pub apply_insert_shards :
    ShardKv → ShardOperationResponse → Option (ShardKv × CommandResponse)
apply_insert_shards sk shards_info =
    if shards_info.config_num == sk.current_config.num
    then (do
      machines ← insert_all shards_info.shards sk.state_machines
      some (
        record sk {
          state_machines = machines;
          last_operations = merge_operations shards_info.last_operations sk.last_operations;
        },
        reply ok,
      ))
    else some (sk, reply err_out_dated)

-- The loop of `applyDeleteShards`, which breaks at a shard that is serving or pulling.
unfoldable pub delete_all : List ℕ → Dict Shard → Option (Dict Shard)
delete_all [] machines = some machines
delete_all (shard_id ∷ shard_ids) machines = do
  shard ← lookup shard_id machines
  elim (is_status shard.status g_cing) [
    | true ↦ delete_all shard_ids (insert shard_id (record shard { status = serving }) machines)
    | false ↦ elim (is_status shard.status be_pulling) [
      | true ↦ delete_all shard_ids (insert shard_id new_shard machines)
      | false ↦ some machines
    ]
  ]

-- The arguments of the two `DPrintf` are computed: `getShardStatus` needs every shard.
unfoldable pub apply_delete_shards :
    ShardKv → ShardOperationRequest → Option (ShardKv × CommandResponse)
apply_delete_shards sk shards_info =
    if shards_info.config_num == sk.current_config.num
    then (do
      before ← get_shard_status sk
      machines ← delete_all shards_info.shard_ids sk.state_machines
      let sk' = record sk { state_machines = machines }
      after ← get_shard_status sk'
      some (sk', reply ok))
    else some (sk, reply ok)

unfoldable pub apply_empty_entry : CommandResponse
apply_empty_entry = reply ok

-- The switch of `applier`.
unfoldable pub apply_command : ShardKv → Command → Option (ShardKv × CommandResponse)
apply_command sk (operation request) = apply_operation sk request
apply_command sk (configuration next_config) = apply_configuration sk next_config
apply_command sk (insert_shards shards_info) = apply_insert_shards sk shards_info
apply_command sk (delete_shards shards_info) = apply_delete_shards sk shards_info
apply_command sk empty_entry = some (sk, apply_empty_entry)

-- ===== src/Tests/KvMoves.antt =====
-- The theorems on configurations and on shards that move between groups of the package shardkv.
use raft_side.Prelude.{
  ℕ, ◌+◌, ◌<◌, ◌≡◌, ◌≢◌, sym, arith, ◌⊎◌, refl, arith, true, false, some, [], ◌∷◌, List, replicate,
  get_elem?, ◌≤◌, inl,
}
use raft_side.Prelude.Dict.{lookup, insert, Distinct}
use raft_side.ShardCtrler.Types.{n_shards}
use raft_side.ShardKv.Strings.{find, store, same_string}
use raft_side.ShardKv.Types.{
  ok, pulling, be_pulling, ShardOperationRequest, err_out_dated, err_wrong_leader, err_not_ready,
  copy_context, serving,
}
use raft_side.ShardKv.Shard.{
  Shard, new_shard, put, append, get, fill, key2shard, deep_copy, copy_entries,
}
use raft_side.ShardKv.State.{
  ShardKv, can_serve, is_duplicate_request, get_shard_status, get_shard_ids_by_status,
  ids_by_status, add_id,
}
use raft_side.ShardKv.Apply.{
  apply_operation, apply_configuration, apply_insert_shards, apply_delete_shards, apply_command,
  apply_log_to_state_machines, run_on_shard, serve, reply, update_one, update_from,
  update_shard_status, next_status, insert_all, delete_all, merge_operation, merge_operations,
}
use raft_side.ShardKv.Once.{apply_commands}
use raft_side.ShardKv.Types.{g_cing, serving}
use raft_side.ShardKv.Migration.{Inserts, Deletes, apply_insert_shards_lem, apply_delete_shards_lem}
use raft_side.ShardKv.Reconfigure.{reconfigured, apply_configuration_lem}
use raft_side.ShardKv.Collection.{IsCollectable, apply_delete_shards-collects}
use raft_side.ShardKv.Handover.{get_shards_data_lem, requested}
use raft_side.ShardKv.Server.{get_shards_data, copy_shards, copy_contexts}
use raft_side.Raft.Log.{get_state}
use Prim.Native.String.{String}
use raft_side.ShardKv.Monitor.{action_calls, calls_to, servers_of}
use raft_side.ShardKv.Pulls.{ids_of, wanted, get_shard_ids_by_status_lem}
use raft_side.ShardKv.Calls.{action_calls_lem}
use raft_side.ShardKv.Types.{Command, configuration}
use raft_side.ShardKv.Configure.{configure_action_lem}
use raft_side.ShardKv.Monitor.{configure_action}
use raft_side.ShardKv.Transfer.{Holds, IsWaiting, IsHandedOver, apply_insert_shards-IsHandedOver}
use raft_side.Tests.KvData.{
  all_to, full_shard, after_put, all_losing, lost, waiting, pulled, filled_group, collection,
  collected_group, handed_over, puller, pull_7, sent_7, pulls_from_2, ids_7, call_7,
}

-- What the runs below compute with.
program : Unit {0}
unfolding lookup insert find store same_string new_shard put append get fill key2shard can_serve
    is_duplicate_request get_shard_status apply_operation apply_configuration apply_insert_shards
    apply_delete_shards apply_command apply_log_to_state_machines run_on_shard serve update_one
    update_from update_shard_status next_status insert_all delete_all merge_operation
    merge_operations apply_commands get_shards_data copy_shards copy_contexts get_state deep_copy
    copy_entries copy_context
program = tt

apply_configuration_lem_example :
    ((2 ≡ 1 + 1)
      × (lost.current_config ≡ all_to 2 2)
      × (lost.last_config ≡ all_to 1 1)
      × ((j old new : ℕ) (shard : Shard)
          → j < n_shards
          → get_elem? (replicate n_shards 1) j ≡ some old
          → get_elem? (replicate n_shards 2) j ≡ some new
          → lookup j after_put.state_machines ≡ some shard
          → lookup j all_losing ≡ some (reconfigured 1 old new shard)))
    ⊎ ((2 ≢ 1 + 1) × (lost ≡ after_put) × (reply ok ≡ reply err_out_dated))
unfolding program
apply_configuration_lem_example =
    apply_configuration_lem after_put (all_to 2 2) lost (reply ok) refl

apply_insert_shards_lem_example :
    ((i : ℕ) (shard : Shard)
      → lookup i waiting.state_machines ≡ some shard
      → (new : Shard) × (lookup i filled_group.state_machines ≡ some new) × Inserts shard new)
    × (◌≢◌ {A = ℕ} 1 1 → (filled_group ≡ waiting) × (reply ok ≡ reply err_out_dated))
unfolding program
apply_insert_shards_lem_example =
    apply_insert_shards_lem waiting pulled filled_group (reply ok) refl

apply_delete_shards_lem_example :
    ((i : ℕ) (shard : Shard)
      → lookup i filled_group.state_machines ≡ some shard
      → (new : Shard) × (lookup i collected_group.state_machines ≡ some new) × Deletes shard new)
    × (◌≢◌ {A = ℕ} 1 1 → collected_group ≡ filled_group)
    × (reply ok ≡ reply ok)
unfolding program
apply_delete_shards_lem_example =
    apply_delete_shards_lem filled_group collection collected_group (reply ok) refl

filled_group-IsCollectable :
    (j : ℕ) → requested j (7 ∷ []) ≡ true → IsCollectable j filled_group.state_machines
unfolding program
filled_group-IsCollectable j named =
    let same : 7 ≡ j = ground arith in
    rw (sym same) (record full_shard { status = g_cing }, refl, inl refl)

apply_delete_shards-collects_example :
    lookup 7 collected_group.state_machines ≡ some (record full_shard { status = serving })
unfolding program
apply_delete_shards-collects_example =
    apply_delete_shards-collects filled_group collection collected_group (reply ok) 7
      (record full_shard { status = g_cing }) refl refl (refl, tt) filled_group-IsCollectable refl

get_shards_data_lem_example :
    ((true ≡ false) × (handed_over.err ≡ err_wrong_leader))
    ⊎ ((true ≡ true) × (1 < 1) × (handed_over.err ≡ err_not_ready))
    ⊎ ((true ≡ true)
        × (1 ≤ 1)
        × (handed_over.err ≡ ok)
        × (◌≡◌ {A = ℕ} 1 1)
        × (handed_over.last_operations ≡ after_put.last_operations)
        × ((i : ℕ) (shard : Shard)
            → requested i (7 ∷ []) ≡ true
            → lookup i after_put.state_machines ≡ some shard
            → lookup i handed_over.shards ≡ some shard.kv))
unfolding program
get_shards_data_lem_example = get_shards_data_lem after_put collection handed_over refl

lost-Holds : Holds lost (7 ∷ [])
unfolding program
lost-Holds i asked =
    let same : 7 ≡ i = ground arith in
    rw (sym same) (record full_shard { status = be_pulling }, refl, (refl, tt))

puller-IsWaiting : IsWaiting puller (7 ∷ [])
unfolding program
puller-IsWaiting i asked =
    let same : 7 ≡ i = ground arith in
    rw (sym same) (record { kv = []; status = pulling }, refl, refl, refl)

apply_insert_shards-IsHandedOver_example :
    (after : ShardKv) × (apply_insert_shards puller sent_7 ≡ some (after, reply ok))
    × IsHandedOver lost puller after (7 ∷ [])
unfolding program
apply_insert_shards-IsHandedOver_example =
    apply_insert_shards-IsHandedOver lost puller pull_7 sent_7 refl refl refl lost-Holds
      puller-IsWaiting

machines-Distinct : Distinct pulls_from_2.state_machines
unfolding lookup
machines-Distinct =
    (refl, (refl, (refl, (refl, (refl, (refl, (refl, (refl, (refl, (refl, tt))))))))))

get_shard_ids_by_status_lem_example :
    requested 7 (ids_of ids_7 2)
    ≡ wanted pulls_from_2.state_machines (replicate n_shards 2) pulling 2 7
unfolding program get_shard_ids_by_status ids_by_status add_id
get_shard_ids_by_status_lem_example =
    get_shard_ids_by_status_lem pulls_from_2 pulling ids_7 machines-Distinct refl 2 7

action_calls_lem_example :
    ((n : ℕ) (call : List String × ShardOperationRequest)
      → get_elem? (call_7 ∷ []) n ≡ some call
      → (gid : ℕ) × (call.0 ≡ servers_of [] gid)
        × (call.1.config_num ≡ 2)
        × ((i : ℕ)
            → requested i (call.1.shard_ids)
              ≡ wanted pulls_from_2.state_machines (replicate n_shards 2) pulling gid i))
    × ((gid i : ℕ)
        → wanted pulls_from_2.state_machines (replicate n_shards 2) pulling gid i ≡ true
        → (n : ℕ) × (call : List String × ShardOperationRequest) × (get_elem? (call_7 ∷ []) n
            ≡ some call)
          × (call.0 ≡ servers_of [] gid)
          × (requested i (call.1.shard_ids) ≡ true))
unfolding program get_shard_ids_by_status ids_by_status add_id action_calls calls_to servers_of
action_calls_lem_example =
    action_calls_lem pulls_from_2 pulling (call_7 ∷ []) machines-Distinct refl

after_put-Distinct : Distinct after_put.state_machines
unfolding lookup
after_put-Distinct =
    (refl, (refl, (refl, (refl, (refl, (refl, (refl, (refl, (refl, (refl, tt))))))))))

configure_action_lem_example :
    ((command : Command)
      → configure_action after_put (λ num. all_to 2 2) ≡ some (some command)
      → (command ≡ configuration (all_to 2 2))
        × (◌≡◌ {A = ℕ} 2 (1 + 1))
        × ((i : ℕ) (shard : Shard)
            → lookup i after_put.state_machines ≡ some shard
            → shard.status ≡ serving))
    × (((i : ℕ) (shard : Shard)
          → lookup i after_put.state_machines ≡ some shard
          → shard.status ≡ serving)
        → ◌≡◌ {A = ℕ} 2 (1 + 1)
        → configure_action after_put (λ num. all_to 2 2) ≡ some (some (configuration (all_to 2 2))))
configure_action_lem_example = configure_action_lem after_put (λ num. all_to 2 2) after_put-Distinct

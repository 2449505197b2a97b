-- ===== src/Tests/KvRuns.antt =====
-- The theorems on operations of the package shardkv, at a group that serves every shard.
use raft_side.Prelude.{◌≡◌, Option-cases, inl, inr, arith, refl, arith, true, some, [], ◌∷◌}
use raft_side.Prelude.Dict.{lookup, insert}
use raft_side.ShardKv.Strings.{find, store, same_string}
use raft_side.ShardKv.Types.{CommandResponse, ok, configuration, copy_context}
use raft_side.ShardKv.Shard.{new_shard, put, append, get, fill, key2shard, deep_copy, copy_entries}
use raft_side.ShardKv.State.{ShardKv, can_serve, is_duplicate_request, get_shard_status}
use raft_side.ShardKv.Apply.{
  apply_operation, apply_configuration, apply_insert_shards, apply_delete_shards, apply_command,
  apply_log_to_state_machines, run_on_shard, serve, reply, update_one, update_from,
  update_shard_status, next_status, insert_all, delete_all, merge_operation, merge_operations,
}
use raft_side.ShardKv.Once.{apply_commands, apply_operation-once}
use raft_side.ShardKv.Storage.{apply_operation-reads}
use raft_side.ShardKv.Refine.{view, Refines, apply_operation-Refines}
use raft_side.ShardKv.Total.{IsComplete, apply_operation-IsComplete}
use raft_side.ShardKv.Server.{get_shards_data, copy_shards, copy_contexts}
use raft_side.Raft.Log.{get_state}
use raft_side.Tests.KvData.{
  all_to, empty_shard, group_with, put_a, read_a, after_put, moved_away, spec_after_put, read_x,
}

-- What the runs below compute with.
program : Unit {0}
unfolding lookup insert find store same_string new_shard put append get fill key2shard can_serve
    is_duplicate_request get_shard_status apply_operation apply_configuration apply_insert_shards
    apply_delete_shards apply_command apply_log_to_state_machines run_on_shard serve update_one
    update_from update_shard_status next_status insert_all delete_all merge_operation
    merge_operations apply_commands get_shards_data copy_shards copy_contexts get_state deep_copy
    copy_entries copy_context
program = tt

apply_operation-once_example : moved_away ≡ moved_away
unfolding program
apply_operation-once_example =
    apply_operation-once (group_with empty_shard) put_a put_a (configuration (all_to 2 1) ∷ [])
      after_put moved_away moved_away (reply ok) (reply ok) refl refl refl refl refl refl refl
      (omega arith)

apply_operation-reads_example :
    (last : ShardKv) × (apply_operation after_put read_a
      ≡ some (last, record { err = ok; value = 120 ∷ [] }))
unfolding program
apply_operation-reads_example =
    apply_operation-reads (group_with empty_shard) put_a read_a empty_shard after_put (reply ok)
      refl refl refl refl refl refl refl

after_put-IsComplete : IsComplete after_put
unfolding program
after_put-IsComplete = record {
  assigned = refl;
  held = λ i p. elim (Option-cases (lookup i after_put.state_machines)) [
    | inl gone ↦ absurd (ground arith)
    | inr found ↦ found
  ];
}

apply_operation-IsComplete_example :
    (sk' : ShardKv) × (r : CommandResponse) × (apply_operation after_put read_a ≡ some (sk', r))
    × IsComplete sk'
apply_operation-IsComplete_example =
    apply_operation-IsComplete after_put read_a after_put-IsComplete

apply_operation-Refines_example : Refines after_put spec_after_put × (read_x ≡ read_x)
unfolding program view
apply_operation-Refines_example =
    apply_operation-Refines after_put spec_after_put read_a true after_put read_x
      (record { stored = λ k. refl; noted = λ c. refl }) refl refl

-- ===== src/ShardKv/Once.antt =====
-- A write of a client is executed at most once by a group, whatever the log holds in between.
use raft_side.Prelude.{
  ◌>>=◌, [], ◌∷◌, ℕ, ◌≡◌, inl, inr, arith, true, some, none, Option-cases, List, ◌≤◌, false, Option,
  leb, Bool,
}
use raft_side.Prelude.Dict.{Dict, lookup, lookup-insert}
use raft_side.ShardCtrler.Types.{Config}
use raft_side.ShardKv.Types.{
  CommandRequest, CommandResponse, OperationContext, is_get, Command, operation, configuration,
  insert_shards, delete_shards, empty_entry,
}
use raft_side.ShardKv.Shard.{key2shard}
use raft_side.ShardKv.State.{ShardKv, can_serve, is_duplicate_request}
use raft_side.ShardKv.Apply.{
  apply_operation, apply_command, apply_configuration, apply_insert_shards, apply_delete_shards,
  apply_log_to_state_machines, serve, merge_operation, merge_operations, update_shard_status,
}

-- The client's last write was at least the given one.
unfoldable pub noted : Dict OperationContext → (client_id command_id : ℕ) → Bool
noted m client_id command_id = elim (lookup client_id m) [
  | none ↦ false
  | some context ↦ leb command_id context.max_applied_command_id
]

merge_operation-noted :
    (c : ℕ) (context : OperationContext) (m : Dict OperationContext) (client_id command_id : ℕ)
    → noted m client_id command_id ≡ true
    → noted (merge_operation c context m) client_id command_id ≡ true
unfolding merge_operation noted
merge_operation-noted c context m client_id command_id h =
    ground (arith, lookup-insert c client_id context m)

pub merge_operations-noted :
    (contexts m : Dict OperationContext) (client_id command_id : ℕ)
    → noted m client_id command_id ≡ true
    → noted (merge_operations contexts m) client_id command_id ≡ true
unfolding merge_operations
merge_operations-noted [] m client_id command_id h = h
merge_operations-noted ((c, context) ∷ contexts) m client_id command_id h =
    merge_operations-noted contexts (merge_operation c context m) client_id command_id
      (merge_operation-noted c context m client_id command_id h)

apply_log_to_state_machines-last_operations :
    (sk : ShardKv) (request : CommandRequest) (shard_id : ℕ) {sk' : ShardKv} {r : CommandResponse}
    → apply_log_to_state_machines sk request shard_id ≡ some (sk', r)
    → sk'.last_operations ≡ sk.last_operations
unfolding apply_log_to_state_machines
apply_log_to_state_machines-last_operations sk request shard_id e = ground arith

serve-noted :
    (sk : ShardKv) (request : CommandRequest) (shard_id client_id command_id : ℕ) {sk' : ShardKv}
    {r : CommandResponse}
    → serve sk request shard_id ≡ some (sk', r)
    → noted sk.last_operations client_id command_id ≡ true
    → noted sk'.last_operations client_id command_id ≡ true
unfolding serve is_duplicate_request noted
serve-noted sk request shard_id client_id command_id e h =
    elim (Option-cases (apply_log_to_state_machines sk request shard_id)) [
      | inl failed ↦ ground arith
      | inr ((a, r), ran) ↦
          let same = apply_log_to_state_machines-last_operations sk request shard_id ran in
          let context : OperationContext = record {
            max_applied_command_id = request.command_id;
            last_response = r;
          } in
          ground (arith, lookup-insert request.client_id client_id context a.last_operations)
    ]

serve-notes :
    (sk : ShardKv) (request : CommandRequest) (shard_id : ℕ) {sk' : ShardKv} {r : CommandResponse}
    → serve sk request shard_id ≡ some (sk', r)
    → is_get request.op ≡ false
    → noted sk'.last_operations request.client_id request.command_id ≡ true
unfolding serve is_duplicate_request noted
serve-notes sk request shard_id e h =
    elim (Option-cases (apply_log_to_state_machines sk request shard_id)) [
      | inl failed ↦ ground arith
      | inr ((a, r), ran) ↦
          let context : OperationContext = record {
            max_applied_command_id = request.command_id;
            last_response = r;
          } in
          ground
            (arith, lookup-insert request.client_id request.client_id context a.last_operations)
    ]

serve-skips :
    (sk : ShardKv) (request : CommandRequest) (shard_id : ℕ) {sk' : ShardKv} {r : CommandResponse}
    → serve sk request shard_id ≡ some (sk', r)
    → is_get request.op ≡ false
    → noted sk.last_operations request.client_id request.command_id ≡ true
    → sk' ≡ sk
unfolding serve is_duplicate_request noted
serve-skips sk request shard_id e h dup = ground arith

noted-le :
    (m : Dict OperationContext) (client_id low high : ℕ)
    → noted m client_id high ≡ true
    → low ≤ high
    → noted m client_id low ≡ true
unfolding noted
noted-le m client_id low high h le = ground arith

update_shard_status-last_operations :
    (sk : ShardKv) (next_config : Config) {sk' : ShardKv}
    → update_shard_status sk next_config ≡ some sk'
    → sk'.last_operations ≡ sk.last_operations
unfolding update_shard_status
update_shard_status-last_operations sk next_config e = ground arith

-- Applying a command of any kind keeps every record of a client's last write.
apply_command-noted :
    (sk : ShardKv) (command : Command) (client_id command_id : ℕ) {sk' : ShardKv}
    {r : CommandResponse}
    → apply_command sk command ≡ some (sk', r)
    → noted sk.last_operations client_id command_id ≡ true
    → noted sk'.last_operations client_id command_id ≡ true
unfolding apply_command apply_operation apply_configuration apply_insert_shards apply_delete_shards
apply_command-noted sk (operation request) client_id command_id e h =
    elim (Option-cases (serve sk request (key2shard request.key))) [
      | inl failed ↦ ground arith
      | inr ((a, r), ran) ↦
          let kept = serve-noted sk request (key2shard request.key) client_id command_id ran h in
          ground arith
    ]
apply_command-noted sk (configuration next_config) client_id command_id e h =
    elim (Option-cases (update_shard_status sk next_config)) [
      | inl failed ↦ ground arith
      | inr (a, ran) ↦
          let same = update_shard_status-last_operations sk next_config ran in ground arith
    ]
apply_command-noted sk (insert_shards info) client_id command_id e h =
    let kept =
      merge_operations-noted info.last_operations sk.last_operations client_id command_id h in
    ground arith
apply_command-noted sk (delete_shards info) client_id command_id e h = ground arith
apply_command-noted sk empty_entry client_id command_id e h = ground arith

-- The applier over a sequence of commands, the responses dropped.
unfoldable pub apply_commands : ShardKv → List Command → Option ShardKv
apply_commands sk [] = some sk
apply_commands sk (command ∷ commands) = do
  (sk', r) ← apply_command sk command
  apply_commands sk' commands

apply_commands-noted :
    (sk : ShardKv) (commands : List Command) (client_id command_id : ℕ) {sk' : ShardKv}
    → apply_commands sk commands ≡ some sk'
    → noted sk.last_operations client_id command_id ≡ true
    → noted sk'.last_operations client_id command_id ≡ true
unfolding apply_commands
apply_commands-noted sk [] client_id command_id e h = ground arith
apply_commands-noted sk (command ∷ commands) client_id command_id {sk'} e h =
    elim (Option-cases (apply_command sk command)) [
      | inl failed ↦ ground arith
      | inr ((a, r), ran) ↦
          apply_commands-noted a commands client_id command_id {sk' = sk'}
            (rw (ran, apply_commands) at e)
            (apply_command-noted sk command client_id command_id ran h)
    ]

apply_operation-notes :
    (sk : ShardKv) (request : CommandRequest) {sk' : ShardKv} {r : CommandResponse}
    → apply_operation sk request ≡ some (sk', r)
    → can_serve sk (key2shard request.key) ≡ some true
    → is_get request.op ≡ false
    → noted sk'.last_operations request.client_id request.command_id ≡ true
unfolding apply_operation
apply_operation-notes sk request {sk'} {r} e served h =
    serve-notes sk request (key2shard request.key) {sk' = sk'} {r = r} (ground arith) h

apply_operation-skips :
    (sk : ShardKv) (request : CommandRequest) {sk' : ShardKv} {r : CommandResponse}
    → apply_operation sk request ≡ some (sk', r)
    → is_get request.op ≡ false
    → noted sk.last_operations request.client_id request.command_id ≡ true
    → sk' ≡ sk
unfolding apply_operation
apply_operation-skips sk request {sk'} {r} e h dup =
    elim (Option-cases (serve sk request (key2shard request.key))) [
      | inl failed ↦ ground arith
      | inr ((a, r), ran) ↦
          let same = serve-skips sk request (key2shard request.key) ran h dup in ground arith
    ]

-- Once a put or an append of a client was applied to a shard that the group serves, then after any
-- commands of all kinds, reconfigurations and shard migrations included, a put or an append of the
-- same client with the same number, or a lower one, changes nothing.
pub apply_operation-once :
    (sk : ShardKv) (write again : CommandRequest) (commands : List Command)
    (after before last : ShardKv) (r s : CommandResponse)
    → apply_operation sk write ≡ some (after, r)
    → can_serve sk (key2shard write.key) ≡ some true
    → is_get write.op ≡ false
    → apply_commands after commands ≡ some before
    → apply_operation before again ≡ some (last, s)
    → is_get again.op ≡ false
    → again.client_id ≡ write.client_id
    → again.command_id ≤ write.command_id
    → last ≡ before
apply_operation-once sk write again commands after before last r s one served change between two
      change' who low =
    let first = apply_operation-notes sk write one served change in
    let kept = apply_commands-noted after commands write.client_id write.command_id between first in
    let dup =
      noted-le before.last_operations write.client_id again.command_id write.command_id kept low in
    apply_operation-skips before again two change' (rw who dup)

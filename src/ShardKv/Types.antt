-- ===== src/ShardKv/Types.antt =====
-- The data of shardkv/common.go. A command is one data type in place of a tag with an
-- `interface{}`; `Get` leaves its request's value empty.
use raft_side.Prelude.{ℕ, Bool, true, false, List}
use raft_side.Prelude.Dict.{Dict}
use raft_side.ShardCtrler.Types.{Config}
use raft_side.ShardKv.Strings.{Str, StrMap}

pub data Err : Type 0 where
  ok err_no_key err_wrong_group err_wrong_leader err_out_dated err_timeout err_not_ready : Err

pub data ShardStatus : Type 0 where
  serving pulling be_pulling g_cing : ShardStatus

-- `status == Serving` and the like.
abbrev pub is_status : ShardStatus → ShardStatus → Bool
is_status serving serving = true
is_status pulling pulling = true
is_status be_pulling be_pulling = true
is_status g_cing g_cing = true
is_status _ _ = false

pub data OperationOp : Type 0 where
  op_put op_append op_get : OperationOp

abbrev pub is_get : OperationOp → Bool
is_get op_get = true
is_get _ = false

pub record CommandRequest : Type 0 where
  pub key : Str
  pub value : Str
  pub op : OperationOp
  pub client_id : ℕ
  pub command_id : ℕ

pub record CommandResponse : Type 0 where
  pub err : Err
  pub value : Str

pub record OperationContext : Type 0 where
  pub max_applied_command_id : ℕ
  pub last_response : CommandResponse

-- `OperationContext.deepCopy`
unfoldable pub copy_context : OperationContext → OperationContext
copy_context context = record {
  max_applied_command_id = context.max_applied_command_id;
  last_response = record { err = context.last_response.err; value = context.last_response.value };
}

pub record ShardOperationRequest : Type 0 where
  pub config_num : ℕ
  pub shard_ids : List ℕ

pub record ShardOperationResponse : Type 0 where
  pub err : Err
  pub config_num : ℕ
  pub shards : Dict StrMap
  pub last_operations : Dict OperationContext

pub data Command : Type 0 where
  operation : CommandRequest → Command
  configuration : Config → Command
  insert_shards : ShardOperationResponse → Command
  delete_shards : ShardOperationRequest → Command
  empty_entry : Command

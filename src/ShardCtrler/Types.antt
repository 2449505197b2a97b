-- ===== src/ShardCtrler/Types.antt =====
-- The data of shardctrler/common.go. Group ids and shards are ℕ; the configuration number of a
-- query is ℤ, since a query for -1 asks for the latest.
use Prim.Native.String.{String}
use raft_side.Prelude.{ℕ, ℤ, Bool, true, false, List, [], replicate}
use raft_side.Prelude.Dict.{Dict}

abbrev pub n_shards : ℕ
n_shards = 10

pub record Config : Type 0 where
  pub num : ℕ
  pub shards : List ℕ
  pub groups : Dict (List String)

unfoldable pub default_config : Config
default_config = record { num = 0; shards = replicate n_shards 0; groups = [] }

pub data OperationOp : Type 0 where
  op_join op_leave op_move op_query : OperationOp

abbrev pub is_query : OperationOp → Bool
is_query op_query = true
is_query _ = false

pub data Err : Type 0 where
  ok err_wrong_leader err_timeout : Err

pub record CommandRequest : Type 0 where
  pub servers : Dict (List String)
  pub gids : List ℕ
  pub shard : ℕ
  pub gid : ℕ
  pub num : ℤ
  pub op : OperationOp
  pub client_id : ℕ
  pub command_id : ℕ

pub record CommandResponse : Type 0 where
  pub err : Err
  pub config : Config

pub record OperationContext : Type 0 where
  pub max_applied_command_id : ℕ
  pub last_response : CommandResponse

-- ===== src/ShardKv/Spec.antt =====
-- What a group promises its clients: one map from keys to values, and for each client the last write
-- with its answer. It knows no shards, no configurations and no log.
use raft_side.Prelude.{ℕ, Bool, true, false, Option, none, some, [], ◌++◌, leb, ◌==◌, if◌then◌else◌}
use raft_side.ShardKv.Strings.{Str, same_string}
use raft_side.ShardKv.Types.{
  OperationOp, op_put, op_append, op_get, is_get, ok, err_no_key, err_wrong_group, OperationContext,
  CommandRequest, CommandResponse,
}
use raft_side.ShardKv.Apply.{reply}

pub record KvSpec : Type 0 where
  pub store : Str → Option Str
  pub sessions : ℕ → Option OperationContext

abbrev pub or_empty : Option Str → Str
or_empty none = []
or_empty (some value) = value

-- A read or a write of the map.
abbrev pub spec_op :
    OperationOp → (key value : Str) → (Str → Option Str) → (Str → Option Str) × CommandResponse
spec_op op_put key value s = (λ k. if same_string key k then some value else s k, reply ok)
spec_op op_append key value s =
    (λ k. if same_string key k then some (or_empty (s key) ++ value) else s k, reply ok)
spec_op op_get key value s = (
  s,
  elim (s key) as (λ _. CommandResponse) [
    | none ↦ reply err_no_key
    | some found ↦ record { err = ok; value = found }
  ],
)

-- The answer to a write that was done before.
abbrev pub known : Option OperationContext → (command_id : ℕ) → Option CommandResponse
known none command_id = none
known (some context) command_id =
    if leb command_id context.max_applied_command_id then some context.last_response else none

abbrev pub known_answer : CommandRequest → KvSpec → Option CommandResponse
known_answer request s =
    if is_get request.op then none else known (s.sessions request.client_id) request.command_id

abbrev pub note :
    CommandRequest → CommandResponse → (ℕ → Option OperationContext) → ℕ → Option OperationContext
note request response sessions client_id =
    if is_get request.op
    then sessions client_id
    else (if request.client_id == client_id
        then some (record { max_applied_command_id = request.command_id; last_response = response })
        else sessions client_id)

-- One operation; `served` is whether the group has the key at present.
abbrev pub spec_step : (served : Bool) → CommandRequest → KvSpec → KvSpec × CommandResponse
spec_step false request s = (s, reply err_wrong_group)
spec_step true request s = elim (known_answer request s) as (λ _. KvSpec × CommandResponse) [
  | some response ↦ (s, response)
  | none ↦
      let (store, response) = spec_op request.op request.key request.value s.store in
      (record { store = store; sessions = note request response s.sessions }, response)
]

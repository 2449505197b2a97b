-- ===== src/ShardKv/Client.antt =====
-- shardkv/client.go: the clerk's requests, the loop over the servers of a group, and the loop over
-- configurations. The network is a parameter: at each round, what a named server does with the
-- request. Rounds that are used up leave a loop waiting.
use Prim.Native.String.{String}
use raft_side.Prelude.{
  ℕ, negsuc, ◌+◌, ◌%◌, ◌==◌, Bool, Option, none, some, List, [], ◌∷◌, ◌>>=◌, length, get_elem?,
  if◌then◌else◌,
}
use raft_side.Prelude.Dict.{Dict, lookup, insert}
use raft_side.ShardCtrler.Types.{Config}
use raft_side.ShardCtrler.Client
use raft_side.ShardKv.Strings.{Str}
use raft_side.ShardKv.Types.{
  OperationOp, op_put, op_append, op_get, ok, err_no_key, err_wrong_group, CommandRequest,
  CommandResponse,
}
use raft_side.ShardKv.Shard.{key2shard}

pub record Clerk : Type 0 where
  pub sm : Client.Clerk
  pub config : Config
  pub leader_ids : Dict ℕ
  pub client_id : ℕ
  pub command_id : ℕ

-- `ck.Sm.Query(-1)`, which may leave the clerk waiting.
abbrev pub latest_config : Client.Clerk → List Client.Round → Option (Client.Clerk × Option Config)
latest_config sm rounds = Client.query sm (negsuc 0) rounds

-- `client_id` is what `nrand` draws.
unfoldable pub make_clerk :
    (ctrlers : List Bool) → (client_id : ℕ) → List Client.Round → Option (Option Clerk)
make_clerk ctrlers client_id rounds = do
  (sm, answer) ← latest_config (Client.make_clerk ctrlers) rounds
  elim answer [
    | none ↦ some none
    | some config ↦ some (
        some (record {
          sm = sm;
          config = config;
          leader_ids = [];
          client_id = client_id;
          command_id = 0;
        }))
  ]

-- One round at one server: whether `makeEnd` gives an end with a connection, and what `Call` fills
-- in, `none` where it returns an error.
pub record Attempt : Type 0 where
  pub connected : Bool
  pub response : Option CommandResponse

abbrev pub Round : Type 0
Round = String → CommandRequest → Attempt

-- How an attempt is taken: the call returns a value, the group is not the right one, or another
-- server is tried.
pub data Verdict : Type 0 where
  accepted : Str → Verdict
  wrong_group : Verdict
  next_one : Verdict

unfoldable pub judge : Attempt → Verdict
judge attempt =
    if attempt.connected
    then elim attempt.response [
      | none ↦ next_one
      | some response ↦ elim response.err [
        | ok ↦ accepted response.value
        | err_no_key ↦ accepted response.value
        | err_wrong_group ↦ wrong_group
        | _ ↦ next_one
      ]
    ]
    else next_one

-- How the loop over the servers ends.
pub data Tried : Type 0 where
  found : Str → Tried
  gave_up : Tried
  waiting : Tried

unfoldable pub try_servers :
    (servers : List String)
    → (old_leader_id new_leader_id : ℕ) → CommandRequest
    → List Round
    → Option Tried
try_servers servers old new request [] = some waiting
try_servers servers old new request (round ∷ rounds) = do
  server ← get_elem? servers new
  let new' = (new + 1) % length servers
  let later = try_servers servers old new' request rounds
  elim (judge (round server request)) [
    | accepted value ↦ some (found value)
    | wrong_group ↦ some gave_up
    | next_one ↦ if new' == old then some gave_up else later
  ]

-- `if _, ok = ck.leaderIds[gid]; !ok { ck.leaderIds[gid] = 0 }`, and the leader that is then known.
abbrev pub known_leader : Clerk → (gid : ℕ) → Clerk × ℕ
known_leader ck gid = elim (lookup gid ck.leader_ids) [
  | none ↦ (record ck { leader_ids = insert gid 0 ck.leader_ids }, 0)
  | some leader ↦ (ck, leader)
]

-- What one turn of the outer loop gets to see.
pub record Turn : Type 0 where
  pub tries : List Round
  pub queries : List Client.Round

-- The servers of the group that has the key, if the configuration names the group.
unfoldable pub ask_group : Clerk → CommandRequest → List Round → Option (Clerk × Tried)
ask_group ck request rounds = do
  gid ← get_elem? ck.config.shards (key2shard request.key)
  elim (lookup gid ck.config.groups) [
    | none ↦ some (ck, gave_up)
    | some servers ↦ (do
      let (ck', old) = known_leader ck gid
      tried ← try_servers servers old old request rounds
      some (ck', tried))
  ]

unfoldable pub command_loop : Clerk → CommandRequest → List Turn → Option (Clerk × Option Str)
command_loop ck request [] = some (ck, none)
command_loop ck request (turn ∷ turns) = do
  (ck', tried) ← ask_group ck request turn.tries
  elim tried [
    | found value ↦ some (record ck' { command_id = ck'.command_id + 1 }, some value)
    | waiting ↦ some (ck', none)
    | gave_up ↦ (do
      (sm, answer) ← latest_config ck'.sm turn.queries
      elim answer [
        | none ↦ some (record ck' { sm = sm }, none)
        | some config ↦ command_loop (record ck' { sm = sm; config = config }) request turns
      ])
  ]

-- `request.ClientId, request.CommandId = ck.clientId, ck.commandId`
unfoldable pub sign : Clerk → CommandRequest → CommandRequest
sign ck request = record request { client_id = ck.client_id; command_id = ck.command_id }

unfoldable pub command : Clerk → CommandRequest → List Turn → Option (Clerk × Option Str)
command ck request turns = command_loop ck (sign ck request) turns

abbrev pub request_of : (key value : Str) → OperationOp → CommandRequest
request_of key value op = record {
  key = key;
  value = value;
  op = op;
  client_id = 0;
  command_id = 0;
}

unfoldable pub get : Clerk → (key : Str) → List Turn → Option (Clerk × Option Str)
get ck key turns = command ck (request_of key [] op_get) turns

unfoldable pub put : Clerk → (key value : Str) → List Turn → Option (Clerk × Option Str)
put ck key value turns = command ck (request_of key value op_put) turns

unfoldable pub append : Clerk → (key value : Str) → List Turn → Option (Clerk × Option Str)
append ck key value turns = command ck (request_of key value op_append) turns

-- ===== src/ShardCtrler/Client.antt =====
-- shardctrler/client.go: the clerk's requests, and the loop that sends one until it is answered.
-- The network is a parameter: at each round, what a server's end does with the request. Rounds that
-- are used up leave the loop waiting.
use Prim.Native.String.{String}
use raft_side.Prelude.{
  ℕ, ℤ, pos, ◌+◌, ◌%◌, Bool, true, false, not, ◌&&◌, Option, none, some, List, [], ◌∷◌, ◌>>=◌,
  length, get_elem?, set, if◌then◌else◌,
}
use raft_side.Prelude.Dict.{Dict}
use raft_side.ShardCtrler.Types.{
  Config, default_config, OperationOp, op_join, op_leave, op_move, op_query, Err, ok,
  err_wrong_leader, err_timeout, CommandRequest, CommandResponse,
}

-- A server's end is whether it has a connection.
pub record Clerk : Type 0 where
  pub servers : List Bool
  pub leader_id : ℕ
  pub client_id : ℕ
  pub command_id : ℕ

unfoldable pub make_clerk : List Bool → Clerk
make_clerk servers = record { servers = servers; leader_id = 0; client_id = 0; command_id = 0 }

-- One round at one server: whether `MakeEnd` gets a connection, and what `Call` fills in, `none`
-- where it returns an error.
pub record Attempt : Type 0 where
  pub dialled : Bool
  pub response : Option CommandResponse

abbrev pub Round : Type 0
Round = ℕ → CommandRequest → Attempt

-- `var response CommandResponse`, as it is after the call: an error is only printed.
abbrev pub received : Option CommandResponse → CommandResponse
received none = record { err = ok; config = default_config }
received (some response) = response

abbrev pub is_retried : Err → Bool
is_retried err_wrong_leader = true
is_retried err_timeout = true
is_retried ok = false

abbrev pub next_server : Clerk → Clerk
next_server ck = record ck { leader_id = (ck.leader_id + 1) % length ck.servers }

-- A request with the fields that its call sets.
abbrev pub empty_request : OperationOp → CommandRequest
empty_request op = record {
  servers = [];
  gids = [];
  shard = 0;
  gid = 0;
  num = pos 0;
  op = op;
  client_id = 0;
  command_id = 0;
}

-- `request.ClientId, request.CommandId = ck.clientId, ck.commandId`
unfoldable pub sign : Clerk → CommandRequest → CommandRequest
sign ck request = record request { client_id = ck.client_id; command_id = ck.command_id }

unfoldable pub command_loop : Clerk → CommandRequest → List Round → Option (Clerk × Option Config)
command_loop ck request [] = some (ck, none)
command_loop ck request (round ∷ rounds) = do
  connected ← get_elem? ck.servers ck.leader_id
  let attempt = round ck.leader_id request
  let ck' = record ck { servers = set ck.servers ck.leader_id true }
  let response = received attempt.response
  let later = command_loop (next_server ck') request rounds
  if not connected && not attempt.dialled
      then some (ck, some default_config)
      else (if is_retried response.err
          then later
          else some (record ck' { command_id = ck.command_id + 1 }, some response.config))

unfoldable pub command : Clerk → CommandRequest → List Round → Option (Clerk × Option Config)
command ck request rounds = command_loop ck (sign ck request) rounds

unfoldable pub query : Clerk → (num : ℤ) → List Round → Option (Clerk × Option Config)
query ck num rounds = command ck (record (empty_request op_query) { num = num }) rounds

-- The other calls drop the configuration: whether the call returns is left.
abbrev pub returns : Clerk × Option Config → Clerk × Bool
returns (ck, none) = (ck, false)
returns (ck, some config) = (ck, true)

unfoldable pub join : Clerk → Dict (List String) → List Round → Option (Clerk × Bool)
join ck servers rounds = do
  out ← command ck (record (empty_request op_join) { servers = servers }) rounds
  some (returns out)

unfoldable pub leave : Clerk → (gids : List ℕ) → List Round → Option (Clerk × Bool)
leave ck gids rounds = do
  out ← command ck (record (empty_request op_leave) { gids = gids }) rounds
  some (returns out)

unfoldable pub move : Clerk → (shard gid : ℕ) → List Round → Option (Clerk × Bool)
move ck shard gid rounds = do
  out ← command ck (record (empty_request op_move) { shard = shard; gid = gid }) rounds
  some (returns out)

-- ===== src/Tests/KvClerkRuns.antt =====
-- The theorems on shardkv/client.go, at a group of three servers of which the second answers.
use Prim.Native.Nat.{Ordering}
use Prim.Native.String.{String, compare}
use raft_side.Prelude.{
  ℕ, zero, suc, ◌≡◌, ◌≢◌, ◌⊎◌, refl, arith, true, false, some, none, List, [], ◌∷◌, get_elem?,
  length, replicate, ◌==◌, if◌then◌else◌,
}
use raft_side.Prelude.Dict.{lookup, insert}
use raft_side.ShardCtrler.Types.{Config, default_config, n_shards}
use raft_side.ShardCtrler.Types
use raft_side.ShardCtrler.Client
use raft_side.ShardKv.Strings.{Str}
use raft_side.ShardKv.Types.{CommandRequest, CommandResponse, op_get, ok, err_no_key}
use raft_side.ShardKv.Shard.{key2shard}
use raft_side.ShardKv.Client.{
  Clerk, make_clerk, Attempt, Round, sign, request_of, judge, next_one, Tried, found, waiting,
  try_servers, Turn, ask_group, command, command_loop,
}
use raft_side.ShardKv.Tries.{IsAnsweredAt, try_servers-finds, try_servers-ends}
use raft_side.ShardKv.Answers.{command-answered}
use raft_side.ShardKv.Clerks.{IsManned, AnswersManned}
use raft_side.ShardKv.Sessions.{Call, run_calls, IsAnswered, run_calls-numbered}

-- What the runs below compute with.
program : Unit {0}
unfolding lookup insert key2shard judge try_servers sign ask_group command command_loop Client.query
    Client.command Client.command_loop Client.sign default_config
program = tt

abbrev three : Client.Clerk
three = record { servers = false ∷ true ∷ false ∷ []; leader_id = 2; client_id = 0; command_id = 4 }

abbrev manned : Config
manned = record { num = 3; shards = replicate n_shards 1; groups = (1, "a" ∷ "b" ∷ "c" ∷ []) ∷ [] }

abbrev led_by_1 : Client.Round
led_by_1 server request = record {
  dialled = true;
  response = some (
      if server == 1
      then record { err = Types.ok; config = manned }
      else record { err = Types.err_wrong_leader; config = manned });
}

-- A clerk of the store, at the group of the three servers "a", "b" and "c".
abbrev trio : List String
trio = "a" ∷ "b" ∷ "c" ∷ []

abbrev kv_clerk : Clerk
kv_clerk = record { sm = three; config = manned; leader_ids = []; client_id = 9; command_id = 0 }

abbrev get_a : CommandRequest
get_a = request_of (97 ∷ []) [] op_get

-- The second server answers "x", the others have no connection.
abbrev b_answers : Round
b_answers server request = record {
  connected = elim (compare server "b") [ Ordering.eq ↦ true | _ ↦ false ];
  response = some (record { err = ok; value = 120 ∷ [] });
}

abbrev answer_x : Attempt
answer_x = record { connected = true; response = some (record { err = ok; value = 120 ∷ [] }) }

others :
    (j : ℕ) (server : String)
    → j ≢ 1
    → get_elem? trio j ≡ some server
    → judge (b_answers server (sign kv_clerk get_a)) ≡ next_one
unfolding program
others zero server apart at = let same : server ≡ "a" = ground arith in rw same refl
others (suc zero) server apart at = absurd (apart refl)
others (suc (suc zero)) server apart at = let same : server ≡ "c" = ground arith in rw same refl
others (suc (suc (suc j))) server apart at = absurd (ground arith)

b_answers-IsAnsweredAt : IsAnsweredAt trio 1 (sign kv_clerk get_a) (120 ∷ []) b_answers
unfolding program
b_answers-IsAnsweredAt = record {
  answers = λ server at. let same : server ≡ "b" = ground arith in rw same refl;
  passes = others;
}

try_servers-finds_example :
    try_servers trio 2 2 (sign kv_clerk get_a) (b_answers ∷ b_answers ∷ b_answers ∷ [])
    ≡ some (found (120 ∷ []))
try_servers-finds_example =
    try_servers-finds trio 2 1 (sign kv_clerk get_a) (120 ∷ [])
      (b_answers ∷ b_answers ∷ b_answers ∷ []) (omega arith) (omega arith) (omega arith)
      (b_answers-IsAnsweredAt, (b_answers-IsAnsweredAt, (b_answers-IsAnsweredAt, tt)))

-- The controller's answer, if the group has another configuration.
try_servers-ends_example :
    (out : Tried) × (try_servers trio 2 2 get_a (b_answers ∷ b_answers ∷ b_answers ∷ []) ≡ some out)
    × (out ≢ waiting)
try_servers-ends_example =
    try_servers-ends trio 2 get_a (b_answers ∷ b_answers ∷ b_answers ∷ []) (omega arith)
      (omega arith)

-- A turn in which the group answers, and one in which it is asked before no connection is there.
abbrev answering : Turn
answering = record { tries = b_answers ∷ b_answers ∷ []; queries = led_by_1 ∷ [] }

abbrev no_answer : Round
no_answer server request = record { connected = false; response = none }

abbrev silent : Turn
silent = record {
  tries = no_answer ∷ no_answer ∷ no_answer ∷ [];
  queries = led_by_1 ∷ led_by_1 ∷ led_by_1 ∷ [];
}

manned-IsManned : IsManned manned
unfolding lookup
manned-IsManned = record {
  sized = refl;
  manned = λ gid servers at. let same : servers ≡ trio = ground arith in rw same (omega arith);
}

led_by_1-AnswersManned : AnswersManned led_by_1
led_by_1-AnswersManned server request response at =
    let same : response.config ≡ manned = ground arith in rw same manned-IsManned

-- A clerk that is made at a controller whose second server leads, and its two calls.
abbrev new_clerk : Clerk
new_clerk = record {
  sm = record { servers = true ∷ true ∷ false ∷ []; leader_id = 1; client_id = 0; command_id = 1 };
  config = manned;
  leader_ids = [];
  client_id = 9;
  command_id = 0;
}

abbrev two_calls : List Call
two_calls = (get_a, silent ∷ answering ∷ []) ∷ (get_a, answering ∷ []) ∷ []

run_calls-numbered_example :
    (ck' : Clerk) × (values : List Str) × (run_calls new_clerk two_calls ≡ some (ck', values))
    × (ck'.client_id ≡ 9)
    × (ck'.command_id ≡ length values)
    × ((k : ℕ) (value : Str)
        → get_elem? values k ≡ some value
        → (call : Call) × (get_elem? two_calls k ≡ some call) × IsAnswered 9 k call value)
unfolding program make_clerk Client.make_clerk
run_calls-numbered_example =
    run_calls-numbered (false ∷ false ∷ false ∷ []) 9 (led_by_1 ∷ led_by_1 ∷ []) new_clerk two_calls
      (omega arith) (led_by_1-AnswersManned, (led_by_1-AnswersManned, tt)) refl
      (
        (
          (led_by_1-AnswersManned, (led_by_1-AnswersManned, (led_by_1-AnswersManned, tt))),
          ((led_by_1-AnswersManned, tt), tt),
        ),
        (((led_by_1-AnswersManned, tt), tt), tt),
      )

abbrev served_clerk : Clerk
served_clerk = record kv_clerk {
  sm = record { servers = true ∷ true ∷ true ∷ []; leader_id = 1; client_id = 0; command_id = 5 };
  leader_ids = (1, 0) ∷ [];
  command_id = 1;
}

command-answered_example :
    (t j : ℕ) × (turn : Turn) × (round : Round) × (server : String) × (response : CommandResponse)
    × (get_elem? (silent ∷ answering ∷ []) t ≡ some turn)
    × (get_elem? turn.tries j ≡ some round)
    × ((round server (sign kv_clerk get_a)).response ≡ some response)
    × ((response.err ≡ ok) ⊎ (response.err ≡ err_no_key))
    × (◌≡◌ {A = Str} (120 ∷ []) response.value)
unfolding program
command-answered_example =
    command-answered kv_clerk get_a (silent ∷ answering ∷ []) served_clerk (120 ∷ []) refl

-- Both calls return, the first in its second turn.
two_calls_run :
    (ck' : Clerk) × (run_calls new_clerk two_calls ≡ some (ck', (120 ∷ []) ∷ (120 ∷ []) ∷ []))
unfolding program run_calls
two_calls_run = (
  record new_clerk {
    sm = record {
      servers = true ∷ true ∷ false ∷ [];
      leader_id = 1;
      client_id = 0;
      command_id = 2;
    };
    leader_ids = (1, 0) ∷ [];
    command_id = 2;
  },
  refl,
)

-- ===== src/Tests/ClerkRuns.antt =====
-- The theorems on shardctrler/client.go, at three servers of which the second leads.
use raft_side.Prelude.{
  ℕ, ◌≡◌, refl, arith, true, false, some, none, [], ◌∷◌, get_elem?, replicate, ◌==◌, if◌then◌else◌,
}
use raft_side.ShardCtrler.Types.{
  Config, default_config, n_shards, CommandRequest, op_query, ok, err_wrong_leader,
}
use raft_side.ShardCtrler.Client.{
  Clerk, make_clerk, Round, sign, empty_request, command, command_loop,
}
use raft_side.ShardCtrler.Retry.{IsLedBy, Answers, command-Answers, command-finds_leader}

-- What the runs below compute with.
program : Unit {0}
unfolding make_clerk sign command command_loop default_config
program = tt

abbrev three : Clerk
three = record { servers = false ∷ true ∷ false ∷ []; leader_id = 2; client_id = 0; command_id = 4 }

abbrev latest : Config
latest = record { num = 3; shards = replicate n_shards 1; groups = [] }

-- The second server answers, the others send the clerk on.
abbrev led_by_1 : Round
led_by_1 server request = record {
  dialled = true;
  response = some (
      if server == 1
      then record { err = ok; config = latest }
      else record { err = err_wrong_leader; config = latest });
}

abbrev ask_latest : CommandRequest
ask_latest = empty_request op_query

led_by_1-IsLedBy : IsLedBy 1 (sign three ask_latest) latest led_by_1
led_by_1-IsLedBy = record {
  reached = λ server. refl;
  answers = refl;
  refuses = λ server apart. ground arith;
}

command-finds_leader_example :
    (ck' : Clerk) × (command three ask_latest (led_by_1 ∷ led_by_1 ∷ led_by_1 ∷ [])
      ≡ some (ck', some latest))
    × (ck'.leader_id ≡ 1)
    × (ck'.command_id ≡ 5)
command-finds_leader_example =
    command-finds_leader 1 latest three ask_latest (led_by_1 ∷ led_by_1 ∷ led_by_1 ∷ [])
      (omega arith) (omega arith) refl
      (led_by_1-IsLedBy, (led_by_1-IsLedBy, (led_by_1-IsLedBy, tt)))

-- A call that fails.
abbrev failing : Round
failing server request = record { dialled = true; response = none }

abbrev after_failure : Clerk
after_failure = record three { servers = false ∷ true ∷ true ∷ []; command_id = 5 }

command-Answers_example :
    (j server : ℕ) × (round : Round) × (get_elem? (failing ∷ []) j ≡ some round)
    × Answers three after_failure default_config (round server (sign three ask_latest))
unfolding program
command-Answers_example =
    command-Answers three ask_latest (failing ∷ []) after_failure default_config (omega arith) refl

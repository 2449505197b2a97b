-- ===== src/ShardKv/Configure.antt =====
-- When `configureAction` of shardkv/server.go proposes a configuration.
use raft_side.Prelude.{
  ℕ, ◌+◌, ℤ, pos, ◌≡◌, refl, inl, inr, arith, true, some, [], ◌∷◌, Bool-cases, ◌==◌,
}
use raft_side.Prelude.Dict.{Dict, lookup, Distinct}
use raft_side.ShardCtrler.Types.{Config}
use raft_side.ShardKv.Types.{serving, is_status, ShardStatus, Command, configuration}
use raft_side.ShardKv.Shard.{Shard}
use raft_side.ShardKv.State.{ShardKv}
use raft_side.ShardKv.Monitor.{all_serving, configure_action}

is_status-serving : (s : ShardStatus) → is_status s serving ≡ true → s ≡ serving
is_status-serving s h = ground arith

all_serving-lookup :
    (machines : Dict Shard) (i : ℕ) (shard : Shard)
    → all_serving machines ≡ true
    → lookup i machines ≡ some shard
    → shard.status ≡ serving
unfolding all_serving lookup
all_serving-lookup [] i shard h at = absurd (ground arith)
all_serving-lookup ((j, s) ∷ machines) i shard h at = elim (Bool-cases (j == i)) [
  | inl same ↦
      let this : s ≡ shard = ground arith in
      let is : is_status s.status serving ≡ true = ground arith in
      rw this at (is_status-serving s.status is)
  | inr other ↦ all_serving-lookup machines i shard (ground arith) (ground arith)
]

lookup-all_serving :
    (machines : Dict Shard)
    → Distinct machines
    → ((i : ℕ) (shard : Shard) → lookup i machines ≡ some shard → shard.status ≡ serving)
    → all_serving machines ≡ true
unfolding all_serving lookup
lookup-all_serving [] h f = refl
lookup-all_serving ((j, s) ∷ machines) (new, h) f =
    let first : s.status ≡ serving = f j s (ground arith) in
    let rest = lookup-all_serving machines h (λ i shard at. f i shard (ground arith)) in
    ground arith

-- The configuration monitor proposes a configuration only if the group serves every shard that it
-- holds, and then the one that the controller answered for the next number, if it has that number; and
-- in that case it does propose it.
pub configure_action_lem :
    (sk : ShardKv) (query : ℤ → Config)
    → Distinct sk.state_machines
    → ((command : Command)
        → configure_action sk query ≡ some (some command)
        → (command ≡ configuration (query (pos (sk.current_config.num + 1))))
          × ((query (pos (sk.current_config.num + 1))).num ≡ sk.current_config.num + 1)
          × ((i : ℕ) (shard : Shard)
              → lookup i sk.state_machines ≡ some shard
              → shard.status ≡ serving))
      × (((i : ℕ) (shard : Shard)
            → lookup i sk.state_machines ≡ some shard
            → shard.status ≡ serving)
          → (query (pos (sk.current_config.num + 1))).num ≡ sk.current_config.num + 1
          → configure_action sk query
            ≡ some (some (configuration (query (pos (sk.current_config.num + 1))))))
unfolding configure_action
configure_action_lem sk query h = (
  λ command e. elim (Bool-cases (all_serving sk.state_machines)) [
    | inl all ↦ (
      ground arith,
      ground arith,
      λ i shard at. all_serving-lookup sk.state_machines i shard all at,
    )
    | inr busy ↦ absurd (ground arith)
  ],
  λ all num. let settled = lookup-all_serving sk.state_machines h all in ground arith,
)

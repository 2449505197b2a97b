-- ===== src/Tests/CtrlerRuns.antt =====
-- The theorems on the package shardctrler, at a controller that a group joins.
use mathlib.Core.List.Perm
use raft_side.Prelude.{
  ℕ, zero, suc, pos, ◌≡◌, refl, arith, some, List, [], ◌∷◌, get_elem?, replicate, ◌≤◌, All,
}
use raft_side.Prelude.Dict.{Dict, lookup, insert, delete}
use raft_side.ShardCtrler.Types.{Config, default_config, n_shards, CommandRequest, op_join, ok}
use raft_side.ShardCtrler.Machine.{
  MapOrder, join, leave, join_config, leave_config, last_config, balance, group2_shards, assign,
  add_groups, deep_copy, min_from, max_from, get_gid_with_minimum_shards,
  get_gid_with_maximum_shards, move_shard, is_balanced, remove_groups, place_orphans, query,
}
use raft_side.ShardCtrler.Server.{
  ShardCtrler, apply_command, apply_log_to_state_machine, run_op, is_duplicate_request, done,
}
use raft_side.ShardCtrler.Placed.{IsPlaced, apply_command-IsPlaced}
use raft_side.ShardCtrler.Ends.{settling, balance-ends}
use raft_side.ShardCtrler.Exact.{apply_commands, apply_command-once}
use raft_side.ShardCtrler.Chain.{IsChain, apply_command-IsChain}

-- A map visited in the order of its entries.
abbrev in_order : MapOrder
in_order = record { visit = λ t m. m; visit-perm = λ t m. Perm.rfl }

-- What the runs below compute with.
program : Unit {0}
unfolding lookup insert delete default_config join leave join_config leave_config last_config
    balance group2_shards assign add_groups deep_copy min_from max_from get_gid_with_minimum_shards
    get_gid_with_maximum_shards move_shard is_balanced remove_groups place_orphans query
    apply_command apply_log_to_state_machine run_op is_duplicate_request apply_commands
program = tt

abbrev new_ctrler : ShardCtrler
new_ctrler = record {
  state_machine = record { num = 0; shards = replicate n_shards 0; groups = [] } ∷ [];
  last_operations = [];
  notify_chans = [];
}

-- Group 1 joins: it gets five shards, and five stay with group 0, which is no group.
abbrev join_1 : CommandRequest
join_1 = record {
  servers = (1, "a" ∷ []) ∷ [];
  gids = [];
  shard = 0;
  gid = 0;
  num = pos 0;
  op = op_join;
  client_id = 0;
  command_id = 1;
}

abbrev after_join : List ℕ
after_join = 1 ∷ 1 ∷ 1 ∷ 1 ∷ 1 ∷ 0 ∷ 0 ∷ 0 ∷ 0 ∷ 0 ∷ []

abbrev joined : ShardCtrler
joined = record {
  state_machine =
      record { num = 0; shards = replicate n_shards 0; groups = [] }
      ∷ record { num = 1; shards = after_join; groups = (1, "a" ∷ []) ∷ [] }
      ∷ [];
  last_operations = (0, record { max_applied_command_id = 1; last_response = done ok }) ∷ [];
  notify_chans = [];
}

join_runs : apply_command in_order 20 new_ctrler join_1 ≡ some (joined, done ok)
unfolding program
join_runs = refl

apply_command-once_example : joined ≡ joined
unfolding program
apply_command-once_example =
    apply_command-once in_order 20 new_ctrler join_1 join_1 [] joined joined joined (done ok)
      (done ok) refl refl refl refl refl refl (omega arith)

new_ctrler-IsChain : IsChain new_ctrler.state_machine
new_ctrler-IsChain = record { nonempty = omega arith; numbered = only }
  where
    only : (i : ℕ) (c : Config) → get_elem? new_ctrler.state_machine i ≡ some c → c.num ≡ i
    only zero c at = ground arith
    only (suc i) c at = absurd (ground arith)

apply_command-IsChain_example :
    IsChain joined.state_machine
    × ((i : ℕ) (c : Config)
        → get_elem? new_ctrler.state_machine i ≡ some c
        → get_elem? joined.state_machine i ≡ some c)
apply_command-IsChain_example =
    apply_command-IsChain in_order 20 new_ctrler join_1 joined (done ok) new_ctrler-IsChain
      join_runs

new_ctrler-IsPlaced : All IsPlaced new_ctrler.state_machine
new_ctrler-IsPlaced = (record { sized = refl; placed = refl }, tt)

apply_command-IsPlaced_example : All IsPlaced joined.state_machine
apply_command-IsPlaced_example =
    apply_command-IsPlaced in_order 20 new_ctrler join_1 joined (done ok) new_ctrler-IsPlaced
      (λ last moves at. absurd (ground arith)) join_runs

-- Group 2 joins where group 1 has all ten shards.
abbrev second_join : Config
second_join = record {
  num = 2;
  shards = replicate n_shards 1;
  groups = (1, "a" ∷ []) ∷ (2, "b" ∷ []) ∷ [];
}

abbrev five_each : Dict (List ℕ)
five_each = (2, 0 ∷ 1 ∷ 2 ∷ 3 ∷ 4 ∷ []) ∷ (1, 5 ∷ 6 ∷ 7 ∷ 8 ∷ 9 ∷ []) ∷ []

balance-ends_example :
    (enough : ℕ) × ((rounds : ℕ)
      → enough ≤ rounds
      → (g2s : Dict (List ℕ)) × (balance (settling in_order 4) rounds 0 (group2_shards second_join)
          ≡ some g2s))
balance-ends_example = balance-ends in_order 4 second_join refl

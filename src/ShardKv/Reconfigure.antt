-- ===== src/ShardKv/Reconfigure.antt =====
-- What a new configuration does to a group's shards.
use raft_side.Prelude.{
  ℕ, zero, suc, ◌+◌, ◌≤◌, ◌<◌, ◌≡◌, ◌≢◌, inl, inr, arith, ◌∙◌, not, ◌&&◌, ◌||◌, some, List, ◌⊎◌,
  ◌==◌, get_elem?, if◌then◌else◌, Option-cases, Bool-cases,
}
use raft_side.Prelude.Dict.{Dict, lookup, lookup-insert}
use raft_side.ShardCtrler.Types.{Config, n_shards}
use raft_side.ShardKv.Types.{pulling, be_pulling, CommandResponse, err_out_dated}
use raft_side.ShardKv.Shard.{Shard}
use raft_side.ShardKv.State.{ShardKv}
use raft_side.ShardKv.Apply.{
  apply_configuration, update_one, update_from, update_shard_status, next_status, reply,
}

-- A shard after its group goes from `old` to `new`, in the group `gid`: to be pulled if it comes
-- from another group, to be pulled from if it goes to one. Group 0 is none.
abbrev pub reconfigured : (gid old new : ℕ) → Shard → Shard
reconfigured gid old new shard =
    if new == gid
    then (if old == gid || old == 0 then shard else record shard { status = pulling })
    else (if old == gid && not (new == 0) then record shard { status = be_pulling } else shard)

update_one-here :
    (i gid old new : ℕ) (machines : Dict Shard) (shard : Shard) {machines' : Dict Shard}
    → update_one i gid old new machines ≡ some machines'
    → lookup i machines ≡ some shard
    → lookup i machines' ≡ some (reconfigured gid old new shard)
unfolding update_one next_status
update_one-here i gid old new machines shard e at =
    ground (arith, lookup-insert i i (record shard { status = next_status gid old new }) machines)

update_one-other :
    (i gid old new j : ℕ) (machines : Dict Shard) {machines' : Dict Shard}
    → update_one i gid old new machines ≡ some machines'
    → i ≢ j
    → lookup j machines' ≡ lookup j machines
unfolding update_one
update_one-other i gid old new j machines e h = elim (Option-cases (lookup i machines)) [
  | inl missing ↦ ground arith
  | inr (s, found) ↦
      ground (arith, lookup-insert i j (record s { status = next_status gid old new }) machines)
]

module _ (gid : ℕ) (current next : List ℕ) (j : ℕ) where
  update_from-before :
      (count i : ℕ) (machines : Dict Shard) {machines' : Dict Shard}
      → update_from count i gid current next machines ≡ some machines'
      → j < i
      → lookup j machines' ≡ lookup j machines
  unfolding update_from
  update_from-before zero i machines e h = ground arith
  update_from-before (suc count) i machines {machines'} e h =
      elim (Option-cases (get_elem? current i)) [
        | inl failed ↦ absurd (ground arith)
        | inr (old, was) ↦ elim (Option-cases (get_elem? next i)) [
          | inl failed ↦ absurd (ground arith)
          | inr (new, is) ↦ elim (Option-cases (update_one i gid old new machines)) [
            | inl failed ↦ absurd (ground arith)
            | inr (m, one) ↦
                update_from-before count (i + 1) m {machines' = machines'} (ground arith)
                  (omega arith)
                ∙ update_one-other i gid old new j machines one (ground arith)
          ]
        ]
      ]

  update_from-at :
      (count i : ℕ) (machines : Dict Shard) (old new : ℕ) (shard : Shard) {machines' : Dict Shard}
      → update_from count i gid current next machines ≡ some machines'
      → i ≤ j
      → j < i + count
      → get_elem? current j ≡ some old
      → get_elem? next j ≡ some new
      → lookup j machines ≡ some shard
      → lookup j machines' ≡ some (reconfigured gid old new shard)
  unfolding update_from
  update_from-at zero i machines old new shard e low high was is at = absurd (omega arith)
  update_from-at (suc count) i machines old new shard {machines'} e low high was is at =
      elim (Bool-cases (i == j)) [
        | inl here ↦
            let same : i ≡ j = ground arith in
            elim (Option-cases (update_one j gid old new machines)) [
              | inl failed ↦ absurd (ground arith)
              | inr (m, one) ↦
                  update_from-before count (i + 1) m {machines' = machines'} (ground arith)
                    (omega arith)
                  ∙ update_one-here j gid old new machines shard one at
            ]
        | inr further ↦
            let other : i ≢ j = ground arith in
            elim (Option-cases (get_elem? current i)) [
              | inl failed ↦ absurd (ground arith)
              | inr (a, a_at) ↦ elim (Option-cases (get_elem? next i)) [
                | inl failed ↦ absurd (ground arith)
                | inr (b, b_at) ↦ elim (Option-cases (update_one i gid a b machines)) [
                  | inl failed ↦ absurd (ground arith)
                  | inr (m, one) ↦
                      update_from-at count (i + 1) m old new shard {machines' = machines'}
                        (ground arith) (omega arith) (omega arith) was is
                        (update_one-other i gid a b j machines one other ∙ at)
                ]
              ]
            ]
      ]

-- Applying a configuration, where it does not panic: the next one becomes the group's, with the
-- group's one as the last, and each of the shards is as the change of its group has it; any other
-- one is refused as outdated, and changes nothing.
pub apply_configuration_lem :
    (sk : ShardKv) (next_config : Config) (sk' : ShardKv) (r : CommandResponse)
    → apply_configuration sk next_config ≡ some (sk', r)
    → ((next_config.num ≡ sk.current_config.num + 1)
        × (sk'.current_config ≡ next_config)
        × (sk'.last_config ≡ sk.current_config)
        × ((j old new : ℕ) (shard : Shard)
            → j < n_shards
            → get_elem? sk.current_config.shards j ≡ some old
            → get_elem? next_config.shards j ≡ some new
            → lookup j sk.state_machines ≡ some shard
            → lookup j sk'.state_machines ≡ some (reconfigured sk.gid old new shard)))
      ⊎ ((next_config.num ≢ sk.current_config.num + 1) × (sk' ≡ sk) × (r ≡ reply err_out_dated))
unfolding apply_configuration update_shard_status
apply_configuration_lem sk next_config sk' r e =
    elim (Bool-cases (next_config.num == sk.current_config.num + 1)) [
      | inl next ↦
          elim (Option-cases (
            update_from n_shards 0 sk.gid sk.current_config.shards next_config.shards
              sk.state_machines)) [
                | inl failed ↦ absurd (ground arith)
                | inr (m, ran) ↦ inl (
                  ground arith,
                  ground arith,
                  ground arith,
                  λ j old new shard low was is at.
                      let here =
                        update_from-at sk.gid sk.current_config.shards next_config.shards j n_shards
                          0 sk.state_machines old new shard ran (omega arith) (omega arith) was is
                          at in
                      ground arith,
                )
              ]
      | inr other ↦ inr (ground arith, ground arith, ground arith)
    ]

-- ===== src/ShardCtrler/Placed.antt =====
-- Where shards lie: with group 0, which is no group, or with a group of the configuration.
use Prim.Native.String.{String}
use raft_side.Prelude.{
  ℕ, ◌-◌, ◌≡◌, refl, arith, true, some, List, [], ◌∷◌, ◌++◌, inl, inr, ◌∙◌, Option-cases, set?,
  replicate, length, length-replicate, All, All-get_elem?,
}
use raft_side.Prelude.Dict.{Dict}
use raft_side.ShardCtrler.Types.{
  Config, n_shards, CommandRequest, CommandResponse, OperationOp, op_join, op_leave, op_move,
  op_query,
}
use raft_side.ShardCtrler.Machine.{
  MapOrder, deep_copy, add_groups, group2_shards, assign, balance, remove_groups, place_orphans,
  join_config, leave_config, move_config, join, leave, move, last_config,
}
use raft_side.ShardCtrler.Server.{run_op, ShardCtrler, apply_command}
use raft_side.ShardCtrler.Chain.{apply_command-run_op}
use raft_side.ShardCtrler.Keys.{
  all_keys, balance-keys, place_orphans-keys, all_entries, all_entries-replicate, all_entries-set?,
}
use raft_side.ShardCtrler.Named.{
  is_named, deep_copy-named, add_groups-named, group2_shards-keys, assign-entries,
  remove_groups-keys, all_entries-weaken,
}

-- A configuration has a group for each of the shards, among its own and group 0.
pub record IsPlaced (config : Config) : Type 0 where
  pub sized : length config.shards ≡ n_shards
  pub placed : all_entries (is_named config.groups) config.shards ≡ true

last_config-IsPlaced :
    (configs : List Config) {last : Config}
    → All IsPlaced configs
    → last_config configs ≡ some last
    → IsPlaced last
unfolding last_config
last_config-IsPlaced configs h e = All-get_elem? IsPlaced configs (length configs - 1) h e

assign-IsPlaced :
    (groups : Dict (List String)) (d : Dict (List ℕ)) {shards : List ℕ}
    → all_keys (is_named groups) d ≡ true
    → assign d (replicate n_shards 0) ≡ some shards
    → (all_entries (is_named groups) shards ≡ true) × (length shards ≡ n_shards)
assign-IsPlaced groups d {shards} h e =
    let p = is_named groups in
    let (ok, size) =
      assign-entries p d (replicate n_shards 0) {ys = shards} h
        (all_entries-replicate p n_shards 0 refl) e in
    (ok, size ∙ length-replicate {A = ℕ} n_shards 0)

record-IsPlaced :
    (num : ℕ) (groups : Dict (List String)) (shards : List ℕ) {config : Config}
    → (all_entries (is_named groups) shards ≡ true) × (length shards ≡ n_shards)
    → config ≡ record { num = num; shards = shards; groups = groups }
    → IsPlaced config
record-IsPlaced num groups shards (ok, size) same =
    let placed : IsPlaced (record { num = num; shards = shards; groups = groups }) = record {
      sized = size;
      placed = ok;
    } in
    rw same placed

module _ (order : MapOrder) (rounds : ℕ) where
  join_config-IsPlaced :
      (configs : List Config) (joining : Dict (List String)) {config : Config}
      → All IsPlaced configs
      → join_config order rounds configs joining ≡ some config
      → IsPlaced config
  unfolding join_config
  join_config-IsPlaced configs joining {config} h e = elim (Option-cases (last_config configs)) [
    | inl panics ↦ absurd (ground arith)
    | inr (last, at) ↦
        let old = last_config-IsPlaced configs h at in
        let groups = add_groups joining (deep_copy last.groups) in
        let joined : Config = record {
          num = length configs;
          shards = last.shards;
          groups = groups;
        } in
        let kept : all_entries (is_named groups) last.shards ≡ true =
          all_entries-weaken (is_named last.groups) (is_named groups) last.shards
            (λ j named.
              add_groups-named joining (deep_copy last.groups) j
                (deep_copy-named last.groups j ∙ named))
            old.placed in
        elim (Option-cases (balance order rounds 0 (group2_shards joined))) [
          | inl stuck ↦ absurd (ground arith)
          | inr (g2s, even) ↦
              let keys =
                balance-keys order (is_named groups) refl rounds 0 (group2_shards joined)
                  (group2_shards-keys joined kept) even in
              elim (Option-cases (assign g2s (replicate n_shards 0))) [
                | inl past ↦ absurd (ground arith)
                | inr (shards, made) ↦
                    record-IsPlaced (length configs) groups shards
                      (assign-IsPlaced groups g2s {shards = shards} keys made) (ground arith)
              ]
        ]
  ]

  leave_config-IsPlaced :
      (configs : List Config) (gids : List ℕ) {config : Config}
      → All IsPlaced configs
      → leave_config order configs gids ≡ some config
      → IsPlaced config
  unfolding leave_config
  leave_config-IsPlaced configs gids {config} h e = elim (Option-cases (last_config configs)) [
    | inl panics ↦ absurd (ground arith)
    | inr (last, at) ↦
        let old = last_config-IsPlaced configs h at in
        let copied : Config = record last { groups = deep_copy last.groups } in
        let kept : all_entries (is_named copied.groups) last.shards ≡ true =
          all_entries-weaken (is_named last.groups) (is_named copied.groups) last.shards
            (λ j named. deep_copy-named last.groups j ∙ named) old.placed in
        let out = remove_groups order gids copied.groups (group2_shards copied) [] in
        let keys = place_orphans-keys order (is_named out.0) refl 0 (out.2) (out.1) (
          remove_groups-keys order gids copied.groups (group2_shards copied) []
            (group2_shards-keys copied kept)) in
        let given = place_orphans order 0 (out.2) (out.1) in
        elim (out.0) as (λ groups. out.0 ≡ groups → IsPlaced config) [
          | [] ↦ λ q.
              record-IsPlaced (length configs) (out.0) (replicate n_shards 0)
                (
                  all_entries-replicate (is_named out.0) n_shards 0 refl,
                  length-replicate {A = ℕ} n_shards 0,
                )
                (ground arith)
          | group ∷ rest ↦ λ q. elim (Option-cases (assign given (replicate n_shards 0))) [
            | inl past ↦ absurd (ground arith)
            | inr (shards, made) ↦
                record-IsPlaced (length configs) (out.0) shards
                  (assign-IsPlaced (out.0) given {shards = shards} keys made) (ground arith)
          ]
        ]
          refl
  ]

move_config-IsPlaced :
    (configs : List Config) (shard gid : ℕ) {last config : Config}
    → All IsPlaced configs
    → last_config configs ≡ some last
    → is_named last.groups gid ≡ true
    → move_config configs shard gid ≡ some config
    → IsPlaced config
unfolding move_config
move_config-IsPlaced configs shard gid {last} {config} h at named e =
    let old = last_config-IsPlaced configs {last = last} h at in
    let groups = deep_copy last.groups in
    elim (Option-cases (set? last.shards shard gid)) [
      | inl past ↦ absurd (ground arith)
      | inr (shards, made) ↦
          let kept =
            all_entries-weaken (is_named last.groups) (is_named groups) last.shards
              (λ j is. deep_copy-named last.groups j ∙ is) old.placed in
          let (ok, size) =
            all_entries-set? (is_named groups) last.shards shard gid {ys = shards}
              (deep_copy-named last.groups gid ∙ named) kept made in
          record-IsPlaced (length configs) groups shards (ok, size ∙ old.sized) (ground arith)
    ]

move_config-last :
    (configs : List Config) (shard gid : ℕ) {config : Config}
    → move_config configs shard gid ≡ some config
    → (last : Config) × (last_config configs ≡ some last)
unfolding move_config
move_config-last configs shard gid e = elim (Option-cases (last_config configs)) [
  | inl panics ↦ absurd (ground arith)
  | inr found ↦ found
]

All-append :
    {A : Type 0} (P : A → Type 0) (xs : List A) (x : A) → All P xs → P x → All P (xs ++ x ∷ [])
All-append P [] x h p = (p, tt)
All-append P (y ∷ ys) x (q, h) p = (q, All-append P ys x h p)

-- A move names a group of the latest configuration.
abbrev pub MovesToNamed : List Config → CommandRequest → Type 0
MovesToNamed configs command =
    (last : Config)
    → command.op ≡ op_move
    → last_config configs ≡ some last
    → is_named last.groups command.gid ≡ true

module _ (order : MapOrder) (rounds : ℕ) where
  run_op-IsPlaced :
      (op : OperationOp) (configs : List Config) (command : CommandRequest) {configs' : List Config}
      {r : CommandResponse}
      → All IsPlaced configs
      → ((last : Config)
          → op ≡ op_move
          → last_config configs ≡ some last
          → is_named last.groups command.gid ≡ true)
      → run_op order rounds op configs command ≡ some (configs', r)
      → All IsPlaced configs'
  unfolding run_op join leave move
  run_op-IsPlaced op_join configs command {configs'} h named e =
      elim (Option-cases (join_config order rounds configs command.servers)) [
        | inl failed ↦ absurd (ground arith)
        | inr (c, ran) ↦
            let same : configs' ≡ configs ++ c ∷ [] = ground arith in
            rw same (
              All-append IsPlaced configs c h
                (join_config-IsPlaced order rounds configs command.servers {config = c} h ran))
      ]
  run_op-IsPlaced op_leave configs command {configs'} h named e =
      elim (Option-cases (leave_config order configs command.gids)) [
        | inl failed ↦ absurd (ground arith)
        | inr (c, ran) ↦
            let same : configs' ≡ configs ++ c ∷ [] = ground arith in
            rw same (
              All-append IsPlaced configs c h
                (leave_config-IsPlaced order rounds configs command.gids {config = c} h ran))
      ]
  run_op-IsPlaced op_move configs command {configs'} h named e =
      elim (Option-cases (move_config configs command.shard command.gid)) [
        | inl failed ↦ absurd (ground arith)
        | inr (c, ran) ↦
            let same : configs' ≡ configs ++ c ∷ [] = ground arith in
            let (last, at) = move_config-last configs command.shard command.gid ran in
            rw same (
              All-append IsPlaced configs c h (
                move_config-IsPlaced configs command.shard command.gid {last = last} {config = c} h
                  at (named last refl at) ran))
      ]
  run_op-IsPlaced op_query configs command {configs'} h named e =
      let same : configs' ≡ configs = ground arith in rw same h

  -- Every configuration assigns ten shards, each to group 0 or to one of its own groups: a join, a
  -- leave, a query, and a move to group 0 or to a group of the latest configuration keep it so. In
  -- particular no shard stays with a group that has left.
  pub apply_command-IsPlaced :
      (sc : ShardCtrler) (command : CommandRequest) (sc' : ShardCtrler) (r : CommandResponse)
      → All IsPlaced sc.state_machine
      → MovesToNamed sc.state_machine command
      → apply_command order rounds sc command ≡ some (sc', r)
      → All IsPlaced sc'.state_machine
  apply_command-IsPlaced sc command sc' r h named e =
      elim (apply_command-run_op order rounds sc command e) [
        | inl kept ↦ rw kept h
        | inr (s, ran) ↦ run_op-IsPlaced command.op sc.state_machine command h named ran
      ]

-- ===== src/ShardKv/Migration.antt =====
-- What a reconfiguration and the insertion and the deletion of shards do to each shard.
use raft_side.Prelude.{
  ℕ, ◌≡◌, refl, ap, ◌≢◌, inl, inr, arith, false, some, List, [], ◌∷◌, ◌⊎◌, ◌==◌, Option-cases,
  Bool-cases,
}
use raft_side.Prelude.Dict.{Dict, lookup, insert, lookup-insert}
use raft_side.ShardKv.Strings.{StrMap}
use raft_side.ShardKv.Types.{
  serving, pulling, be_pulling, g_cing, is_status, CommandResponse, ShardOperationRequest,
  ShardOperationResponse, ok, err_out_dated,
}
use raft_side.ShardKv.Shard.{Shard, new_shard}
use raft_side.ShardKv.State.{ShardKv}
use raft_side.ShardKv.Apply.{
  apply_insert_shards, apply_delete_shards, insert_all, delete_all, reply, filled,
}

-- A shard that is being pulled may get its entries, and then waits for collection; any other stays.
abbrev pub Inserts : Shard → Shard → Type 0
Inserts old new =
    (new ≡ old) ⊎ ((old.status ≡ pulling) × ((entries : StrMap) × (new ≡ filled entries old)))

-- A shard to be collected may come to be served, and one that was pulled from may be emptied; any
-- other stays.
abbrev pub Deletes : Shard → Shard → Type 0
Deletes old new =
    (new ≡ old)
    ⊎ ((old.status ≡ g_cing) × (new ≡ record old { status = serving }))
    ⊎ ((old.status ≡ be_pulling) × (new ≡ new_shard))

module _ (i : ℕ) (shard : Shard) where
  insert_all-settled :
      (shards : Dict StrMap) (machines : Dict Shard) {machines' : Dict Shard}
      → insert_all shards machines ≡ some machines'
      → lookup i machines ≡ some shard
      → is_status shard.status pulling ≡ false
      → lookup i machines' ≡ some shard
  unfolding insert_all
  insert_all-settled [] machines e at h = ground arith
  insert_all-settled ((j, entries) ∷ shards) machines {machines'} e at h =
      elim (Option-cases (lookup j machines)) [
        | inl missing ↦ absurd (ground arith)
        | inr (s, found) ↦ elim (Bool-cases (is_status s.status pulling)) [
          | inl pulled ↦
              insert_all-settled shards (insert j (filled entries s) machines)
                {machines' = machines'} (ground arith)
                (ground (arith, lookup-insert j i (filled entries s) machines)) h
          | inr other ↦ ground arith
        ]
      ]

  delete_all-settled :
      (ids : List ℕ) (machines : Dict Shard) {machines' : Dict Shard}
      → delete_all ids machines ≡ some machines'
      → lookup i machines ≡ some shard
      → shard.status ≡ serving
      → lookup i machines' ≡ some shard
  unfolding delete_all
  delete_all-settled [] machines e at h = ground arith
  delete_all-settled (j ∷ ids) machines {machines'} e at h =
      elim (Option-cases (lookup j machines)) [
        | inl missing ↦ absurd (ground arith)
        | inr (s, found) ↦ elim (Bool-cases (is_status s.status g_cing)) [
          | inl collected ↦
              let new : Shard = record s { status = serving } in
              delete_all-settled ids (insert j new machines) {machines' = machines'} (ground arith)
                (ground (arith, lookup-insert j i new machines)) h
          | inr kept ↦ elim (Bool-cases (is_status s.status be_pulling)) [
            | inl pulled ↦
                delete_all-settled ids (insert j new_shard machines) {machines' = machines'}
                  (ground arith) (ground (arith, lookup-insert j i new_shard machines)) h
            | inr other ↦ ground arith
          ]
        ]
      ]

new_shard-status : new_shard.status ≡ serving
unfolding new_shard
new_shard-status = refl

module _ (i : ℕ) (shard : Shard) where
  insert_all-Inserts :
      (shards : Dict StrMap) (machines : Dict Shard) {machines' : Dict Shard}
      → insert_all shards machines ≡ some machines'
      → lookup i machines ≡ some shard
      → (new : Shard) × (lookup i machines' ≡ some new) × Inserts shard new
  unfolding insert_all
  insert_all-Inserts [] machines e at = (shard, ground arith, inl refl)
  insert_all-Inserts ((j, entries) ∷ shards) machines {machines'} e at =
      elim (Option-cases (lookup j machines)) [
        | inl missing ↦ absurd (ground arith)
        | inr (s, found) ↦ elim (Bool-cases (is_status s.status pulling)) [
          | inl pulled ↦ elim (Bool-cases (j == i)) [
            | inl same ↦
                let new : Shard = filled entries s in
                let rest : insert_all shards (insert j new machines) ≡ some machines' =
                  ground arith in
                let here : lookup i (insert j new machines) ≡ some new =
                  ground (arith, lookup-insert j i new machines) in
                let name : s ≡ shard = ground arith in
                let was : shard.status ≡ pulling = ground arith in
                let stays =
                  insert_all-settled i new shards (insert j new machines) rest here refl in
                (new, stays, inr (was, (entries, ap (filled entries) name)))
            | inr other ↦
                insert_all-Inserts shards (insert j (filled entries s) machines)
                  {machines' = machines'} (ground arith)
                  (ground (arith, lookup-insert j i (filled entries s) machines))
          ]
          | inr other ↦ (shard, ground arith, inl refl)
        ]
      ]

  delete_all-Deletes :
      (ids : List ℕ) (machines : Dict Shard) {machines' : Dict Shard}
      → delete_all ids machines ≡ some machines'
      → lookup i machines ≡ some shard
      → (new : Shard) × (lookup i machines' ≡ some new) × Deletes shard new
  unfolding delete_all
  delete_all-Deletes [] machines e at = (shard, ground arith, inl refl)
  delete_all-Deletes (j ∷ ids) machines {machines'} e at = elim (Option-cases (lookup j machines)) [
    | inl missing ↦ absurd (ground arith)
    | inr (s, found) ↦ elim (Bool-cases (is_status s.status g_cing)) [
      | inl collected ↦
          let new : Shard = record s { status = serving } in
          let rest : delete_all ids (insert j new machines) ≡ some machines' = ground arith in
          elim (Bool-cases (j == i)) [
            | inl same ↦
                let here : lookup i (insert j new machines) ≡ some new =
                  ground (arith, lookup-insert j i new machines) in
                let name : s ≡ shard = ground arith in
                let was : shard.status ≡ g_cing = ground arith in
                let stays = delete_all-settled i new ids (insert j new machines) rest here refl in
                (
                  new,
                  stays,
                  inr (inl (was, ap {A = Shard} (λ t. record t { status = serving }) name)),
                )
            | inr other ↦
                delete_all-Deletes ids (insert j new machines) {machines' = machines'} rest
                  (ground (arith, lookup-insert j i new machines))
          ]
      | inr kept ↦ elim (Bool-cases (is_status s.status be_pulling)) [
        | inl pulled ↦
            let rest : delete_all ids (insert j new_shard machines) ≡ some machines' =
              ground arith in
            elim (Bool-cases (j == i)) [
              | inl same ↦
                  let here : lookup i (insert j new_shard machines) ≡ some new_shard =
                    ground (arith, lookup-insert j i new_shard machines) in
                  let name : s ≡ shard = ground arith in
                  let was : shard.status ≡ be_pulling = ground arith in
                  let stays =
                    delete_all-settled i new_shard ids (insert j new_shard machines) rest here
                      new_shard-status in
                  (new_shard, stays, inr (inr (was, refl)))
              | inr other ↦
                  delete_all-Deletes ids (insert j new_shard machines) {machines' = machines'} rest
                    (ground (arith, lookup-insert j i new_shard machines))
            ]
        | inr other ↦ (shard, ground arith, inl refl)
      ]
    ]
  ]

-- The insertion of pulled shards, where it does not panic, gives each shard that the group holds
-- entries only where the shard is being pulled, and then leaves it waiting for collection; any
-- other shard stays as it is. For another configuration than the group's, nothing changes.
pub apply_insert_shards_lem :
    (sk : ShardKv) (info : ShardOperationResponse) (sk' : ShardKv) (r : CommandResponse)
    → apply_insert_shards sk info ≡ some (sk', r)
    → ((i : ℕ) (shard : Shard)
        → lookup i sk.state_machines ≡ some shard
        → (new : Shard) × (lookup i sk'.state_machines ≡ some new) × Inserts shard new)
      × (info.config_num ≢ sk.current_config.num → (sk' ≡ sk) × (r ≡ reply err_out_dated))
unfolding apply_insert_shards
apply_insert_shards_lem sk info sk' r e = (
  λ i shard at. elim (Option-cases (insert_all info.shards sk.state_machines)) [
    | inl failed ↦ (shard, ground arith, inl refl)
    | inr (machines, ran) ↦ elim (Bool-cases (info.config_num == sk.current_config.num)) [
      | inl current ↦
          let (new, here, step) = insert_all-Inserts i shard info.shards sk.state_machines ran at in
          (new, ground arith, step)
      | inr other ↦ (shard, ground arith, inl refl)
    ]
  ],
  λ other. ground arith,
)

-- Only where a shard waits for collection does the deletion of shards make it served, and only
-- where it was pulled from does it empty it, where it does not panic; in every other status a shard
-- that the group holds stays as it is. For another configuration than the group's nothing changes. It
-- answers with success in any case.
pub apply_delete_shards_lem :
    (sk : ShardKv) (info : ShardOperationRequest) (sk' : ShardKv) (r : CommandResponse)
    → apply_delete_shards sk info ≡ some (sk', r)
    → ((i : ℕ) (shard : Shard)
        → lookup i sk.state_machines ≡ some shard
        → (new : Shard) × (lookup i sk'.state_machines ≡ some new) × Deletes shard new)
      × (info.config_num ≢ sk.current_config.num → sk' ≡ sk)
      × (r ≡ reply ok)
unfolding apply_delete_shards
apply_delete_shards_lem sk info sk' r e = (
  λ i shard at. elim (Option-cases (delete_all info.shard_ids sk.state_machines)) [
    | inl failed ↦ (shard, ground arith, inl refl)
    | inr (machines, ran) ↦ elim (Bool-cases (info.config_num == sk.current_config.num)) [
      | inl current ↦
          let (new, here, step) =
            delete_all-Deletes i shard info.shard_ids sk.state_machines ran at in
          (new, ground arith, step)
      | inr other ↦ (shard, ground arith, inl refl)
    ]
  ],
  λ other. ground arith,
  ground arith,
)

-- ===== src/ShardKv/Pulls.antt =====
-- Which shards the monitors of shardkv/server.go ask which group for.
use raft_side.Prelude.{
  ℕ, zero, suc, ◌≡◌, inl, inr, arith, Bool, false, not, ◌&&◌, ◌||◌, none, some, List, [], ◌∷◌, ◌++◌,
  ◌==◌, Option-cases, Bool-cases, get_elem?,
}
use raft_side.Prelude.Dict.{Dict, lookup, insert, lookup-insert, Distinct, insert-Distinct}
use raft_side.ShardKv.Types.{ShardStatus, is_status}
use raft_side.ShardKv.Shard.{Shard}
use raft_side.ShardKv.State.{ShardKv, add_id, ids_by_status, get_shard_ids_by_status}
use raft_side.ShardKv.Handover.{requested}

abbrev pub ids_of : Dict (List ℕ) → ℕ → List ℕ
ids_of ids gid = elim (lookup gid ids) [ none ↦ [] | some old ↦ old ]

-- The shard has the status.
abbrev pub has_status : Dict Shard → ShardStatus → ℕ → Bool
has_status machines status i = elim (lookup i machines) [
  | none ↦ false
  | some shard ↦ is_status shard.status status
]

-- The array gives the shard to the group.
abbrev pub belongs_to : List ℕ → ℕ → ℕ → Bool
belongs_to shards gid i = elim (get_elem? shards i) [ none ↦ false | some owner ↦ owner == gid ]

-- A shard with the status, that the array gives to the group, which is not group 0.
abbrev pub wanted : Dict Shard → List ℕ → ShardStatus → (gid i : ℕ) → Bool
wanted machines shards status gid i =
    not (gid == 0) && has_status machines status i && belongs_to shards gid i

requested-append :
    (i j : ℕ) (ids : List ℕ) → requested i (ids ++ j ∷ []) ≡ (requested i ids || j == i)
requested-append i j [] = ground arith
requested-append i j (k ∷ ids) = ground (arith, requested-append i j ids)

add_id-requested :
    (g j gid i : ℕ) (ids : Dict (List ℕ))
    → requested i (ids_of (add_id g j ids) gid)
      ≡ (requested i (ids_of ids gid) || (not (g == 0) && (g == gid && j == i)))
unfolding add_id
add_id-requested zero j gid i ids = ground arith
add_id-requested (suc g) j gid i ids = elim (Option-cases (lookup (suc g) ids)) [
  | inl missing ↦ ground (arith, lookup-insert (suc g) gid (j ∷ []) ids)
  | inr (old, at) ↦
      ground (arith, lookup-insert (suc g) gid (old ++ j ∷ []) ids, requested-append i j old)
]

ids_by_status-requested :
    (status : ShardStatus) (shards : List ℕ) (machines : Dict Shard) (acc : Dict (List ℕ))
    (gid i : ℕ) {out : Dict (List ℕ)}
    → Distinct machines
    → ids_by_status status shards machines acc ≡ some out
    → requested i (ids_of out gid)
      ≡ (requested i (ids_of acc gid) || wanted machines shards status gid i)
unfolding ids_by_status lookup
ids_by_status-requested status shards [] acc gid i h e = ground arith
ids_by_status-requested status shards ((j, shard) ∷ machines) acc gid i {out} (new, h) e =
    elim (Bool-cases (is_status shard.status status)) [
      | inl has ↦ elim (Option-cases (get_elem? shards j)) [
        | inl past ↦ absurd (ground arith)
        | inr (g, at) ↦
            let rest =
              ids_by_status-requested status shards machines (add_id g j acc) gid i {out = out} h
                (ground arith) in
            let added = add_id-requested g j gid i acc in
            elim (Bool-cases (j == i)) [
              | inl same ↦
                  let this : j ≡ i = ground arith in
                  let fresh : lookup i machines ≡ none = ground arith in ground arith
              | inr apart ↦ ground arith
            ]
      ]
      | inr other ↦
          let rest =
            ids_by_status-requested status shards machines acc gid i {out = out} h (ground arith) in
          elim (Bool-cases (j == i)) [
            | inl same ↦
                let this : j ≡ i = ground arith in
                let fresh : lookup i machines ≡ none = ground arith in ground arith
            | inr apart ↦ ground arith
          ]
    ]

-- The map that `getShardIDsByStatus` builds in its loop has shard i under group g just if i has the
-- status, g is not group 0, and g had i in the last configuration; for machines that are a map, and
-- where there is no panic.
pub get_shard_ids_by_status_lem :
    (sk : ShardKv) (status : ShardStatus) (ids : Dict (List ℕ))
    → Distinct sk.state_machines
    → get_shard_ids_by_status sk status ≡ some ids
    → (gid i : ℕ)
    → requested i (ids_of ids gid) ≡ wanted sk.state_machines sk.last_config.shards status gid i
unfolding get_shard_ids_by_status lookup
get_shard_ids_by_status_lem sk status ids h e gid i =
    ids_by_status-requested status sk.last_config.shards sk.state_machines [] gid i h e

add_id-Distinct : (g j : ℕ) (ids : Dict (List ℕ)) → Distinct ids → Distinct (add_id g j ids)
unfolding add_id
add_id-Distinct zero j ids h = h
add_id-Distinct (suc g) j ids h = elim (Option-cases (lookup (suc g) ids)) [
  | inl missing ↦
      let out : add_id (suc g) j ids ≡ insert (suc g) (j ∷ []) ids = ground arith in
      rw out (insert-Distinct (suc g) (j ∷ []) ids h)
  | inr (old, at) ↦
      let out : add_id (suc g) j ids ≡ insert (suc g) (old ++ j ∷ []) ids = ground arith in
      rw out (insert-Distinct (suc g) (old ++ j ∷ []) ids h)
]

ids_by_status-Distinct :
    (status : ShardStatus) (shards : List ℕ) (machines : Dict Shard) (acc : Dict (List ℕ))
    {out : Dict (List ℕ)}
    → Distinct acc
    → ids_by_status status shards machines acc ≡ some out
    → Distinct out
unfolding ids_by_status
ids_by_status-Distinct status shards [] acc {out} h e =
    let same : out ≡ acc = ground arith in rw same h
ids_by_status-Distinct status shards ((j, shard) ∷ machines) acc {out} h e =
    elim (Bool-cases (is_status shard.status status)) [
      | inl has ↦ elim (Option-cases (get_elem? shards j)) [
        | inl past ↦ absurd (ground arith)
        | inr (g, at) ↦
            ids_by_status-Distinct status shards machines (add_id g j acc) {out = out}
              (add_id-Distinct g j acc h) (ground arith)
      ]
      | inr other ↦ ids_by_status-Distinct status shards machines acc {out = out} h (ground arith)
    ]

pub get_shard_ids_by_status-Distinct :
    (sk : ShardKv) (status : ShardStatus) {ids : Dict (List ℕ)}
    → get_shard_ids_by_status sk status ≡ some ids
    → Distinct ids
unfolding get_shard_ids_by_status
get_shard_ids_by_status-Distinct sk status e =
    ids_by_status-Distinct status sk.last_config.shards sk.state_machines [] tt e

-- ===== src/ShardKv/Handover.antt =====
-- What a group hands over to another that pulls its shards.
use raft_side.Prelude.{
  ℕ, ◌≤◌, ◌<◌, ◌≡◌, refl, ap, inl, inr, arith, Bool, true, false, ◌||◌, some, List, [], ◌∷◌, ◌==◌,
  ◌⊎◌, Option-cases, Bool-cases, ltb,
}
use raft_side.Prelude.Dict.{Dict, lookup, insert, lookup-insert}
use raft_side.Raft.Log.{get_state}
use raft_side.ShardKv.Strings.{StrMap}
use raft_side.ShardKv.Types.{
  ok, err_wrong_leader, err_not_ready, OperationContext, copy_context, ShardOperationRequest,
  ShardOperationResponse,
}
use raft_side.ShardKv.Shard.{Shard, deep_copy, copy_entries}
use raft_side.ShardKv.State.{ShardKv}
use raft_side.ShardKv.Server.{get_shards_data, copy_shards, copy_contexts}

-- The list names the shard.
abbrev pub requested : ℕ → List ℕ → Bool
requested i [] = false
requested i (j ∷ ids) = j == i || requested i ids

copy_entries_eq : (kv : StrMap) → copy_entries kv ≡ kv
unfolding copy_entries
copy_entries_eq [] = refl
copy_entries_eq ((k, v) ∷ kv) = ap (λ rest. (k, v) ∷ rest) (copy_entries_eq kv)

deep_copy_eq : (shard : Shard) → deep_copy shard ≡ shard.kv
unfolding deep_copy
deep_copy_eq shard = copy_entries_eq shard.kv

copy_contexts_eq : (contexts : Dict OperationContext) → copy_contexts contexts ≡ contexts
unfolding copy_contexts copy_context
copy_contexts_eq [] = refl
copy_contexts_eq ((c, context) ∷ contexts) =
    ap (λ rest. (c, context) ∷ rest) (copy_contexts_eq contexts)

module _ (machines : Dict Shard) (i : ℕ) (shard : Shard) where
  copy_shards-keeps :
      (ids : List ℕ) (acc : Dict StrMap) {out : Dict StrMap}
      → copy_shards ids machines acc ≡ some out
      → lookup i machines ≡ some shard
      → lookup i acc ≡ some shard.kv
      → lookup i out ≡ some shard.kv
  unfolding copy_shards
  copy_shards-keeps [] acc e at h = ground arith
  copy_shards-keeps (j ∷ ids) acc {out} e at h = elim (Option-cases (lookup j machines)) [
    | inl missing ↦ absurd (ground arith)
    | inr (s, found) ↦
        copy_shards-keeps ids (insert j (deep_copy s) acc) {out = out} (ground arith) at
          (ground (arith, lookup-insert j i (deep_copy s) acc, deep_copy_eq s))
  ]

  copy_shards-requested :
      (ids : List ℕ) (acc : Dict StrMap) {out : Dict StrMap}
      → copy_shards ids machines acc ≡ some out
      → lookup i machines ≡ some shard
      → requested i ids ≡ true
      → lookup i out ≡ some shard.kv
  unfolding copy_shards
  copy_shards-requested [] acc e at h = absurd (ground arith)
  copy_shards-requested (j ∷ ids) acc {out} e at h = elim (Option-cases (lookup j machines)) [
    | inl missing ↦ absurd (ground arith)
    | inr (s, found) ↦
        let rest : copy_shards ids machines (insert j (deep_copy s) acc) ≡ some out =
          ground arith in
        elim (Bool-cases (j == i)) [
          | inl same ↦
              copy_shards-keeps ids (insert j (deep_copy s) acc) {out = out} rest at
                (ground (arith, lookup-insert j i (deep_copy s) acc, deep_copy_eq s))
          | inr other ↦
              copy_shards-requested ids (insert j (deep_copy s) acc) {out = out} rest at
                (ground arith)
        ]
  ]

-- The answer to a group that pulls shards, where there is no panic: a node that does not lead
-- refuses; one that leads and whose configuration is older than the request's is not ready; and one
-- that leads, with a configuration no older, answers with success, the request's configuration, the
-- entries of each shard that was asked for, and the record of all the clients' writes.
pub get_shards_data_lem :
    (sk : ShardKv) (request : ShardOperationRequest) (response : ShardOperationResponse)
    → get_shards_data sk request ≡ some response
    → (((get_state sk.rf).1 ≡ false) × (response.err ≡ err_wrong_leader))
      ⊎ (((get_state sk.rf).1 ≡ true)
          × (sk.current_config.num < request.config_num)
          × (response.err ≡ err_not_ready))
      ⊎ (((get_state sk.rf).1 ≡ true)
          × (request.config_num ≤ sk.current_config.num)
          × (response.err ≡ ok)
          × (response.config_num ≡ request.config_num)
          × (response.last_operations ≡ sk.last_operations)
          × ((i : ℕ) (shard : Shard)
              → requested i request.shard_ids ≡ true
              → lookup i sk.state_machines ≡ some shard
              → lookup i response.shards ≡ some shard.kv))
unfolding get_shards_data
get_shards_data_lem sk request response e = elim (Bool-cases ((get_state sk.rf).1)) [
  | inr follower ↦ inl (follower, ground arith)
  | inl leads ↦ elim (Bool-cases (ltb sk.current_config.num request.config_num)) [
    | inl old ↦ inr (inl (leads, ground arith, ground arith))
    | inr ready ↦ elim (Option-cases (copy_shards request.shard_ids sk.state_machines [])) [
      | inl failed ↦ absurd (ground arith)
      | inr (out, copied) ↦
          let contexts = copy_contexts_eq sk.last_operations in
          inr (
            inr (
              leads,
              ground arith,
              ground arith,
              ground arith,
              ground arith,
              λ i shard asked at.
                  let here =
                    copy_shards-requested sk.state_machines i shard request.shard_ids [] copied at
                      asked in
                  ground arith,
            ))
    ]
  ]
]

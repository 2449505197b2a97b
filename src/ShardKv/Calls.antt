-- ===== src/ShardKv/Calls.antt =====
-- The calls that `migrationAction` and `gcAction` of shardkv/server.go make.
use raft_side.Prelude.{
  ℕ, zero, suc, ◌≡◌, refl, sym, ap, ◌∙◌, inl, inr, arith, true, some, List, [], ◌∷◌, ◌==◌,
  Option-cases, Bool-cases, get_elem?,
}
use raft_side.Prelude.Dict.{Dict, lookup, Distinct}
use Prim.Native.String.{String}
use raft_side.ShardKv.Types.{ShardStatus, ShardOperationRequest}
use raft_side.ShardKv.Monitor.{action_calls, calls_to, servers_of}
use raft_side.ShardKv.State.{ShardKv, get_shard_ids_by_status}
use raft_side.ShardKv.Handover.{requested}
use raft_side.ShardKv.Pulls.{
  ids_of, wanted, get_shard_ids_by_status_lem, get_shard_ids_by_status-Distinct,
}

-- A call is one group's: to its servers, for its shards, at the configuration.
abbrev pub IsCallFor :
    Dict (List String)
    → (config_num : ℕ) → Dict (List ℕ)
    → (gid : ℕ) → List String × ShardOperationRequest
    → Type 0
IsCallFor groups config_num ids gid call =
    (lookup gid ids ≡ some (call.1.shard_ids))
    × (call.0 ≡ servers_of groups gid)
    × (call.1.config_num ≡ config_num)

calls_to_sound :
    (groups : Dict (List String)) (config_num : ℕ) (ids : Dict (List ℕ)) (n : ℕ)
    {call : List String × ShardOperationRequest}
    → Distinct ids
    → get_elem? (calls_to groups config_num ids) n ≡ some call
    → (gid : ℕ) × IsCallFor groups config_num ids gid call
unfolding calls_to lookup
calls_to_sound groups config_num [] n h e = absurd (ground arith)
calls_to_sound groups config_num ((gid, shard_ids) ∷ ids) zero {call} (new, h) e =
    (gid, (ground arith, ground arith, ground arith))
calls_to_sound groups config_num ((gid, shard_ids) ∷ ids) (suc n) {call} (new, h) e =
    let (g, (here, servers, num)) = calls_to_sound groups config_num ids n {call = call} h e in
    (g, (ground arith, servers, num))

calls_to_complete :
    (groups : Dict (List String)) (config_num : ℕ) (ids : Dict (List ℕ)) (gid : ℕ) {is : List ℕ}
    → lookup gid ids ≡ some is
    → (n : ℕ) × (call : List String × ShardOperationRequest) × (get_elem?
          (calls_to groups config_num ids)
          n
        ≡ some call)
      × IsCallFor groups config_num ids gid call
unfolding calls_to lookup
calls_to_complete groups config_num [] gid at = absurd (ground arith)
calls_to_complete groups config_num ((g, shard_ids) ∷ ids) gid {is} at =
    elim (Bool-cases (g == gid)) [
      | inl same ↦
          let this : g ≡ gid = ground arith in
          (
            0,
            (servers_of groups g, record { config_num = config_num; shard_ids = shard_ids }),
            refl,
            (ground arith, ap (servers_of groups) this, refl),
          )
      | inr other ↦
          let (n, call, here, (there, servers, num)) =
            calls_to_complete groups config_num ids gid {is = is} (ground arith) in
          (suc n, call, here, (ground arith, servers, num))
    ]

-- The calls of `migrationAction`, for shards that are pulling, and of `gcAction`, for shards to be
-- collected, where there is no panic: each goes to the servers that one group had in the last
-- configuration, at the number of the current one, and asks only for shards with the status that
-- this group had; and every such shard of a group but 0 is asked for.
pub action_calls_lem :
    (sk : ShardKv) (status : ShardStatus) (calls : List (List String × ShardOperationRequest))
    → Distinct sk.state_machines
    → action_calls status sk ≡ some calls
    → ((n : ℕ) (call : List String × ShardOperationRequest)
        → get_elem? calls n ≡ some call
        → (gid : ℕ) × (call.0 ≡ servers_of sk.last_config.groups gid)
          × (call.1.config_num ≡ sk.current_config.num)
          × ((i : ℕ)
              → requested i (call.1.shard_ids)
                ≡ wanted sk.state_machines sk.last_config.shards status gid i))
      × ((gid i : ℕ)
          → wanted sk.state_machines sk.last_config.shards status gid i ≡ true
          → (n : ℕ) × (call : List String × ShardOperationRequest) × (get_elem? calls n ≡ some call)
            × (call.0 ≡ servers_of sk.last_config.groups gid)
            × (requested i (call.1.shard_ids) ≡ true))
unfolding action_calls
action_calls_lem sk status calls h e = elim (Option-cases (get_shard_ids_by_status sk status)) [
  | inl panics ↦ absurd (ground arith)
  | inr (ids, built) ↦
      let found = get_shard_ids_by_status_lem sk status ids h built in
      let groups = sk.last_config.groups in
      let num = sk.current_config.num in
      let same : calls ≡ calls_to groups num ids = ground arith in
      (
        λ n call at.
            let (gid, (here, servers, config)) =
              calls_to_sound groups num ids n {call = call}
                (get_shard_ids_by_status-Distinct sk status built) (rw same at at) in
            (
              gid,
              servers,
              config,
              λ i.
                  let these : ids_of ids gid ≡ call.1.shard_ids = ground arith in
                  ap (requested i) (sym these) ∙ found gid i,
            ),
        λ gid i wants. elim (Option-cases (lookup gid ids)) [
          | inl missing ↦ absurd (ground (arith, found gid i))
          | inr (is, at) ↦
              let (n, call, here, (there, servers, config)) =
                calls_to_complete groups num ids gid {is = is} at in
              let these : ids_of ids gid ≡ call.1.shard_ids = ground arith in
              (
                n,
                call,
                ap (λ l. get_elem? l n) same ∙ here,
                servers,
                ap (requested i) (sym these) ∙ found gid i ∙ wants,
              )
        ],
      )
]

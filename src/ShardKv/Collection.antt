-- ===== src/ShardKv/Collection.antt =====
-- What the deletion of shards (`applyDeleteShards` in shardkv/server.go) does to the shards that it
-- names.
use raft_side.Prelude.{
  ℕ, ◌≡◌, ◌⊎◌, inl, inr, arith, true, false, some, List, [], ◌∷◌, ◌==◌, if◌then◌else◌, Bool-cases,
  Option-cases,
}
use raft_side.Prelude.Dict.{Dict, lookup, insert, lookup-insert}
use raft_side.ShardKv.Types.{
  serving, be_pulling, g_cing, is_status, CommandResponse, ShardOperationRequest,
}
use raft_side.ShardKv.Shard.{Shard, new_shard}
use raft_side.ShardKv.State.{ShardKv}
use raft_side.ShardKv.Apply.{apply_delete_shards, delete_all}
use raft_side.ShardKv.Handover.{requested}

-- The shard is there, and waits for collection or was pulled from.
abbrev pub IsCollectable : (i : ℕ) → Dict Shard → Type 0
IsCollectable i machines =
    (shard : Shard) × (lookup i machines ≡ some shard)
    × ((shard.status ≡ g_cing) ⊎ (shard.status ≡ be_pulling))

-- No shard is named twice.
abbrev pub IsEachOnce : List ℕ → Type 0
IsEachOnce [] = Unit
IsEachOnce (i ∷ ids) = (requested i ids ≡ false) × IsEachOnce ids

-- The new owner serves the shard, the old one empties it.
abbrev pub collected : Shard → Shard
collected shard =
    if is_status shard.status g_cing then record shard { status = serving } else new_shard

delete_all-cons :
    (j : ℕ) (ids : List ℕ) (machines : Dict Shard) (s : Shard)
    → lookup j machines ≡ some s
    → (s.status ≡ g_cing) ⊎ (s.status ≡ be_pulling)
    → delete_all (j ∷ ids) machines ≡ delete_all ids (insert j (collected s) machines)
unfolding delete_all
delete_all-cons j ids machines s at (inl waits) = ground arith
delete_all-cons j ids machines s at (inr pulled) = ground arith

delete_all-collects :
    (ids : List ℕ) (machines machines' : Dict Shard) (i : ℕ) (shard : Shard)
    → delete_all ids machines ≡ some machines'
    → IsEachOnce ids
    → ((j : ℕ) → requested j ids ≡ true → IsCollectable j machines)
    → lookup i machines ≡ some shard
    → lookup i machines' ≡ some (if requested i ids then collected shard else shard)
unfolding delete_all
delete_all-collects [] machines machines' i shard e once all at = ground arith
delete_all-collects (j ∷ ids) machines machines' i shard e (new, once) all at =
    let (s, found, waits) = all j (ground arith) in
    let machines1 = insert j (collected s) machines in
    let rest : delete_all ids machines1 ≡ some machines' =
      rw (delete_all-cons j ids machines s found waits) at e in
    let later : (k : ℕ) → requested k ids ≡ true → IsCollectable k machines1 = λ k named.
      let (t, there, ready) = all k (ground arith) in
      elim (Bool-cases (j == k)) [
        | inl same ↦ let one : j ≡ k = ground arith in absurd (ground arith)
        | inr other ↦ (t, ground (arith, lookup-insert j k (collected s) machines), ready)
      ] in
    elim (Bool-cases (j == i)) [
      | inl same ↦
          let one : j ≡ i = ground arith in
          let is_s : s ≡ shard = ground arith in
          let here : lookup i machines1 ≡ some (collected s) =
            ground (arith, lookup-insert j i (collected s) machines) in
          let kept =
            delete_all-collects ids machines1 machines' i (collected s) rest once later here in
          let unnamed : requested i ids ≡ false = rw one at new in
          rw (same, ← is_s) (rw unnamed at kept)
      | inr other ↦
          let here : lookup i machines1 ≡ some shard =
            ground (arith, lookup-insert j i (collected s) machines) in
          rw other (delete_all-collects ids machines1 machines' i shard rest once later here)
    ]

-- A deletion for the group's configuration that does not panic and names shards that the group holds,
-- each once, which all wait for collection or were pulled from: each shard named that waits for
-- collection is served, each that was pulled from is new and empty, and every other shard stays.
pub apply_delete_shards-collects :
    (sk : ShardKv) (info : ShardOperationRequest) (sk' : ShardKv) (r : CommandResponse) (i : ℕ)
    (shard : Shard)
    → apply_delete_shards sk info ≡ some (sk', r)
    → info.config_num ≡ sk.current_config.num
    → IsEachOnce info.shard_ids
    → ((j : ℕ) → requested j info.shard_ids ≡ true → IsCollectable j sk.state_machines)
    → lookup i sk.state_machines ≡ some shard
    → lookup i sk'.state_machines
      ≡ some (if requested i info.shard_ids then collected shard else shard)
unfolding apply_delete_shards
apply_delete_shards-collects sk info sk' r i shard e current once all at =
    elim (Option-cases (delete_all info.shard_ids sk.state_machines)) [
      | inl failed ↦ absurd (ground arith)
      | inr (machines, ran) ↦
          let kept : sk'.state_machines ≡ machines = ground arith in
          rw kept
            (delete_all-collects info.shard_ids sk.state_machines machines i shard ran once all at)
    ]

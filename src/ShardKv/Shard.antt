-- ===== src/ShardKv/Shard.antt =====
-- shardkv/shard.go, and `key2shard` of shardkv/client.go.
use raft_side.Prelude.{ℕ, ◌%◌, ◌++◌, none, some, [], ◌∷◌}
use raft_side.ShardCtrler.Types.{n_shards}
use raft_side.ShardKv.Strings.{Str, StrMap, find, store}
use raft_side.ShardKv.Types.{Err, ok, err_no_key, ShardStatus, serving}

pub record Shard : Type 0 where
  pub kv : StrMap
  pub status : ShardStatus

unfoldable pub new_shard : Shard
new_shard = record { kv = []; status = serving }

unfoldable pub get : Shard → Str → Str × Err
get shard key = elim (find key shard.kv) [ none ↦ ([], err_no_key) | some value ↦ (value, ok) ]

unfoldable pub put : Shard → (key value : Str) → Shard × Err
put shard key value = (record shard { kv = store key value shard.kv }, ok)

-- A missing key has the empty string.
abbrev pub value_of : Str → StrMap → Str
value_of key kv = elim (find key kv) [ none ↦ [] | some value ↦ value ]

unfoldable pub append : Shard → (key value : Str) → Shard × Err
append shard key value =
    (record shard { kv = store key (value_of key shard.kv ++ value) shard.kv }, ok)

-- The keys of a map are distinct, so that its copy is a copy entry by entry.
unfoldable pub copy_entries : StrMap → StrMap
copy_entries [] = []
copy_entries ((k, v) ∷ kv) = (k, v) ∷ copy_entries kv

unfoldable pub deep_copy : Shard → StrMap
unfolding copy_entries
deep_copy shard = copy_entries shard.kv

-- `for key, value := range shardData { shard.KV[key] = value }`
unfoldable pub fill : StrMap → Shard → Shard
fill [] shard = shard
fill ((key, value) ∷ entries) shard = fill entries (record shard { kv = store key value shard.kv })

unfoldable pub key2shard : Str → ℕ
key2shard [] = 0 % n_shards
key2shard (b ∷ bs) = b % n_shards

-- ===== src/ShardKv/Filled.antt =====
-- The maps of a shard's keys that are filled with another's, `shard.KV[key] = value` for each entry.
use raft_side.Prelude.{
  ◌≡◌, refl, arith, false, Option, none, some, [], ◌∷◌, Bool-cases, Option-cases, inl, inr, ◌++◌,
}
use raft_side.ShardKv.Strings.{
  Str, StrMap, find, store, find-store, same_string, same_string-eq, same_string_refl,
}
use raft_side.ShardKv.Types.{OperationOp, op_put, op_append, op_get, CommandRequest}
use raft_side.ShardKv.Shard.{Shard, fill, put, append, get, value_of}
use raft_side.ShardKv.Apply.{run_on_shard}

-- No key stands twice.
abbrev pub IsMap : StrMap → Type 0
IsMap [] = Unit
IsMap ((key, value) ∷ kv) = (find key kv ≡ none) × IsMap kv

pub store-IsMap : (key value : Str) (kv : StrMap) → IsMap kv → IsMap (store key value kv)
unfolding store find
store-IsMap key value [] h = (refl, tt)
store-IsMap key value ((k, v) ∷ kv) (new, h) = elim (Bool-cases (same_string k key)) [
  | inl same ↦
      let one = same_string-eq k key same in
      let fresh : find key kv ≡ none = rw one at new in
      let out : store key value ((k, v) ∷ kv) ≡ (key, value) ∷ kv = ground arith in
      rw out (fresh, h)
  | inr differs ↦
      let apart : same_string key k ≡ false = elim (Bool-cases (same_string key k)) [
        | inl same ↦
            let one = same_string-eq key k same in
            let self = same_string_refl k in absurd (ground arith)
        | inr no_match ↦ no_match
      ] in
      let fresh : find k (store key value kv) ≡ none = ground (arith, find-store key k value kv) in
      let out : store key value ((k, v) ∷ kv) ≡ (k, v) ∷ store key value kv = ground arith in
      rw out (fresh, store-IsMap key value kv h)
]

abbrev pub or_else : Option Str → Option Str → Option Str
or_else none o = o
or_else (some v) o = some v

-- A filled shard has the entry of a key, and for other keys what it had.
pub find-fill :
    (key : Str) (entries : StrMap) (shard : Shard)
    → IsMap entries
    → find key ((fill entries shard).kv) ≡ or_else (find key entries) (find key shard.kv)
unfolding find fill
find-fill key [] shard h = refl
find-fill key ((k, v) ∷ entries) shard (new, h) =
    let next : Shard = record shard { kv = store k v shard.kv } in
    let rest = find-fill key entries next h in
    elim (Bool-cases (same_string k key)) [
      | inl same ↦
          let one = same_string-eq k key same in
          let fresh : find key entries ≡ none = rw one at new in
          ground (arith, find-store k key v shard.kv)
      | inr differs ↦ ground (arith, find-store k key v shard.kv)
    ]

pub find-fill_empty :
    (key : Str) (entries : StrMap) (shard : Shard)
    → IsMap entries
    → shard.kv ≡ []
    → find key ((fill entries shard).kv) ≡ find key entries
unfolding find
find-fill_empty key entries shard h none_there =
    let all = find-fill key entries shard h in
    elim (Option-cases (find key entries)) [
      | inl missing ↦ ground arith
      | inr (v, at) ↦ ground arith
    ]

-- A read, a put and an append leave no key twice.
pub run_on_shard-IsMap :
    (op : OperationOp) (shard : Shard) (request : CommandRequest)
    → IsMap shard.kv
    → IsMap ((run_on_shard op shard request).0.kv)
unfolding run_on_shard put append get
run_on_shard-IsMap op_put shard request h = store-IsMap request.key request.value shard.kv h
run_on_shard-IsMap op_append shard request h =
    store-IsMap request.key (value_of request.key shard.kv ++ request.value) shard.kv h
run_on_shard-IsMap op_get shard request h = h

-- ===== src/ShardKv/Strings.antt =====
-- Go's strings, as their bytes, and the maps from strings to strings of shardkv/shard.go.
use raft_side.Prelude.{
  ℕ, ◌≡◌, refl, arith, Bool, true, false, ◌&&◌, Option, none, some, List, [], ◌∷◌, ◌==◌,
  if◌then◌else◌, Bool-cases, inl, inr,
}

abbrev pub Str : Type 0
Str = List ℕ

abbrev pub StrMap : Type 0
StrMap = List (Str × Str)

unfoldable pub same_string : Str → Str → Bool
same_string [] [] = true
same_string [] (b ∷ t) = false
same_string (a ∷ s) [] = false
same_string (a ∷ s) (b ∷ t) = let rest = same_string s t in a == b && rest

-- `kv[key]`, with whether it is there.
unfoldable pub find : (key : Str) → StrMap → Option Str
find key [] = none
find key (entry ∷ rest) =
    let below = find key rest in if same_string (entry.0) key then some (entry.1) else below

-- `kv[key] = value`
unfoldable pub store : (key value : Str) → StrMap → StrMap
store key value [] = (key, value) ∷ []
store key value (entry ∷ rest) =
    let below = store key value rest in
    if same_string (entry.0) key then (key, value) ∷ rest else entry ∷ below

pub same_string-eq : (s t : Str) → same_string s t ≡ true → s ≡ t
unfolding same_string
same_string-eq [] [] h = refl
same_string-eq [] (b ∷ t) h = ground arith
same_string-eq (a ∷ s) [] h = ground arith
same_string-eq (a ∷ s) (b ∷ t) h =
    let tails : s ≡ t = same_string-eq s t (ground arith) in ground arith

pub same_string_refl : (s : Str) → same_string s s ≡ true
unfolding same_string
same_string_refl [] = refl
same_string_refl (a ∷ s) = ground (arith, same_string_refl s)

same_string-join :
    (i j k : Str) → same_string i j ≡ true → same_string k j ≡ true → same_string i k ≡ true
same_string-join i j k h g = rw (same_string-eq i j h, same_string-eq k j g) (same_string_refl j)

pub find-store :
    (key other value : Str) (kv : StrMap)
    → find other (store key value kv)
      ≡ (if same_string key other then some value else find other kv)
unfolding find store
find-store key other value [] = refl
find-store key other value (entry ∷ rest) = elim (Bool-cases (same_string (entry.0) key)) [
  | inl same ↦ ground (arith, same_string-eq (entry.0) key same, find-store key other value rest)
  | inr differs ↦
      ground (arith, same_string-join (entry.0) other key, find-store key other value rest)
]

-- ===== src/ShardCtrler/Named.antt =====
-- The groups that Join and Leave of shardctrler/configStateMachine.go give shards to are named by the
-- configuration.
use Prim.Native.String.{String}
use raft_side.Prelude.{
  ℕ, suc, ◌≡◌, refl, arith, Bool, true, false, ◌||◌, Option, none, some, List, [], ◌∷◌, ◌++◌, ◌==◌,
  inl, inr, ◌∙◌, Option-cases, set?, length, bind-some,
}
use raft_side.Prelude.Dict.{Dict, lookup, insert, delete, lookup-insert, lookup-delete}
use raft_side.ShardCtrler.Types.{Config}
use raft_side.ShardCtrler.Machine.{
  MapOrder, deep_copy, add_groups, copy_servers, group2_shards, empty_groups, add_shards, shards_of,
  assign, assign_group, remove_groups,
}
use raft_side.ShardCtrler.Keys.{
  all_keys, all_keys-insert, all_keys-delete, all_entries, all_entries-set?,
}

abbrev pub is_some : {A : Type 0} → Option A → Bool
is_some none = false
is_some (some a) = true

-- Group 0, or a group with servers listed.
abbrev pub is_named : Dict (List String) → ℕ → Bool
is_named groups gid = gid == 0 || is_some (lookup gid groups)

all_keys-weaken :
    {V : Type 0} (p q : ℕ → Bool) (d : Dict V)
    → ((j : ℕ) → p j ≡ true → q j ≡ true)
    → all_keys p d ≡ true
    → all_keys q d ≡ true
all_keys-weaken p q [] f h = refl
all_keys-weaken p q ((k, v) ∷ d) f h = ground (arith, all_keys-weaken p q d f, f k)

pub all_entries-weaken :
    (p q : ℕ → Bool) (xs : List ℕ)
    → ((j : ℕ) → p j ≡ true → q j ≡ true)
    → all_entries p xs ≡ true
    → all_entries q xs ≡ true
all_entries-weaken p q [] f h = refl
all_entries-weaken p q (x ∷ xs) f h = ground (arith, all_entries-weaken p q xs f, f x)

-- A copy of the groups lists the same.
pub deep_copy-named :
    (groups : Dict (List String)) (gid : ℕ) → is_named (deep_copy groups) gid ≡ is_named groups gid
unfolding deep_copy lookup
deep_copy-named [] gid = refl
deep_copy-named ((k, servers) ∷ groups) gid = ground (arith, deep_copy-named groups gid)

pub add_groups-named :
    (joining groups : Dict (List String)) (gid : ℕ)
    → is_named groups gid ≡ true
    → is_named (add_groups joining groups) gid ≡ true
unfolding add_groups
add_groups-named [] groups gid h = h
add_groups-named ((k, servers) ∷ joining) groups gid h = elim (Option-cases (lookup k groups)) [
  | inl new ↦
      let more = insert k (copy_servers servers) groups in
      let kept : is_named more gid ≡ true =
        ground (arith, lookup-insert k gid (copy_servers servers) groups) in
      rw new (add_groups-named joining more gid kept)
  | inr (old, at) ↦ rw at (add_groups-named joining groups gid h)
]

-- The two loops of `Group2Shards`.
empty_groups-keys :
    (p : ℕ → Bool) (groups : Dict (List String))
    → all_keys p groups ≡ true
    → all_keys p (empty_groups groups) ≡ true
unfolding empty_groups
empty_groups-keys p [] h = refl
empty_groups-keys p ((k, servers) ∷ groups) h =
    all_keys-insert p k [] (empty_groups groups) (ground arith)
      (empty_groups-keys p groups (ground arith))

add_shards-keys :
    (p : ℕ → Bool) (shard : ℕ) (gids : List ℕ) (d : Dict (List ℕ))
    → all_entries p gids ≡ true
    → all_keys p d ≡ true
    → all_keys p (add_shards shard gids d) ≡ true
unfolding add_shards
add_shards-keys p shard [] d g h = h
add_shards-keys p shard (gid ∷ gids) d g h =
    add_shards-keys p (suc shard) gids (insert gid (shards_of d gid ++ shard ∷ []) d) (ground arith)
      (all_keys-insert p gid (shards_of d gid ++ shard ∷ []) d (ground arith) h)

-- Every group of a map is named by it.
all_keys-named_from :
    (p : ℕ → Bool) (groups : Dict (List String))
    → ((j : ℕ) → is_some (lookup j groups) ≡ true → p j ≡ true)
    → all_keys p groups ≡ true
unfolding lookup
all_keys-named_from p [] f = refl
all_keys-named_from p ((k, servers) ∷ groups) f =
    ground (arith, f k, all_keys-named_from p groups (λ j h. f j (ground arith)))

pub group2_shards-keys :
    (config : Config)
    → all_entries (is_named config.groups) config.shards ≡ true
    → all_keys (is_named config.groups) (group2_shards config) ≡ true
unfolding group2_shards
group2_shards-keys config h =
    let p = is_named config.groups in
    add_shards-keys p 0 config.shards (empty_groups config.groups) h (
      empty_groups-keys p config.groups
        (all_keys-named_from p config.groups (λ j is. ground arith)))

-- The new array of shards.
assign_group-entries :
    (p : ℕ → Bool) (gid : ℕ) (shards xs : List ℕ) {ys : List ℕ}
    → p gid ≡ true
    → all_entries p xs ≡ true
    → assign_group gid shards xs ≡ some ys
    → (all_entries p ys ≡ true) × (length ys ≡ length xs)
unfolding assign_group
assign_group-entries p gid [] xs g h e = (ground arith, ground arith)
assign_group-entries p gid (shard ∷ shards) xs {ys} g h e =
    let (zs, one, rest) = bind-some (set? xs shard gid) (assign_group gid shards) e in
    let (ok, size) = all_entries-set? p xs shard gid g h one in
    let (ok', size') = assign_group-entries p gid shards zs {ys = ys} g ok rest in
    (ok', size' ∙ size)

pub assign-entries :
    (p : ℕ → Bool) (d : Dict (List ℕ)) (xs : List ℕ) {ys : List ℕ}
    → all_keys p d ≡ true
    → all_entries p xs ≡ true
    → assign d xs ≡ some ys
    → (all_entries p ys ≡ true) × (length ys ≡ length xs)
unfolding assign
assign-entries p [] xs g h e = (ground arith, ground arith)
assign-entries p ((gid, shards) ∷ d) xs {ys} g h e =
    let (zs, one, rest) = bind-some (assign_group gid shards xs) (assign d) e in
    let (ok, size) = assign_group-entries p gid shards xs (ground arith) h one in
    let (ok', size') = assign-entries p d zs {ys = ys} (ground arith) ok rest in (ok', size' ∙ size)

-- What stays in the map from groups to shards is named by the groups that stay.
pub remove_groups-keys :
    (order : MapOrder) (gids : List ℕ) (groups : Dict (List String)) (s2g : Dict (List ℕ))
    (orphans : List ℕ)
    → all_keys (is_named groups) s2g ≡ true
    → all_keys
        (is_named ((remove_groups order gids groups s2g orphans).0))
        ((remove_groups order gids groups s2g orphans).1)
      ≡ true
unfolding remove_groups
remove_groups-keys order [] groups s2g orphans h = h
remove_groups-keys order (gid ∷ gids) groups s2g orphans h =
    remove_groups-keys order gids (delete gid groups) (delete gid s2g)
      (orphans ++ shards_of s2g gid)
      (all_keys-delete (is_named groups) (is_named (delete gid groups)) gid s2g
        (λ j named apart. ground (arith, lookup-delete gid j groups)) h)

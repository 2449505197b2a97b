-- ===== src/ShardCtrler/Machine.antt =====
-- shardctrler/configStateMachine.go. Go visits a map in an order of its own at each loop: `visit` is
-- the order at a given count of such loops, a parameter of the model.
use Prim.Native.String.{String}
use mathlib.Core.List.{Perm}
use raft_side.Prelude.{
  ℕ, zero, suc, pos, negsuc, ℤ, ◌+◌, ◌-◌, Bool, true, false, not, ◌&&◌, ◌||◌, Option, none, some,
  List, [], ◌∷◌, ◌++◌, ◌>>=◌, length, get_elem?, set?, replicate, ltb, leb, ◌==◌, if◌then◌else◌,
}
use raft_side.Prelude.Dict.{Dict, lookup, insert, delete}
use raft_side.ShardCtrler.Types.{n_shards, Config, default_config}

-- The order in which Go visits the entries of a map from group ids to shards.
pub record MapOrder : Type 0 where
  pub visit : ℕ → Dict (List ℕ) → Dict (List ℕ)
  pub visit-perm : (t : ℕ) (m : Dict (List ℕ)) → Perm (visit t m) m

unfoldable pub new_memory_config_state_machine : List Config
new_memory_config_state_machine = default_config ∷ []

pub copy_servers : List String → List String
copy_servers [] = []
copy_servers (s ∷ servers) = s ∷ copy_servers servers

unfoldable pub deep_copy : Dict (List String) → Dict (List String)
unfolding copy_servers
deep_copy [] = []
deep_copy ((gid, servers) ∷ groups) = (gid, copy_servers servers) ∷ deep_copy groups

-- `cf.Configs[len(cf.Configs)-1]`
unfoldable pub last_config : List Config → Option Config
last_config configs = get_elem? configs (length configs - 1)

-- A nil slice for a missing key.
abbrev pub shards_of : Dict (List ℕ) → ℕ → List ℕ
shards_of g2s gid = elim (lookup gid g2s) [ none ↦ [] | some shards ↦ shards ]

-- The two loops of `Group2Shards`.
unfoldable pub empty_groups : Dict (List String) → Dict (List ℕ)
empty_groups [] = []
empty_groups ((gid, servers) ∷ groups) = insert gid [] (empty_groups groups)

unfoldable pub add_shards : (shard : ℕ) → List ℕ → Dict (List ℕ) → Dict (List ℕ)
add_shards shard [] g2s = g2s
add_shards shard (gid ∷ shards) g2s =
    add_shards (suc shard) shards (insert gid (shards_of g2s gid ++ shard ∷ []) g2s)

unfoldable pub group2_shards : Config → Dict (List ℕ)
unfolding empty_groups add_shards
group2_shards config = add_shards 0 config.shards (empty_groups config.groups)

-- The loops of `GetGIDWithMinimumShards` and `GetGIDWithMaximumShards`, over the entries as visited.
unfoldable pub min_from : Dict (List ℕ) → (index l : ℕ) → ℕ
min_from [] index l = index
min_from ((k, v) ∷ rest) index l =
    let smaller = ltb (length v) l in
    min_from rest (if smaller then k else index) (if smaller then length v else l)

unfoldable pub max_from : Dict (List ℕ) → (index l : ℕ) → ℕ
max_from [] index l = index
max_from ((k, v) ∷ rest) index l =
    let larger = ltb l (length v) in
    max_from rest (if larger then k else index) (if larger then length v else l)

unfoldable pub get_gid_with_minimum_shards : Dict (List ℕ) → ℕ
get_gid_with_minimum_shards visited = min_from visited 0 100000000

unfoldable pub get_gid_with_maximum_shards : Dict (List ℕ) → ℕ
get_gid_with_maximum_shards visited = max_from visited 0 0

-- `newShards[shard] = gid` for each shard of a group, and for each group.
unfoldable pub assign_group : ℕ → List ℕ → List ℕ → Option (List ℕ)
assign_group gid [] new_shards = some new_shards
assign_group gid (shard ∷ shards) new_shards = do
  assigned ← set? new_shards shard gid
  assign_group gid shards assigned

unfoldable pub assign : Dict (List ℕ) → List ℕ → Option (List ℕ)
unfolding assign_group
assign [] new_shards = some new_shards
assign ((gid, shards) ∷ g2s) new_shards = do
  assigned ← assign_group gid shards new_shards
  assign g2s assigned

-- The first loop of `Join`.
unfoldable pub add_groups : Dict (List String) → Dict (List String) → Dict (List String)
unfolding copy_servers
add_groups [] groups = groups
add_groups ((gid, servers) ∷ joining) groups = add_groups joining (elim (lookup gid groups) [
  | none ↦ insert gid (copy_servers servers) groups
  | some old ↦ groups
])

-- `g2s[target] = append(g2s[target], g2s[source][0]); g2s[source] = g2s[source][1:]`
unfoldable pub move_shard : Dict (List ℕ) → (source target : ℕ) → Option (Dict (List ℕ))
move_shard g2s source target = elim (shards_of g2s source) [
  | [] ↦ none
  | shard ∷ rest ↦
      some (insert source rest (insert target (shards_of g2s target ++ shard ∷ []) g2s))
]

-- The tests of the loop of `Join`: whether it breaks.
unfoldable pub is_balanced : Dict (List ℕ) → (source target : ℕ) → Bool
is_balanced g2s source target =
    not (source == 0) && leb (length (shards_of g2s source)) (length (shards_of g2s target) + 1)
    || source == target

module _ (order : MapOrder) where
  -- The loop, with the rounds it may take; `none` where they are used up, or at a panic.
  unfoldable pub balance : (rounds tick : ℕ) → Dict (List ℕ) → Option (Dict (List ℕ))
  balance zero tick g2s = none
  balance (suc rounds) tick g2s =
      let source = get_gid_with_maximum_shards (order.visit tick g2s) in
      let target = get_gid_with_minimum_shards (order.visit (tick + 1) g2s) in
      elim (is_balanced g2s source target) [
        | true ↦ some g2s
        | false ↦ move_shard g2s source target >>= balance rounds (tick + 2)
      ]

  -- The configuration that `Join` appends.
  unfoldable pub join_config : (rounds : ℕ) → List Config → Dict (List String) → Option Config
  join_config rounds configs joining = do
    last ← last_config configs
    let groups = add_groups joining (deep_copy last.groups)
    let new_config : Config = record { num = length configs; shards = last.shards; groups = groups }
    g2s ← balance rounds 0 (group2_shards new_config)
    new_shards ← assign g2s (replicate n_shards 0)
    some (record new_config { shards = new_shards })

  unfoldable pub join : (rounds : ℕ) → List Config → Dict (List String) → Option (List Config)
  join rounds configs joining = do
    new_config ← join_config rounds configs joining
    some (configs ++ new_config ∷ [])

  -- The loop of `Leave` over the groups that leave: the groups, their shards, the orphans.
  unfoldable pub remove_groups :
      List ℕ
      → Dict (List String)
      → Dict (List ℕ)
      → List ℕ
      → Dict (List String) × Dict (List ℕ) × List ℕ
  remove_groups [] groups s2g orphans = (groups, s2g, orphans)
  remove_groups (gid ∷ gids) groups s2g orphans =
      remove_groups gids (delete gid groups) (delete gid s2g) (orphans ++ shards_of s2g gid)

  unfoldable pub place_orphans : (tick : ℕ) → List ℕ → Dict (List ℕ) → Dict (List ℕ)
  place_orphans tick [] s2g = s2g
  place_orphans tick (shard ∷ orphans) s2g =
      let target = get_gid_with_minimum_shards (order.visit tick s2g) in
      place_orphans (tick + 1) orphans (insert target (shards_of s2g target ++ shard ∷ []) s2g)

  -- The configuration that `Leave` appends.
  unfoldable pub leave_config : List Config → List ℕ → Option Config
  leave_config configs gids = do
    last ← last_config configs
    let (groups, s2g, orphans) =
        remove_groups gids (deep_copy last.groups)
          (group2_shards (record last { groups = deep_copy last.groups })) []
    new_shards ← elim groups [
      | [] ↦ some (replicate n_shards 0)
      | group ∷ rest ↦ assign (place_orphans 0 orphans s2g) (replicate n_shards 0)
    ]
    some (record { num = length configs; shards = new_shards; groups = groups })

  unfoldable pub leave : List Config → List ℕ → Option (List Config)
  leave configs gids = do new_config ← leave_config configs gids; some (configs ++ new_config ∷ [])

-- The configuration that `Move` appends.
unfoldable pub move_config : List Config → (shard gid : ℕ) → Option Config
move_config configs shard gid = do
  last ← last_config configs
  shards ← set? last.shards shard gid
  some (record { num = length configs; shards = shards; groups = deep_copy last.groups })

unfoldable pub move : List Config → (shard gid : ℕ) → Option (List Config)
move configs shard gid = do
  new_config ← move_config configs shard gid
  some (configs ++ new_config ∷ [])

unfoldable pub query : List Config → ℤ → Option Config
query configs (negsuc n) = last_config configs
query configs (pos num) =
    if leb (length configs) num then last_config configs else get_elem? configs num

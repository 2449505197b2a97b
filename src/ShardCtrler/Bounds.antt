-- ===== src/ShardCtrler/Bounds.antt =====
-- How many shards the groups have in the loop of `Join` in shardctrler/configStateMachine.go.
use raft_side.Prelude.{
  ℕ, suc, ◌+◌, ◌≤◌, ◌<◌, ◌≡◌, arith, Bool, true, some, List, [], ◌∷◌, ◌++◌, leb, inl, inr, ◌∙◌,
  Option-cases, length, sym, length-append, leb→le,
}
use raft_side.Prelude.Dict.{Dict, lookup, insert, lookup-insert, Distinct, insert-Distinct}
use raft_side.ShardCtrler.Types.{Config}
use raft_side.ShardCtrler.Machine.{
  MapOrder, get_gid_with_minimum_shards, get_gid_with_maximum_shards, shards_of, add_shards,
  group2_shards, empty_groups,
}
use Prim.Native.String.{String}
use raft_side.ShardCtrler.Sizes.{
  all_of, all_of-perm, all_of-Distinct, all_of-lookup, sized_by, max_from-most, min_from-least,
}

-- How many shards a group has in a map.
abbrev pub size : Dict (List ℕ) → ℕ → ℕ
size d k = length (shards_of d k)

-- No group has more shards than so many.
abbrev pub IsBounded : Dict (List ℕ) → ℕ → Type 0
IsBounded d bound = (k : ℕ) (xs : List ℕ) → lookup k d ≡ some xs → length xs ≤ bound

module _ (order : MapOrder) (t : ℕ) (d : Dict (List ℕ)) (h : Distinct d) where
  visit-sized : all_of (sized_by (size d)) (order.visit t d) ≡ true
  visit-sized =
      all_of-perm (sized_by (size d)) (order.visit-perm t d)
      ∙ all_of-Distinct (sized_by (size d)) d h (λ k xs at. ground arith)

  pub maximum-most :
      (k : ℕ) (xs : List ℕ)
      → lookup k d ≡ some xs
      → length xs ≤ size d (get_gid_with_maximum_shards (order.visit t d))
  unfolding get_gid_with_maximum_shards
  maximum-most k xs at =
      let (most, all, above, which) = max_from-most (size d) (order.visit t d) 0 0 visit-sized in
      let q : ℕ → List ℕ → Bool = λ j ys. leb (length ys) most in
      let all_d = sym (all_of-perm q (order.visit-perm t d)) ∙ all in
      let low = leb→le (length xs) most (all_of-lookup q d k xs all_d at) in
      elim which [ inl e ↦ omega (arith, low, e) | inr (e, e0) ↦ omega (arith, low, e0) ]

  pub minimum-least :
      (bound : ℕ)
      → IsBounded d bound
      → bound < 100000000
      → (k : ℕ) (xs : List ℕ) → lookup k d ≡ some xs
      → size d (get_gid_with_minimum_shards (order.visit t d)) ≤ length xs
  unfolding get_gid_with_minimum_shards
  minimum-least bound b small k xs at =
      let (least, all, below, which) =
        min_from-least (size d) (order.visit t d) 0 100000000 visit-sized in
      let q : ℕ → List ℕ → Bool = λ j ys. leb least (length ys) in
      let all_d = sym (all_of-perm q (order.visit-perm t d)) ∙ all in
      let high = leb→le least (length xs) (all_of-lookup q d k xs all_d at) in
      elim which [
        | inl e ↦ omega (arith, high, e)
        | inr (e, e0) ↦ absurd (omega (arith, high, e0, b k xs at, small))
      ]

pub shards_of-IsBounded : (d : Dict (List ℕ)) (bound k : ℕ) → IsBounded d bound → size d k ≤ bound
shards_of-IsBounded d bound k b = elim (Option-cases (lookup k d)) [
  | inl missing ↦ ground arith
  | inr (xs, at) ↦ let low = b k xs at in ground arith
]

pub insert-IsBounded :
    (d : Dict (List ℕ)) (bound k : ℕ) (xs : List ℕ)
    → IsBounded d bound
    → length xs ≤ bound
    → IsBounded (insert k xs d) bound
insert-IsBounded d bound k xs b low j ys at = ground (arith, lookup-insert k j xs d, b j ys)

IsBounded-suc : (d : Dict (List ℕ)) (bound : ℕ) → IsBounded d bound → IsBounded d (suc bound)
IsBounded-suc d bound b k xs at = omega (arith, b k xs at)

-- Giving a group one more shard.
add_one-IsBounded :
    (d : Dict (List ℕ)) (bound k shard : ℕ)
    → IsBounded d bound
    → IsBounded (insert k (shards_of d k ++ shard ∷ []) d) (suc bound)
add_one-IsBounded d bound k shard b =
    insert-IsBounded d (suc bound) k (shards_of d k ++ shard ∷ []) (IsBounded-suc d bound b)
      (omega (arith, length-append (shards_of d k) (shard ∷ []), shards_of-IsBounded d bound k b))

-- The map that the loop starts from.
empty_groups-IsBounded :
    (groups : Dict (List String))
    → Distinct (empty_groups groups) × IsBounded (empty_groups groups) 0
unfolding empty_groups lookup
empty_groups-IsBounded [] = (tt, λ k xs at. absurd (ground arith))
empty_groups-IsBounded ((gid, servers) ∷ groups) =
    let (h, b) = empty_groups-IsBounded groups in
    (
      insert-Distinct gid [] (empty_groups groups) h,
      insert-IsBounded (empty_groups groups) 0 gid [] b (omega arith),
    )

add_shards-IsBounded :
    (shard : ℕ) (gids : List ℕ) (d : Dict (List ℕ)) (bound : ℕ)
    → Distinct d
    → IsBounded d bound
    → Distinct (add_shards shard gids d) × IsBounded (add_shards shard gids d) (length gids + bound)
unfolding add_shards
add_shards-IsBounded shard [] d bound h b = (h, λ k xs at. omega (arith, b k xs at))
add_shards-IsBounded shard (gid ∷ gids) d bound h b =
    let (h', b') =
      add_shards-IsBounded (suc shard) gids (insert gid (shards_of d gid ++ shard ∷ []) d)
        (suc bound) (insert-Distinct gid (shards_of d gid ++ shard ∷ []) d h)
        (add_one-IsBounded d bound gid shard b) in
    (h', λ k xs at. omega (arith, b' k xs at))

pub group2_shards-IsBounded :
    (config : Config)
    → Distinct (group2_shards config) × IsBounded (group2_shards config) (length config.shards + 0)
unfolding group2_shards
group2_shards-IsBounded config =
    let (h, b) = empty_groups-IsBounded config.groups in
    add_shards-IsBounded 0 config.shards (empty_groups config.groups) 0 h b

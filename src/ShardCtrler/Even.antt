-- ===== src/ShardCtrler/Even.antt =====
-- The loop of `Join` in shardctrler/configStateMachine.go leaves the groups even.
use raft_side.Prelude.{
  ℕ, suc, ◌+◌, ◌≤◌, ◌<◌, ◌≡◌, refl, arith, some, List, [], ◌∷◌, ◌++◌, ◌==◌, Bool-cases, inl, inr,
  length, false, length-append,
}
use raft_side.Prelude.Dict.{Dict, lookup, insert, lookup-insert, Distinct, insert-Distinct}
use raft_side.ShardCtrler.Types.{Config}
use raft_side.ShardCtrler.Machine.{
  move_shard, is_balanced, shards_of, add_shards, group2_shards, empty_groups,
}
use Prim.Native.String.{String}
use raft_side.ShardCtrler.Bounds.{size, IsBounded}

-- Any two groups of a map differ by one shard at most; group 0 is none.
abbrev pub IsEven : Dict (List ℕ) → Type 0
IsEven d =
    (k j : ℕ) (xs ys : List ℕ)
    → 0 < k
    → 0 < j
    → lookup k d ≡ some xs
    → lookup j d ≡ some ys
    → length xs ≤ length ys + 1

-- The number of shards in a map, which a move keeps.
unfoldable pub total : Dict (List ℕ) → ℕ
total [] = 0
total ((k, xs) ∷ d) = length xs + total d

total-insert :
    (k : ℕ) (xs : List ℕ) (d : Dict (List ℕ))
    → total (insert k xs d) + size d k ≡ total d + length xs
unfolding total insert lookup
total-insert k xs [] = omega arith
total-insert k xs ((j, ys) ∷ d) = elim (Bool-cases (j == k)) [
  | inl same ↦ ground arith
  | inr other ↦ ground (arith, total-insert k xs d)
]

pub total-IsBounded : (d : Dict (List ℕ)) → IsBounded d (total d)
unfolding total lookup
total-IsBounded [] k xs at = absurd (ground arith)
total-IsBounded ((j, ys) ∷ d) k xs at = elim (Bool-cases (j == k)) [
  | inl same ↦ ground arith
  | inr other ↦ let low = total-IsBounded d k xs (ground arith) in omega (arith, low)
]

pub total-move :
    (d : Dict (List ℕ)) (source target shard : ℕ) (rest : List ℕ)
    → shards_of d source ≡ shard ∷ rest
    → (source == target) ≡ false
    → total (insert source rest (insert target (shards_of d target ++ shard ∷ []) d)) ≡ total d
total-move d source target shard rest q apart =
    let xs = shards_of d target ++ shard ∷ [] in
    let given = insert target xs d in
    let one = total-insert target xs d in
    let two = total-insert source rest given in
    let more : length xs ≡ suc (size d target) =
      omega (arith, length-append (shards_of d target) (shard ∷ [])) in
    let kept : size given source ≡ suc (length rest) =
      ground (arith, lookup-insert target source xs d) in
    omega (arith, one, two, more, kept)

-- The distinct keys and the shards that every map of the loop has.
pub move_shard-total :
    (d : Dict (List ℕ)) (source target : ℕ) {d' : Dict (List ℕ)}
    → Distinct d
    → is_balanced d source target ≡ false
    → move_shard d source target ≡ some d'
    → Distinct d' × (total d' ≡ total d)
unfolding move_shard is_balanced
move_shard-total d source target {d'} h on e =
    elim (shards_of d source)
        as (λ l. shards_of d source ≡ l → Distinct d' × (total d' ≡ total d)) [
          | [] ↦ λ q. absurd (ground arith)
          | shard ∷ rest ↦ λ q.
              let given = insert target (shards_of d target ++ shard ∷ []) d in
              let same : d' ≡ insert source rest given = ground arith in
              (
                rw same (
                    insert-Distinct source rest given
                      (insert-Distinct target (shards_of d target ++ shard ∷ []) d h)),
                rw same (total-move d source target shard rest q (ground arith)),
              )
        ]
      refl

empty_groups-total : (groups : Dict (List String)) → total (empty_groups groups) ≡ 0
unfolding empty_groups total
empty_groups-total [] = refl
empty_groups-total ((gid, servers) ∷ groups) =
    omega (arith, total-insert gid [] (empty_groups groups), empty_groups-total groups)

add_shards-total :
    (shard : ℕ) (gids : List ℕ) (d : Dict (List ℕ))
    → total (add_shards shard gids d) ≡ length gids + total d
unfolding add_shards
add_shards-total shard [] d = omega arith
add_shards-total shard (gid ∷ gids) d =
    let xs = shards_of d gid ++ shard ∷ [] in
    omega (
      arith,
      add_shards-total (suc shard) gids (insert gid xs d),
      total-insert gid xs d,
      length-append (shards_of d gid) (shard ∷ []),
    )

pub group2_shards-total : (config : Config) → total (group2_shards config) ≡ length config.shards
unfolding group2_shards
group2_shards-total config = omega (
  arith,
  add_shards-total 0 config.shards (empty_groups config.groups),
  empty_groups-total config.groups,
)

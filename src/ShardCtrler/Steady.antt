-- ===== src/ShardCtrler/Steady.antt =====
-- The loop of `Join` in shardctrler/configStateMachine.go ends where every visit of a map is in the
-- same order.
use raft_side.Prelude.{
  ℕ, zero, suc, ◌+◌, ◌≤◌, ◌<◌, ◌≡◌, ◌≢◌, refl, arith, Bool, true, false, some, List, [], ◌∷◌, ◌++◌,
  leb, ◌==◌, if◌then◌else◌, Bool-cases, inl, inr, ◌∙◌, Option-cases, length, sym, ap, ◌⊎◌,
}
use raft_side.Prelude.Dict.{Dict, lookup, insert, lookup-insert}
use raft_side.ShardCtrler.Machine.{
  MapOrder, get_gid_with_minimum_shards, get_gid_with_maximum_shards, move_shard, balance,
  is_balanced, shards_of,
}
use raft_side.ShardCtrler.Keys.{minimum-key}
use raft_side.ShardCtrler.Sizes.{all_of, all_of-perm, all_of-Distinct}
use raft_side.ShardCtrler.Bounds.{size, shards_of-IsBounded}
use raft_side.ShardCtrler.Moves.{
  squares, squares-move, scans-agree, size-move, all_keys-Distinct, scans-Found, move-IsLoopState,
  IsLoopState, Found,
}

-- Where the most and the fewest are as many, the scans of one order find the same group.
all_equal-agree :
    (order : MapOrder) (t u : ℕ) (d : Dict (List ℕ)) (bound : ℕ)
    → order.visit t d ≡ order.visit u d
    → IsLoopState d bound
    → size d (get_gid_with_maximum_shards (order.visit t d))
      ≡ size d (get_gid_with_minimum_shards (order.visit u d))
    → get_gid_with_maximum_shards (order.visit t d) ≡ get_gid_with_minimum_shards (order.visit u d)
all_equal-agree order t u d bound steady h same =
    let source = get_gid_with_maximum_shards (order.visit t d) in
    let facts = scans-Found order t u d bound h in
    let l = size d source in
    let q : ℕ → List ℕ → Bool = λ k xs. length xs == l in
    let all : all_of q d ≡ true =
      all_of-Distinct q d h.distinct
        (λ k xs at. let high = facts.most k in let low = facts.least k xs at in ground arith) in
    let most = shards_of-IsBounded d bound source h.bounded in
    let visited = all_of-perm q (order.visit-perm t d) ∙ all in
    scans-agree (order.visit t d) l facts.positive (omega (arith, most, h.small)) visited
    ∙ ap get_gid_with_minimum_shards steady

-- After a move from group 0, which had one shard more than the fewest, the loop breaks.
move_last-is_balanced :
    (order : MapOrder) (t u : ℕ) (d : Dict (List ℕ)) (target shard bound : ℕ) (rest : List ℕ)
    → IsLoopState d bound
    → Found d 0 target
    → shards_of d 0 ≡ shard ∷ rest
    → (0 == target) ≡ false
    → size d 0 ≡ size d target + 1
    → (d' : Dict (List ℕ)) → d' ≡ insert 0 rest (insert target (shards_of d target ++ shard ∷ []) d)
    → is_balanced d'
        (get_gid_with_maximum_shards (order.visit t d'))
        (get_gid_with_minimum_shards (order.visit u d'))
      ≡ true
unfolding is_balanced
move_last-is_balanced order t u d target shard bound rest h facts q apart one d' made =
    let source' = get_gid_with_maximum_shards (order.visit t d') in
    let target' = get_gid_with_minimum_shards (order.visit u d') in
    let state : IsLoopState d' bound =
      rw made (move-IsLoopState d 0 target shard bound rest h q apart (omega (arith, one))) in
    let sizes : (k : ℕ)
        → size d' k ≡ (
            if 0 == k
            then length rest
            else (if target == k then suc (size d target) else size d k)) =
      λ k. ap (λ m. size m k) made ∙ size-move d 0 target shard k rest q apart in
    let facts' = scans-Found order t u d' bound state in
    let less : suc (length rest) ≡ size d 0 = sym (ap length q) in
    let p : ℕ → Bool = λ k. leb (size d target) (size d' k) in
    let at_0 : p 0 ≡ true = let s = sizes 0 in ground arith in
    let high : p target' ≡ true = minimum-key order p at_0 u d' (
      all_keys-Distinct p d' state.distinct (λ k xs at.
        let here = sizes k in
        let outer = lookup-insert 0 k rest (insert target (shards_of d target ++ shard ∷ []) d) in
        let inner = lookup-insert target k (shards_of d target ++ shard ∷ []) d in
        let there = ap (lookup k) made in
        elim (Option-cases (lookup k d)) [
          | inl missing ↦ ground arith
          | inr (ys, at_d) ↦ let low = facts.least k ys at_d in ground arith
        ])) in
    let top : size d' source' ≤ size d target + 1 =
      let s = sizes source' in let m = facts.most source' in ground arith in
    let not_0 : (source' == 0) ≡ false = elim (Bool-cases (source' == 0)) [
      | inl is_0 ↦
          let zero_there : source' ≡ 0 = ground arith in
          let same = ap (size d') zero_there in
          let m = facts'.most target in
          let s = sizes 0 in let s' = sizes target in absurd (ground arith)
      | inr other ↦ other
    ] in
    ground arith

move_last_from :
    (order : MapOrder) (t u : ℕ) (d : Dict (List ℕ)) (source target shard bound : ℕ) (rest : List ℕ)
    → source ≡ 0
    → IsLoopState d bound
    → Found d source target
    → shards_of d source ≡ shard ∷ rest
    → (source == target) ≡ false
    → size d source ≡ size d target + 1
    → (d' : Dict (List ℕ))
    → d' ≡ insert source rest (insert target (shards_of d target ++ shard ∷ []) d)
    → is_balanced d'
        (get_gid_with_maximum_shards (order.visit t d'))
        (get_gid_with_minimum_shards (order.visit u d'))
      ≡ true
move_last_from order t u d source target shard bound rest is_0 h facts q apart one d' made =
    move_last-is_balanced order t u d target shard bound rest h (rw is_0 at facts) (rw is_0 at q)
      (rw is_0 at apart) (rw is_0 at one) d' (rw is_0 at made)

-- The source of a move has a shard.
pub shards_of-cons :
    (d : Dict (List ℕ)) (k : ℕ)
    → 0 < size d k
    → (shard : ℕ) × (rest : List ℕ) × (shards_of d k ≡ shard ∷ rest)
shards_of-cons d k h =
    elim (shards_of d k)
        as (λ l.
          shards_of d k ≡ l → (shard : ℕ) × (rest : List ℕ) × (shards_of d k ≡ shard ∷ rest)) [
            | [] ↦ λ q. absurd (ground arith)
            | shard ∷ rest ↦ λ q. (shard, rest, q)
          ]
      refl

-- Where the loop does not break, the source has more shards, and if just one more, it is group 0.
unbalanced :
    (d : Dict (List ℕ)) (source target : ℕ)
    → Found d source target
    → (size d source ≡ size d target → source ≡ target)
    → is_balanced d source target ≡ false
    → ((source == target) ≡ false)
      × ((size d target + 2 ≤ size d source) ⊎ (size d source ≡ size d target + 1) × (source ≡ 0))
unfolding is_balanced
unbalanced d source target facts agree e =
    let apart : (source == target) ≡ false = ground arith in
    let differ : size d source ≢ size d target = λ same. absurd (ground (arith, agree same)) in
    let above = facts.ordered in
    (
      apart,
      elim (Bool-cases (size d source == size d target + 1)) [
        | inl one ↦ inr (ground arith, ground arith)
        | inr more ↦ inl (grind arith)
      ],
    )

-- The visits are in one order from the tick on.
abbrev pub IsSteadyFrom : MapOrder → ℕ → Type 0
IsSteadyFrom order from =
    (t u : ℕ) (m : Dict (List ℕ)) → from ≤ t → from ≤ u → order.visit t m ≡ order.visit u m

module _ (order : MapOrder) (from : ℕ) (steady : IsSteadyFrom order from) where
  pub balance-ends_from :
      (rounds tick : ℕ) (d : Dict (List ℕ)) (bound : ℕ)
      → from ≤ tick
      → IsLoopState d bound
      → squares d + 2 ≤ rounds
      → (d' : Dict (List ℕ)) × (balance order rounds tick d ≡ some d')
  unfolding balance move_shard
  balance-ends_from zero tick d bound past h enough = absurd (omega (arith, enough))
  balance-ends_from (suc zero) tick d bound past h enough = absurd (omega (arith, enough))
  balance-ends_from (suc (suc rounds)) tick d bound past h enough =
      let source = get_gid_with_maximum_shards (order.visit tick d) in
      let target = get_gid_with_minimum_shards (order.visit (tick + 1) d) in
      let facts = scans-Found order tick (tick + 1) d bound h in
      let agree =
        all_equal-agree order tick (tick + 1) d bound (steady tick (tick + 1) d past (omega arith))
          h in
      let (shard, rest, q) = shards_of-cons d source facts.positive in
      let next = insert source rest (insert target (shards_of d target ++ shard ∷ []) d) in
      elim (Bool-cases (is_balanced d source target)) [
        | inl done ↦ (d, ground arith)
        | inr on ↦
            let (apart, gap) = unbalanced d source target facts agree on in
            let goes : balance order (suc (suc rounds)) tick d
                ≡ balance order (suc rounds) (tick + 2) next =
              ground arith in
            elim gap [
              | inl wide ↦
                  let sum = squares-move d source target shard rest q apart in
                  let (d', ran) =
                    balance-ends_from (suc rounds) (tick + 2) next bound (omega arith)
                      (move-IsLoopState d source target shard bound rest h q apart
                        (omega (arith, wide)))
                      (omega (arith, sum, wide, enough, ap length q)) in
                  (d', goes ∙ ran)
              | inr (one, is_0) ↦
                  let done =
                    move_last_from order (tick + 2) (tick + 3) d source target shard bound rest is_0
                      h facts q apart one next refl in
                  (next, goes ∙ ground arith)
            ]
      ]

-- ===== src/ShardCtrler/Ends.antt =====
-- The loop of `Join` in shardctrler/configStateMachine.go can end from wherever it is: it does once
-- the visits of a map keep to one order.
use raft_side.Prelude.{
  ltb, ℕ, zero, suc, ◌+◌, ◌≤◌, ◌<◌, ◌≡◌, arith, true, false, some, List, [], ◌∷◌, ◌++◌, ◌==◌,
  if◌then◌else◌, Bool-cases, inl, inr, ◌∙◌, length,
}
use mathlib.Core.List.{Perm}
use mathlib.Core.List.Perm
use raft_side.ShardCtrler.Steady.{IsSteadyFrom, balance-ends_from, shards_of-cons}
use raft_side.Prelude.Dict.{Distinct, Dict, lookup, insert}
use raft_side.ShardCtrler.Types.{Config, n_shards}
use raft_side.ShardCtrler.Machine.{
  MapOrder, get_gid_with_minimum_shards, get_gid_with_maximum_shards, move_shard, balance,
  is_balanced, shards_of, group2_shards,
}
use raft_side.ShardCtrler.Bounds.{size, group2_shards-IsBounded}
use raft_side.ShardCtrler.Even.{total, total-IsBounded, move_shard-total, group2_shards-total}
use raft_side.ShardCtrler.Moves.{squares, scans-Found, IsLoopState}

-- A map of the loop with all ten shards is such a state.
total-some : (d : Dict (List ℕ)) → Distinct d → 0 < total d → (k : ℕ) × (0 < size d k)
unfolding total lookup
total-some [] h pos = absurd (omega arith)
total-some ((k, []) ∷ d) (new, h) pos =
    let (j, some_shard) = total-some d h (omega (arith, pos)) in
    elim (Bool-cases (k == j)) [ inl same ↦ absurd (ground arith) | inr other ↦ (j, ground arith) ]
total-some ((k, x ∷ xs) ∷ d) h pos = (k, ground arith)

total-IsLoopState : (d : Dict (List ℕ)) → Distinct d → total d ≡ n_shards → IsLoopState d n_shards
total-IsLoopState d h all = record {
  distinct = h;
  bounded = λ k xs at. omega (arith, total-IsBounded d k xs at, all);
  small = omega arith;
  some_shard = total-some d h (omega (arith, all));
}

move_shard-some :
    (d : Dict (List ℕ)) (source target : ℕ)
    → 0 < size d source
    → (next : Dict (List ℕ)) × (move_shard d source target ≡ some next)
unfolding move_shard
move_shard-some d source target pos =
    let (shard, rest, q) = shards_of-cons d source pos in
    (insert source rest (insert target (shards_of d target ++ shard ∷ []) d), ground arith)

module _ (order : MapOrder) where
  balance_done :
      (rounds tick : ℕ) (d : Dict (List ℕ))
      → 1 ≤ rounds
      → is_balanced d
          (get_gid_with_maximum_shards (order.visit tick d))
          (get_gid_with_minimum_shards (order.visit (tick + 1) d))
        ≡ true
      → (d' : Dict (List ℕ)) × (balance order rounds tick d ≡ some d')
  unfolding balance
  balance_done zero tick d low done = absurd (omega arith)
  balance_done (suc rounds) tick d low done = (d, ground arith)

  balance_goes :
      (rounds tick : ℕ) (d next : Dict (List ℕ)) (enough : ℕ)
      → suc enough ≤ rounds
      → is_balanced d
          (get_gid_with_maximum_shards (order.visit tick d))
          (get_gid_with_minimum_shards (order.visit (tick + 1) d))
        ≡ false
      → move_shard d
          (get_gid_with_maximum_shards (order.visit tick d))
          (get_gid_with_minimum_shards (order.visit (tick + 1) d))
        ≡ some next
      → ((more : ℕ)
          → enough ≤ more
          → (d' : Dict (List ℕ)) × (balance order more (tick + 2) next ≡ some d'))
      → (d' : Dict (List ℕ)) × (balance order rounds tick d ≡ some d')
  unfolding balance
  balance_goes zero tick d next enough low on moved ends = absurd (omega arith)
  balance_goes (suc rounds) tick d next enough low on moved ends =
      let (d', ran) = ends rounds (omega (arith, low)) in (d', ground arith)

module _ (order : MapOrder) (from : ℕ) (steady : IsSteadyFrom order from) where
  -- Before that the loop keeps its shards, in whatever order the visits are.
  balance-ends_later :
      (n tick : ℕ) (d : Dict (List ℕ))
      → from ≤ tick + n
      → Distinct d
      → total d ≡ n_shards
      → (enough : ℕ) × ((rounds : ℕ)
          → enough ≤ rounds
          → (d' : Dict (List ℕ)) × (balance order rounds tick d ≡ some d'))
  unfolding balance
  balance-ends_later zero tick d past h all = (
    squares d + 2,
    λ rounds enough.
        balance-ends_from order from steady rounds tick d n_shards (omega (arith, past))
          (total-IsLoopState d h all) enough,
  )
  balance-ends_later (suc n) tick d past h all =
      let source = get_gid_with_maximum_shards (order.visit tick d) in
      let target = get_gid_with_minimum_shards (order.visit (tick + 1) d) in
      let state = total-IsLoopState d h all in
      let facts = scans-Found order tick (tick + 1) d n_shards state in
      elim (Bool-cases (is_balanced d source target)) [
        | inl done ↦ (1, λ rounds enough. balance_done order rounds tick d enough done)
        | inr on ↦
            let (next, moved) = move_shard-some d source target facts.positive in
            let (h', kept) = move_shard-total d source target {d' = next} h on moved in
            let (enough, ends) =
              balance-ends_later n (tick + 2) next (omega (arith, past)) h' (kept ∙ all) in
            (
              suc enough,
              λ rounds more. balance_goes order rounds tick d next enough more on moved ends,
            )
      ]

-- The order that is drawn up to a tick, and from there on that of the map's entries.
abbrev pub settling_visit : MapOrder → (from tick : ℕ) → Dict (List ℕ) → Dict (List ℕ)
settling_visit order from tick m = if ltb tick from then order.visit tick m else m

pub settling_visit-perm :
    (order : MapOrder) (from tick : ℕ) (m : Dict (List ℕ))
    → Perm (settling_visit order from tick m) m
settling_visit-perm order from tick m = elim (Bool-cases (ltb tick from)) [
  | inl before ↦ rw before (order.visit-perm tick m)
  | inr after ↦ rw after Perm.rfl
]

abbrev pub settling : MapOrder → (from : ℕ) → MapOrder
settling order from = record {
  visit = settling_visit order from;
  visit-perm = settling_visit-perm order from;
}

settling-IsSteadyFrom : (order : MapOrder) (from : ℕ) → IsSteadyFrom (settling order from) from
settling-IsSteadyFrom order from t u m p q = ground arith

-- Whatever orders Go draws for the visits of the map in the first rounds, however many, the loop of
-- `Join` on a configuration of ten shards and any groups does not panic, and ends if the visits after
-- them keep to one order: some number of rounds is enough, and any more are too. No beginning of a
-- run keeps the loop from ending.
pub balance-ends :
    (order : MapOrder) (from : ℕ) (config : Config)
    → length config.shards ≡ n_shards
    → (enough : ℕ) × ((rounds : ℕ)
        → enough ≤ rounds
        → (g2s : Dict (List ℕ)) × (balance (settling order from) rounds 0 (group2_shards config)
            ≡ some g2s))
balance-ends order from config sized =
    let (h, b) = group2_shards-IsBounded config in
    balance-ends_later (settling order from) from (settling-IsSteadyFrom order from) from 0
      (group2_shards config) (omega arith) h (group2_shards-total config ∙ sized)

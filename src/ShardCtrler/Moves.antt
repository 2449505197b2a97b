-- ===== src/ShardCtrler/Moves.antt =====
-- One move of the loop of `Join` in shardctrler/configStateMachine.go: what the scans find, and what
-- the move does to the sizes.
use raft_side.Prelude.{
  ℕ, suc, ◌+◌, ◌*◌, ◌≤◌, ◌<◌, ◌≡◌, refl, arith, Bool, true, false, some, List, [], ◌∷◌, ◌++◌, ◌==◌,
  if◌then◌else◌, Bool-cases, inl, inr, Option-cases, length, ap, length-append,
}
use raft_side.Prelude.Dict.{Dict, lookup, insert, lookup-insert, Distinct, insert-Distinct}
use raft_side.ShardCtrler.Machine.{
  MapOrder, min_from, max_from, get_gid_with_minimum_shards, get_gid_with_maximum_shards, shards_of,
}
use raft_side.ShardCtrler.Keys.{all_keys}
use raft_side.ShardCtrler.Sizes.{all_of}
use raft_side.ShardCtrler.Bounds.{
  size, IsBounded, maximum-most, minimum-least, insert-IsBounded, shards_of-IsBounded,
}

-- The sum of the squares of the sizes, which every move between uneven groups lowers.
pub squares : Dict (List ℕ) → ℕ
squares [] = 0
squares ((k, xs) ∷ d) = length xs * length xs + squares d

squares-insert :
    (k : ℕ) (xs : List ℕ) (d : Dict (List ℕ))
    → squares (insert k xs d) + size d k * size d k ≡ squares d + length xs * length xs
unfolding squares insert lookup
squares-insert k xs [] = omega arith
squares-insert k xs ((j, ys) ∷ d) = elim (Bool-cases (j == k)) [
  | inl same ↦ ground arith
  | inr other ↦ ground (arith, squares-insert k xs d)
]

square_suc : (n : ℕ) → suc n * suc n ≡ n * n + 2 * n + 1
square_suc n = grind arith

sums :
    (s0 s1 s2 b r x g : ℕ)
    → s1 + b * b ≡ s0 + x * x
    → x ≡ suc b
    → s2 + g * g ≡ s1 + r * r
    → g ≡ suc r
    → s2 + 2 * r ≡ s0 + 2 * b
sums s0 s1 s2 b r x g one ex two eg =
    let xx : x * x ≡ b * b + 2 * b + 1 = rw ex (square_suc b) in
    let gg : g * g ≡ r * r + 2 * r + 1 = rw eg (square_suc r) in omega (arith, one, two, xx, gg)

-- A move from a group with at least two shards more lowers the sum.
pub squares-move :
    (d : Dict (List ℕ)) (source target shard : ℕ) (rest : List ℕ)
    → shards_of d source ≡ shard ∷ rest
    → (source == target) ≡ false
    → squares (insert source rest (insert target (shards_of d target ++ shard ∷ []) d))
        + 2 * length rest
      ≡ squares d + 2 * size d target
squares-move d source target shard rest q apart =
    let xs = shards_of d target ++ shard ∷ [] in
    let given = insert target xs d in
    let one = squares-insert target xs d in
    let two = squares-insert source rest given in
    let more : length xs ≡ suc (size d target) =
      omega (arith, length-append (shards_of d target) (shard ∷ [])) in
    let kept : size given source ≡ suc (length rest) =
      ground (arith, lookup-insert target source xs d) in
    sums (squares d) (squares given) (squares (insert source rest given)) (size d target)
      (length rest) (length xs) (size given source) one more two kept

-- All groups have the same number of shards: both scans stay at the first.
max_from-all :
    (d : Dict (List ℕ)) (index l : ℕ)
    → all_of (λ k xs. length xs == l) d ≡ true
    → max_from d index l ≡ index
unfolding max_from
max_from-all [] index l h = refl
max_from-all ((k, xs) ∷ d) index l h = ground (arith, max_from-all d index l)

min_from-all :
    (d : Dict (List ℕ)) (index l : ℕ)
    → all_of (λ k xs. length xs == l) d ≡ true
    → min_from d index l ≡ index
unfolding min_from
min_from-all [] index l h = refl
min_from-all ((k, xs) ∷ d) index l h = ground (arith, min_from-all d index l)

pub scans-agree :
    (d : Dict (List ℕ)) (l : ℕ)
    → 0 < l
    → l < 100000000
    → all_of (λ k xs. length xs == l) d ≡ true
    → get_gid_with_maximum_shards d ≡ get_gid_with_minimum_shards d
unfolding get_gid_with_maximum_shards get_gid_with_minimum_shards max_from min_from
scans-agree [] l h g e = refl
scans-agree ((k, xs) ∷ d) l h g e =
    let all : all_of (λ k ys. length ys == length xs) d ≡ true = ground arith in
    ground (arith, max_from-all d k (length xs) all, min_from-all d k (length xs) all)

-- A state of the loop: distinct keys, counts that the scans can tell, and a shard somewhere.
pub record IsLoopState (d : Dict (List ℕ)) (bound : ℕ) : Type 0 where
  pub distinct : Distinct d
  pub bounded : IsBounded d bound
  pub small : bound < 100000000
  pub some_shard : (k : ℕ) × (0 < size d k)

-- The sizes after a move.
pub size-move :
    (d : Dict (List ℕ)) (source target shard k : ℕ) (rest : List ℕ)
    → shards_of d source ≡ shard ∷ rest
    → (source == target) ≡ false
    → size (insert source rest (insert target (shards_of d target ++ shard ∷ []) d)) k ≡ (
        if source == k
        then length rest
        else (if target == k then suc (size d target) else size d k))
size-move d source target shard k rest q apart =
    let xs = shards_of d target ++ shard ∷ [] in
    ground (
      arith,
      lookup-insert source k rest (insert target xs d),
      lookup-insert target k xs d,
      length-append (shards_of d target) (shard ∷ []),
    )

pub all_keys-Distinct :
    (p : ℕ → Bool) (d : Dict (List ℕ))
    → Distinct d
    → ((k : ℕ) (xs : List ℕ) → lookup k d ≡ some xs → p k ≡ true)
    → all_keys p d ≡ true
unfolding lookup
all_keys-Distinct p [] h f = refl
all_keys-Distinct p ((k, xs) ∷ d) (new, h) f =
    ground (arith, f k xs, all_keys-Distinct p d h (λ j ys at. f j ys (ground arith)))

-- What the two scans find in a state of the loop.
pub record Found (d : Dict (List ℕ)) (source target : ℕ) : Type 0 where
  pub most : (k : ℕ) → size d k ≤ size d source
  pub least : (k : ℕ) (xs : List ℕ) → lookup k d ≡ some xs → size d target ≤ length xs
  pub positive : 0 < size d source
  pub ordered : size d target ≤ size d source

pub scans-Found :
    (order : MapOrder) (t u : ℕ) (d : Dict (List ℕ)) (bound : ℕ)
    → IsLoopState d bound
    → Found d
        (get_gid_with_maximum_shards (order.visit t d))
        (get_gid_with_minimum_shards (order.visit u d))
scans-Found order t u d bound h =
    let source = get_gid_with_maximum_shards (order.visit t d) in
    let (k, shards) = h.some_shard in
    let most : (j : ℕ) → size d j ≤ size d source = λ j. elim (Option-cases (lookup j d)) [
      | inl missing ↦ ground arith
      | inr (xs, at) ↦ let high = maximum-most order t d h.distinct j xs at in ground arith
    ] in
    let least = minimum-least order u d h.distinct bound h.bounded h.small in
    record {
      most = most;
      least = least;
      positive = omega (arith, most k, shards);
      ordered = elim (Option-cases (lookup source d)) [
        | inl missing ↦ let high = most k in absurd (ground arith)
        | inr (xs, at) ↦ let low = least source xs at in ground arith
      ];
    }

-- The loop goes on from a state like this to another.
pub move-IsLoopState :
    (d : Dict (List ℕ)) (source target shard bound : ℕ) (rest : List ℕ)
    → IsLoopState d bound
    → shards_of d source ≡ shard ∷ rest
    → (source == target) ≡ false
    → size d target + 1 ≤ size d source
    → IsLoopState (insert source rest (insert target (shards_of d target ++ shard ∷ []) d)) bound
move-IsLoopState d source target shard bound rest h q apart uneven =
    let xs = shards_of d target ++ shard ∷ [] in
    let most = shards_of-IsBounded d bound source h.bounded in
    let grown : length xs ≤ bound =
      omega (arith, length-append (shards_of d target) (shard ∷ []), most, uneven) in
    let fewer : length rest ≤ bound = omega (arith, most, ap length q) in
    record {
      distinct =
          insert-Distinct source rest (insert target xs d) (insert-Distinct target xs d h.distinct);
      bounded =
          insert-IsBounded (insert target xs d) bound source rest
            (insert-IsBounded d bound target xs h.bounded grown) fewer;
      small = h.small;
      some_shard = (target, ground (arith, size-move d source target shard target rest q apart));
    }

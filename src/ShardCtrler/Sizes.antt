-- ===== src/ShardCtrler/Sizes.antt =====
-- The scans for the fewest and the most shards in shardctrler/configStateMachine.go find them.
use mathlib.Core.List.{Perm, Permᴰ}
use mathlib.Core.Logic.{∥∥₁_elim}
use mathlib.Core.Bool.{Bool-set}
use raft_side.Prelude.{
  ℕ, ◌≤◌, ◌≡◌, refl, arith, Bool, true, ◌&&◌, some, List, [], ◌∷◌, ltb, leb, ◌==◌, Bool-cases, inl,
  inr, ◌∙◌, length, ◌⊎◌,
}
use raft_side.Prelude.Dict.{Dict, lookup, Distinct}
use raft_side.ShardCtrler.Machine.{min_from, max_from}

-- Every entry passes the test.
abbrev pub all_of : (ℕ → List ℕ → Bool) → Dict (List ℕ) → Bool
all_of q [] = true
all_of q ((k, xs) ∷ d) = q k xs && all_of q d

all_of-permᴰ : (q : ℕ → List ℕ → Bool) {l m : Dict (List ℕ)} → Permᴰ l m → all_of q l ≡ all_of q m
all_of-permᴰ q Permᴰ.nil = refl
all_of-permᴰ q (Permᴰ.cons e p) = ground (arith, all_of-permᴰ q p)
all_of-permᴰ q (Permᴰ.swap e f) = ground arith
all_of-permᴰ q (Permᴰ.trans p r) = all_of-permᴰ q p ∙ all_of-permᴰ q r

pub all_of-perm : (q : ℕ → List ℕ → Bool) {l m : Dict (List ℕ)} → Perm l m → all_of q l ≡ all_of q m
all_of-perm q p = ∥∥₁_elim p (Bool-set _ _) (all_of-permᴰ q)

-- With distinct keys the entries are what the map has.
pub all_of-Distinct :
    (q : ℕ → List ℕ → Bool) (d : Dict (List ℕ))
    → Distinct d
    → ((k : ℕ) (xs : List ℕ) → lookup k d ≡ some xs → q k xs ≡ true)
    → all_of q d ≡ true
unfolding lookup
all_of-Distinct q [] h f = refl
all_of-Distinct q ((k, xs) ∷ d) (new, h) f =
    ground (arith, f k xs, all_of-Distinct q d h (λ j ys at. f j ys (ground arith)))

pub all_of-lookup :
    (q : ℕ → List ℕ → Bool) (d : Dict (List ℕ)) (k : ℕ) (xs : List ℕ)
    → all_of q d ≡ true
    → lookup k d ≡ some xs
    → q k xs ≡ true
unfolding lookup
all_of-lookup q [] k xs h at = absurd (ground arith)
all_of-lookup q ((j, ys) ∷ d) k xs h at = ground (arith, all_of-lookup q d k xs)

-- A test of each entry that the sizes by another count pass.
abbrev pub sized_by : (ℕ → ℕ) → ℕ → List ℕ → Bool
sized_by f k xs = f k == length xs

pub max_from-most :
    (f : ℕ → ℕ) (d : Dict (List ℕ)) (index l : ℕ)
    → all_of (sized_by f) d ≡ true
    → (most : ℕ) × (all_of (λ k xs. leb (length xs) most) d ≡ true)
      × (l ≤ most)
      × ((f (max_from d index l) ≡ most) ⊎ (max_from d index l ≡ index) × (most ≡ l))
unfolding max_from
max_from-most f [] index l h = (l, refl, omega arith, inr (refl, refl))
max_from-most f ((k, xs) ∷ d) index l h = elim (Bool-cases (ltb l (length xs))) [
  | inl more ↦
      let (most, all, above, at) = max_from-most f d k (length xs) (ground arith) in
      (most, ground arith, ground arith, ground arith)
  | inr less ↦
      let (most, all, above, at) = max_from-most f d index l (ground arith) in
      (most, ground arith, ground arith, ground arith)
]

pub min_from-least :
    (f : ℕ → ℕ) (d : Dict (List ℕ)) (index l : ℕ)
    → all_of (sized_by f) d ≡ true
    → (least : ℕ) × (all_of (λ k xs. leb least (length xs)) d ≡ true)
      × (least ≤ l)
      × ((f (min_from d index l) ≡ least) ⊎ (min_from d index l ≡ index) × (least ≡ l))
unfolding min_from
min_from-least f [] index l h = (l, refl, omega arith, inr (refl, refl))
min_from-least f ((k, xs) ∷ d) index l h = elim (Bool-cases (ltb (length xs) l)) [
  | inl less ↦
      let (least, all, below, at) = min_from-least f d k (length xs) (ground arith) in
      (least, ground arith, ground arith, ground arith)
  | inr more ↦
      let (least, all, below, at) = min_from-least f d index l (ground arith) in
      (least, ground arith, ground arith, ground arith)
]

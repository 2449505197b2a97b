-- ===== src/ShardCtrler/Keys.antt =====
-- The groups that the maps of shardctrler/configStateMachine.go name, by a Boolean test.
use mathlib.Core.List.{Perm, Permᴰ}
use mathlib.Core.Logic.{∥∥₁_elim}
use mathlib.Core.Bool.{Bool-set}
use raft_side.Prelude.{
  ℕ, zero, suc, ◌+◌, ◌≡◌, refl, arith, Bool, true, false, ◌&&◌, some, List, [], ◌∷◌, ◌++◌, ltb,
  ◌==◌, Bool-cases, inl, inr, ◌∙◌, Option-cases, set?, replicate, length,
}
use raft_side.Prelude.Dict.{Dict, insert, delete}
use raft_side.ShardCtrler.Machine.{
  MapOrder, min_from, max_from, get_gid_with_minimum_shards, get_gid_with_maximum_shards,
  move_shard, balance, is_balanced, place_orphans, shards_of,
}

module _ {ℓ} {V : Type ℓ} where
  -- Every key passes the test.
  abbrev pub all_keys : (ℕ → Bool) → Dict V → Bool
  all_keys p [] = true
  all_keys p ((k, v) ∷ d) = p k && all_keys p d

  all_keys-permᴰ : (p : ℕ → Bool) {l m : Dict V} → Permᴰ l m → all_keys p l ≡ all_keys p m
  all_keys-permᴰ p Permᴰ.nil = refl
  all_keys-permᴰ p (Permᴰ.cons e q) = ground (arith, all_keys-permᴰ p q)
  all_keys-permᴰ p (Permᴰ.swap e f) = ground arith
  all_keys-permᴰ p (Permᴰ.trans q r) = all_keys-permᴰ p q ∙ all_keys-permᴰ p r

  pub all_keys-insert :
      (p : ℕ → Bool) (k : ℕ) (v : V) (d : Dict V)
      → p k ≡ true
      → all_keys p d ≡ true
      → all_keys p (insert k v d) ≡ true
  unfolding insert
  all_keys-insert p k v [] h g = ground arith
  all_keys-insert p k v (e ∷ d) h g = ground (arith, all_keys-insert p k v d h)

  -- What is left after a deletion does not have the key.
  pub all_keys-delete :
      (p q : ℕ → Bool) (k : ℕ) (d : Dict V)
      → ((j : ℕ) → p j ≡ true → (k == j) ≡ false → q j ≡ true)
      → all_keys p d ≡ true
      → all_keys q (delete k d) ≡ true
  unfolding delete
  all_keys-delete p q k [] h g = refl
  all_keys-delete p q k (e ∷ d) h g = ground (arith, all_keys-delete p q k d h, h (e.0))

  pub all_keys-perm : (p : ℕ → Bool) {l m : Dict V} → Perm l m → all_keys p l ≡ all_keys p m
  all_keys-perm p q = ∥∥₁_elim q (Bool-set _ _) (all_keys-permᴰ p)

-- The group with the fewest shards, or with the most, is one of the map or the first guess.
min_from-key :
    (p : ℕ → Bool) (d : Dict (List ℕ)) (index l : ℕ)
    → p index ≡ true
    → all_keys p d ≡ true
    → p (min_from d index l) ≡ true
unfolding min_from
min_from-key p [] index l h g = h
min_from-key p ((k, v) ∷ d) index l h g = elim (Bool-cases (ltb (length v) l)) [
  | inl less ↦ rw less (min_from-key p d k (length v) (ground arith) (ground arith))
  | inr more ↦ rw more (min_from-key p d index l h (ground arith))
]

max_from-key :
    (p : ℕ → Bool) (d : Dict (List ℕ)) (index l : ℕ)
    → p index ≡ true
    → all_keys p d ≡ true
    → p (max_from d index l) ≡ true
unfolding max_from
max_from-key p [] index l h g = h
max_from-key p ((k, v) ∷ d) index l h g = elim (Bool-cases (ltb l (length v))) [
  | inl more ↦ rw more (max_from-key p d k (length v) (ground arith) (ground arith))
  | inr less ↦ rw less (max_from-key p d index l h (ground arith))
]

module _ (order : MapOrder) (p : ℕ → Bool) (zero_ok : p 0 ≡ true) where
  visit-keys :
      (t : ℕ) (d : Dict (List ℕ)) → all_keys p d ≡ true → all_keys p (order.visit t d) ≡ true
  visit-keys t d h = all_keys-perm p (order.visit-perm t d) ∙ h

  pub minimum-key :
      (t : ℕ) (d : Dict (List ℕ))
      → all_keys p d ≡ true
      → p (get_gid_with_minimum_shards (order.visit t d)) ≡ true
  unfolding get_gid_with_minimum_shards
  minimum-key t d h = min_from-key p (order.visit t d) 0 100000000 zero_ok (visit-keys t d h)

  maximum-key :
      (t : ℕ) (d : Dict (List ℕ))
      → all_keys p d ≡ true
      → p (get_gid_with_maximum_shards (order.visit t d)) ≡ true
  unfolding get_gid_with_maximum_shards
  maximum-key t d h = max_from-key p (order.visit t d) 0 0 zero_ok (visit-keys t d h)

  move_shard-keys :
      (d : Dict (List ℕ)) (source target : ℕ) {d' : Dict (List ℕ)}
      → p source ≡ true
      → p target ≡ true
      → all_keys p d ≡ true
      → move_shard d source target ≡ some d'
      → all_keys p d' ≡ true
  unfolding move_shard
  move_shard-keys d source target {d'} s t h e =
      elim (shards_of d source) as (λ l. shards_of d source ≡ l → all_keys p d' ≡ true) [
        | [] ↦ λ q. absurd (ground arith)
        | shard ∷ rest ↦ λ q.
            let inner = all_keys-insert p target (shards_of d target ++ shard ∷ []) d t h in
            let outer =
              all_keys-insert p source rest (insert target (shards_of d target ++ shard ∷ []) d) s
                inner in
            ground arith
      ]
        refl

  pub balance-keys :
      (rounds tick : ℕ) (d : Dict (List ℕ)) {d' : Dict (List ℕ)}
      → all_keys p d ≡ true
      → balance order rounds tick d ≡ some d'
      → all_keys p d' ≡ true
  unfolding balance
  balance-keys zero tick d h e = absurd (ground arith)
  balance-keys (suc rounds) tick d {d'} h e =
      let source = get_gid_with_maximum_shards (order.visit tick d) in
      let target = get_gid_with_minimum_shards (order.visit (tick + 1) d) in
      elim (Bool-cases (is_balanced d source target)) [
        | inl done ↦ ground arith
        | inr on ↦ elim (Option-cases (move_shard d source target)) [
          | inl failed ↦ absurd (ground arith)
          | inr (d1, moved) ↦
              balance-keys rounds (tick + 2) d1 {d' = d'}
                (move_shard-keys d source target {d' = d1} (maximum-key tick d h)
                  (minimum-key (tick + 1) d h) h moved)
                (ground arith)
        ]
      ]

  pub place_orphans-keys :
      (tick : ℕ) (orphans : List ℕ) (d : Dict (List ℕ))
      → all_keys p d ≡ true
      → all_keys p (place_orphans order tick orphans d) ≡ true
  unfolding place_orphans
  place_orphans-keys tick [] d h = h
  place_orphans-keys tick (shard ∷ orphans) d h =
      let target = get_gid_with_minimum_shards (order.visit tick d) in
      place_orphans-keys (tick + 1) orphans (insert target (shards_of d target ++ shard ∷ []) d)
        (all_keys-insert p target (shards_of d target ++ shard ∷ []) d (minimum-key tick d h) h)

-- Every entry of an array passes the test.
abbrev pub all_entries : (ℕ → Bool) → List ℕ → Bool
all_entries p [] = true
all_entries p (x ∷ xs) = p x && all_entries p xs

pub all_entries-replicate :
    (p : ℕ → Bool) (n a : ℕ) → p a ≡ true → all_entries p (replicate n a) ≡ true
all_entries-replicate p zero a h = refl
all_entries-replicate p (suc n) a h = ground (arith, all_entries-replicate p n a h)

pub all_entries-set? :
    (p : ℕ → Bool) (xs : List ℕ) (i a : ℕ) {ys : List ℕ}
    → p a ≡ true
    → all_entries p xs ≡ true
    → set? xs i a ≡ some ys
    → (all_entries p ys ≡ true) × (length ys ≡ length xs)
all_entries-set? p [] i a h g e = absurd (ground arith)
all_entries-set? p (x ∷ xs) zero a h g e = (ground arith, ground arith)
all_entries-set? p (x ∷ xs) (suc i) a {ys} h g e = elim (Option-cases (set? xs i a)) [
  | inl past ↦ absurd (ground arith)
  | inr (zs, at) ↦
      let (ok, size) = all_entries-set? p xs i a {ys = zs} h (ground arith) at in
      (ground arith, ground arith)
]

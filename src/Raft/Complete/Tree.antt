-- ===== src/Raft/Complete/Tree.antt =====
-- Ways down the tree of entries.
use raft_side.Prelude.{
  ℕ, zero, suc, ◌≤◌, ◌≡◌, inl, inr, arith, Option, some, Bool-cases, Option-cases, ◌==◌,
}
use raft_side.Raft.Matching.{Made, MadeGrows}
use raft_side.Raft.Complete.{On, Rooted, above}

module _ {Cmd : Type 0} (made : Made Cmd) where
  pub On-self : (u k : ℕ) → On made u k u k
  unfolding above
  On-self u zero = ground arith
  On-self u (suc k) = ground arith

  pub On-le : (t i u k : ℕ) → On made t i u k → i ≤ k
  unfolding above
  On-le t i u zero o = ground arith
  On-le t i u (suc k) o = elim (Option-cases (made u (suc k))) [
    | inl none_made ↦ ground arith
    | inr ((v, c), at) ↦ ground (arith, On-le t i v k)
  ]

  -- One step down.
  pub On-up :
      (t i u k v : ℕ) (c : Option Cmd)
      → made u (suc k) ≡ some (v, c)
      → On made t i v k
      → On made t i u (suc k)
  unfolding above
  On-up t i u k v c at o = ground (arith, On-le t i v k o)

  pub On-up_at :
      (t i u k l v : ℕ) (c : Option Cmd)
      → l ≡ suc k
      → made u l ≡ some (v, c)
      → On made t i v k
      → On made t i u l
  On-up_at t i u k l v c e at o = rw e (On-up t i u k v c (rw e at at) o)

  On-down :
      (t i u k v : ℕ) (c : Option Cmd)
      → made u (suc k) ≡ some (v, c)
      → On made t i u (suc k)
      → i ≤ k
      → On made t i v k
  unfolding above
  On-down t i u k v c at o low = ground arith

  pub On-trans : (t i s j u k : ℕ) → On made s j u k → On made t i s j → On made t i u k
  unfolding above
  On-trans t i s j u zero o p =
      let low = On-le s j u zero o in
      let same : j ≡ 0 = omega arith in let one : s ≡ u = ground arith in rw (same, one) at p
  On-trans t i s j u (suc k) o p = elim (Bool-cases (j == suc k)) [
    | inl top ↦
        let same : j ≡ suc k = ground arith in let one : s ≡ u = ground arith in rw (same, one) at p
    | inr lower ↦ elim (Option-cases (made u (suc k))) [
      | inl none_made ↦ absurd (ground arith)
      | inr ((v, c), at) ↦ On-up t i u k v c at (On-trans t i s j v k (ground arith) p)
    ]
  ]

  -- Of two entries on one way down, the lower is on the way down from the higher.
  pub On-between : (t i s j u k : ℕ) → On made s j u k → On made t i u k → i ≤ j → On made t i s j
  unfolding above
  On-between t i s j u zero o p low =
      let le = On-le s j u zero o in
      let same : j ≡ 0 = omega arith in let one : s ≡ u = ground arith in rw (same, one) p
  On-between t i s j u (suc k) o p low = elim (Bool-cases (j == suc k)) [
    | inl top ↦
        let same : j ≡ suc k = ground arith in let one : s ≡ u = ground arith in rw (same, one) p
    | inr lower ↦ elim (Option-cases (made u (suc k))) [
      | inl none_made ↦ absurd (ground arith)
      | inr ((v, c), at) ↦
          let le : j ≤ k = ground (arith, On-le s j u (suc k) o) in
          On-between t i s j v k (On-down s j u k v c at o le)
            (On-down t i u k v c at p (omega arith)) low
    ]
  ]

  pub Rooted-up :
      (u k v : ℕ) (c : Option Cmd)
      → made u (suc k) ≡ some (v, c)
      → Rooted made v k
      → Rooted made u (suc k)
  unfolding above
  Rooted-up u k v c at r i low = elim (Bool-cases (i == suc k)) [
    | inl top ↦ (u, ground arith)
    | inr lower ↦ let (t, o) = r i (ground arith) in (t, On-up t i u k v c at o)
  ]

  pub Rooted-On : (t i u k : ℕ) → Rooted made u k → On made t i u k → Rooted made t i
  Rooted-On t i u k r o j low =
      let (s, p) = r j (omega (arith, On-le t i u k o)) in (s, On-between s j t i u k o p low)

pub On-MadeGrows :
    {Cmd : Type 0} (made made' : Made Cmd) (t i u k : ℕ)
    → MadeGrows made made'
    → On made t i u k
    → On made' t i u k
unfolding above
On-MadeGrows made made' t i u zero g o = o
On-MadeGrows made made' t i u (suc k) g o = elim (Option-cases (made u (suc k))) [
  | inl none_made ↦ ground arith
  | inr ((v, c), at) ↦ elim (Bool-cases (i == suc k)) [
    | inl top ↦ ground arith
    | inr lower ↦
        let later = On-MadeGrows made made' t i v k g (ground arith) in
        ground (arith, g u (suc k) (v, c) at)
  ]
]

pub Rooted-MadeGrows :
    {Cmd : Type 0} (made made' : Made Cmd) (u k : ℕ)
    → MadeGrows made made'
    → Rooted made u k
    → Rooted made' u k
Rooted-MadeGrows made made' u k g r i low =
    let (t, o) = r i low in (t, On-MadeGrows made made' t i u k g o)

-- ===== src/Raft/Complete/Grows.antt =====
-- What is known of a history stays so as it grows.
use raft_side.Prelude.{
  ℕ, zero, suc, ◌/◌, ◌≤◌, ◌<◌, ◌≡◌, ◌⊎◌, inl, inr, arith, Bool, Option, none, some, Bool-cases,
  ◌==◌, true, leb,
}
use raft_side.Raft.Cluster.Count.{count}
use raft_side.Raft.Cluster.Inv.{Cast, Grows}
use raft_side.Raft.Matching.{Made, MadeGrows}
use raft_side.Raft.Complete.{On, Rooted}
use raft_side.Raft.Complete.Tree.{On-self, On-MadeGrows, Rooted-up}
use raft_side.Raft.Complete.History.{Base, Acked, Misses, Lost, Covers, IsEntry, Voter, IsHistory}

-- The history goes on: entries are made, leaders elected, votes cast; a node acknowledges entries of
-- its term only.
pub record Grown {Cmd : Type 0} (made made' : Made Cmd) (base base' : Base) (acked acked' : Acked)
    (cast cast' : Cast) (terms : ℕ → ℕ) : Type 0 where
  pub made_grows : MadeGrows made made'
  pub base_grows : (u bt bi : ℕ) → base u ≡ some (bt, bi) → base' u ≡ some (bt, bi)
  pub cast_grows : Grows cast cast'
  pub acked_grows : (p t j : ℕ) → acked' p t j ≡ true → (acked p t j ≡ true) ⊎ (terms p ≤ t)

pub IsEntry-MadeGrows :
    {Cmd : Type 0} (made made' : Made Cmd) (u k : ℕ)
    → MadeGrows made made'
    → IsEntry made u k
    → IsEntry made' u k
IsEntry-MadeGrows made made' u k g (inl root) = inl root
IsEntry-MadeGrows made made' u k g (inr (x, at)) = inr (x, g u k x at)

Misses-MadeGrows :
    {Cmd : Type 0} (made made' : Made Cmd) (t j u k : ℕ)
    → MadeGrows made made'
    → Misses made t j u k
    → Misses made' t j u k
Misses-MadeGrows made made' t j u k g (inl short) = inl short
Misses-MadeGrows made made' t j u k g (inr (s, on, other)) =
    inr (s, On-MadeGrows made made' s j u k g on, other)

module _ {Cmd : Type 0} {made made' : Made Cmd} {base base' : Base} {acked acked' : Acked}
    {cast cast' : Cast} {terms : ℕ → ℕ}
    (g : Grown made made' base base' acked acked' cast cast' terms) where
  -- What was lost stays lost, also for later terms.
  pub Lost-Grown :
      (t j later after : ℕ) → later ≤ after → Lost made base t j later → Lost made' base' t j after
  Lost-Grown t j later after le (u, bt, bi, above_t, below, is, misses) = (
    u,
    bt,
    bi,
    above_t,
    omega arith,
    g.base_grows u bt bi is,
    Misses-MadeGrows made made' t j bt bi g.made_grows misses,
  )

  pub Covers-Grown :
      (p later pt pi : ℕ)
      → later ≤ terms p
      → Covers made base acked p later pt pi
      → Covers made' base' acked' p later pt pi
  Covers-Grown p later pt pi past covers t j below is = elim (g.acked_grows p t j is) [
    | inr new ↦ absurd (omega arith)
    | inl old ↦ elim (covers t j below old) [
      | inl on ↦ inl (On-MadeGrows made made' t j pt pi g.made_grows on)
      | inr lost ↦ inr (Lost-Grown t j later later (omega arith) lost)
    ]
  ]

  pub Voter-Grown :
      (p later bt bi : ℕ)
      → ((v : ℕ) → cast p later ≡ some v → later ≤ terms p)
      → Voter made base acked cast p later bt bi
      → Voter made' base' acked' cast' p later bt bi
  Voter-Grown p later bt bi past (v, pt, pi, voted, newest, entry, covers) = (
    v,
    pt,
    pi,
    g.cast_grows p later v voted,
    newest,
    IsEntry-MadeGrows made made' pt pi g.made_grows entry,
    Covers-Grown p later pt pi (past v voted) covers,
  )

  -- The history with what is new of it.
  pub IsHistory-Grown :
      (size : ℕ)
      → IsHistory size made base acked cast
      → ((p t v : ℕ) → cast p t ≡ some v → t ≤ terms p)
      → ((u k v : ℕ) (c : Option Cmd)
          → made' u (suc k) ≡ some (v, c)
          → (made u (suc k) ≡ some (v, c))
            ⊎ (base u ≡ some (v, k))
            ⊎ (v ≡ u) × (x : ℕ × Option Cmd) × (made u k ≡ some x))
      → ((u : ℕ) → made' u 0 ≡ none)
      → ((u bt bi : ℕ)
          → base' u ≡ some (bt, bi)
          → (base u ≡ some (bt, bi))
            ⊎ (bt < u)
              × IsEntry made bt bi
              × (voters : ℕ → Bool) × (size / 2 < count size voters)
              × ((p : ℕ) → voters p ≡ true → Voter made base acked cast p u bt bi))
      → ((p t j : ℕ) → acked' p t j ≡ true → (x : ℕ × Option Cmd) × (made' t j ≡ some x))
      → IsHistory size made' base' acked' cast'
  IsHistory-Grown size h past chain no_zero based acks = record {
    chain = λ u k v c at. elim (chain u k v c at) [
      | inl old ↦ elim (h.chain u k v c old) [
        | inl first ↦ inl (g.base_grows u v k first)
        | inr (same, x, before) ↦ inr (same, x, g.made_grows u k x before)
      ]
      | inr (inl first) ↦ inl (g.base_grows u v k first)
      | inr (inr (same, x, before)) ↦ inr (same, x, g.made_grows u k x before)
    ];
    no_zero = no_zero;
    base_term = λ u bt bi is. elim (based u bt bi is) [
      | inl old ↦ h.base_term u bt bi old
      | inr (below, entry, voters, most, each) ↦ below
    ];
    base_entry = λ u bt bi is. elim (based u bt bi is) [
      | inl old ↦ IsEntry-MadeGrows made made' bt bi g.made_grows (h.base_entry u bt bi old)
      | inr (below, entry, voters, most, each) ↦
          IsEntry-MadeGrows made made' bt bi g.made_grows entry
    ];
    elected = λ u bt bi is. elim (based u bt bi is) [
      | inl old ↦
          let (voters, most, each) = h.elected u bt bi old in
          (voters, most, λ p votes. Voter-Grown p u bt bi (past p u) (each p votes))
      | inr (below, entry, voters, most, each) ↦
          (voters, most, λ p votes. Voter-Grown p u bt bi (past p u) (each p votes))
    ];
    acked_made = acks;
  }

-- An entry that was made has a way down without a gap, so one is on the way or missed.
module _ {Cmd : Type 0} (size : ℕ) (made : Made Cmd) (base : Base) (acked : Acked) (cast : Cast)
    (h : IsHistory size made base acked cast) where
  pub IsEntry-Rooted : (u k : ℕ) → IsEntry made u k → Rooted made u k
  IsEntry-Rooted u zero e =
      λ i low. let same : i ≡ 0 = omega arith in (u, rw same (On-self made u 0))
  IsEntry-Rooted u (suc k) (inl root) = absurd (ground arith)
  IsEntry-Rooted u (suc k) (inr ((v, c), at)) = elim (h.chain u k v c at) [
    | inl first ↦ Rooted-up made u k v c at (IsEntry-Rooted v k (h.base_entry u v k first))
    | inr (same, x, before) ↦
        Rooted-up made u k v c at (IsEntry-Rooted v k (inr (x, rw same before)))
  ]

  pub On-or_Misses : (t j u k : ℕ) → IsEntry made u k → On made t j u k ⊎ Misses made t j u k
  On-or_Misses t j u k e = elim (Bool-cases (leb j k)) [
    | inr short ↦ inr (inl (ground arith))
    | inl within ↦
        let (s, on) = IsEntry-Rooted u k e j (ground arith) in
        elim (Bool-cases (s == t)) [
          | inl same ↦ let one : s ≡ t = ground arith in inl (rw one at on)
          | inr other ↦ inr (inr (s, on, other))
        ]
  ]

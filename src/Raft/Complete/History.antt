-- ===== src/Raft/Complete/History.antt =====
-- The elections of a group, with the entries that were made and acknowledged: what a majority
-- acknowledged in a term is in the log of every later leader.
use raft_side.Prelude.{
  ℕ, zero, suc, ◌/◌, ◌≤◌, ◌<◌, ◌≡◌, ◌⊎◌, inl, inr, arith, Bool, Option, none, some, Bool-cases,
  ◌==◌, true, false, Option-cases,
}
use raft_side.Raft.Cluster.Count.{count, count_common}
use raft_side.Raft.Cluster.Inv.{Cast}
use raft_side.Raft.Matching.{Made}
use raft_side.Raft.Complete.{On, above}
use raft_side.Raft.Complete.Tree.{On-self, On-up, On-trans, On-le}

-- The last entry of a leader's log when it was elected, by the leader's term.
abbrev pub Base : Type 0
Base = ℕ → Option (ℕ × ℕ)

-- The entries that a node has had in its log in their term.
abbrev pub Acked : Type 0
Acked = (p t j : ℕ) → Bool

-- The entry is not on the way down: the way is shorter, or goes past another at its index.
abbrev pub Misses : {Cmd : Type 0} → Made Cmd → (t j u k : ℕ) → Type 0
Misses made t j u k = (k < j) ⊎ ((s : ℕ) × On made s j u k × ((s == t) ≡ false))

-- Some leader of a term after `t` and before `later` had not the entry.
abbrev pub Lost : {Cmd : Type 0} → Made Cmd → Base → (t j later : ℕ) → Type 0
Lost made base t j later =
    (u : ℕ) × (bt : ℕ) × (bi : ℕ) × (t < u)
    × (u < later)
    × (base u ≡ some (bt, bi))
    × Misses made t j bt bi

-- A log with the last entry has all that its node acknowledged in earlier terms, but for what was lost.
abbrev pub Covers : {Cmd : Type 0} → Made Cmd → Base → Acked → (p later pt pi : ℕ) → Type 0
Covers made base acked p later pt pi =
    (t j : ℕ) → t < later → acked p t j ≡ true → On made t j pt pi ⊎ Lost made base t j later

-- An entry that was made, or the first of all.
abbrev pub IsEntry : {Cmd : Type 0} → Made Cmd → (u k : ℕ) → Type 0
IsEntry {Cmd} made u k = (u ≡ 0) × (k ≡ 0) ⊎ ((x : ℕ × Option Cmd) × (made u k ≡ some x))

-- The last entry of a voter's log is no later than that of the candidate's.
abbrev pub IsUpToDate : (pt pi bt bi : ℕ) → Type 0
IsUpToDate pt pi bt bi = (pt < bt) ⊎ (pt ≡ bt) × (pi ≤ bi)

-- A voter of a leader, by the last entry of its log when it voted.
abbrev pub Voter : {Cmd : Type 0} → Made Cmd → Base → Acked → Cast → (p later bt bi : ℕ) → Type 0
Voter made base acked cast p later bt bi =
    (v : ℕ) × (pt : ℕ) × (pi : ℕ) × (cast p later ≡ some v)
    × IsUpToDate pt pi bt bi
    × IsEntry made pt pi
    × Covers made base acked p later pt pi

pub record IsHistory {Cmd : Type 0} (size : ℕ) (made : Made Cmd) (base : Base) (acked : Acked)
    (cast : Cast) : Type 0 where
  -- A leader's entries follow on from each other, the first from the entry that its log ended with.
  pub chain :
      (u k v : ℕ) (c : Option Cmd)
      → made u (suc k) ≡ some (v, c)
      → (base u ≡ some (v, k)) ⊎ (v ≡ u) × (x : ℕ × Option Cmd) × (made u k ≡ some x)
  pub no_zero : (u : ℕ) → made u 0 ≡ none
  pub base_term : (u bt bi : ℕ) → base u ≡ some (bt, bi) → bt < u
  pub base_entry : (u bt bi : ℕ) → base u ≡ some (bt, bi) → IsEntry made bt bi
  pub elected :
      (u bt bi : ℕ)
      → base u ≡ some (bt, bi)
      → (voters : ℕ → Bool) × (size / 2 < count size voters)
        × ((p : ℕ) → voters p ≡ true → Voter made base acked cast p u bt bi)
  pub acked_made : (p t j : ℕ) → acked p t j ≡ true → (x : ℕ × Option Cmd) × (made t j ≡ some x)

module _ {Cmd : Type 0} (size : ℕ) (made : Made Cmd) (base : Base) (acked : Acked) (cast : Cast)
    (h : IsHistory size made base acked cast) where
  -- An entry of a leader comes after the one that its log ended with at first.
  pub made-base :
      (u k : ℕ) (x : ℕ × Option Cmd)
      → made u k ≡ some x
      → (bt : ℕ) × (bi : ℕ) × (base u ≡ some (bt, bi)) × (bi < k) × On made bt bi u k
  made-base u zero x at = absurd (ground (arith, h.no_zero u))
  made-base u (suc k) (v, c) at = elim (h.chain u k v c at) [
    | inl first ↦ (v, k, first, omega arith, On-up made v k u k v c at (On-self made v k))
    | inr (same, y, before) ↦
        let (bt, bi, is, low, on) = made-base u k y before in
        (bt, bi, is, omega arith, On-up made bt bi u k v c at (rw same on))
  ]

  -- A leader's entries have no gap.
  pub made-between :
      (u bt bi j k : ℕ) (x : ℕ × Option Cmd)
      → base u ≡ some (bt, bi)
      → made u k ≡ some x
      → bi < j
      → j ≤ k
      → (y : ℕ × Option Cmd) × (made u j ≡ some y)
  made-between u bt bi j zero x is at low high = absurd (omega arith)
  made-between u bt bi j (suc k) (v, c) is at low high = elim (Bool-cases (j == suc k)) [
    | inl top ↦ let e : j ≡ suc k = ground arith in ((v, c), rw e at)
    | inr lower ↦ elim (h.chain u k v c at) [
      | inl first ↦ absurd (ground arith)
      | inr (same, y, before) ↦ made-between u bt bi j k y is before low (ground arith)
    ]
  ]

  -- The entries of a term are on one way down.
  pub made-On :
      (u j k : ℕ) (x y : ℕ × Option Cmd)
      → made u j ≡ some x
      → made u k ≡ some y
      → j ≤ k
      → On made u j u k
  unfolding above
  made-On u j zero x y at_j at_k low = absurd (ground (arith, h.no_zero u))
  made-On u j (suc k) x (v, c) at_j at_k low = elim (Bool-cases (j == suc k)) [
    | inl top ↦ ground arith
    | inr lower ↦ elim (h.chain u k v c at_k) [
      | inl first ↦ let (bt, bi, is, above_base, on) = made-base u j x at_j in absurd (ground arith)
      | inr (same, z, before) ↦
          On-up made u j u k v c at_k (rw same (made-On u j k x z at_j before (ground arith)))
    ]
  ]

  -- Terms fall on the way down.
  pub On-term : (t i u k : ℕ) → On made t i u k → t ≤ u
  unfolding above
  On-term t i u zero o = ground arith
  On-term t i u (suc k) o = elim (Bool-cases (i == suc k)) [
    | inl top ↦ ground arith
    | inr lower ↦ elim (Option-cases (made u (suc k))) [
      | inl none_made ↦ absurd (ground arith)
      | inr ((v, c), at) ↦
          let rest : t ≤ v = On-term t i v k (ground arith) in
          elim (h.chain u k v c at) [
            | inl first ↦ omega (arith, h.base_term u v k first)
            | inr (same, y, before) ↦ omega arith
          ]
    ]
  ]

  On-Misses : (t j u k : ℕ) → On made t j u k → Misses made t j u k → ⊥
  On-Misses t j u k o (inl short) = omega (arith, On-le made t j u k o)
  On-Misses t j u k o (inr (s, other, differ)) = ground arith

  made-pos : (t j : ℕ) (x : ℕ × Option Cmd) → made t j ≡ some x → 0 < j
  made-pos t zero x at = absurd (ground (arith, h.no_zero t))
  made-pos t (suc j) x at = omega arith

  -- Where a voter's log has the entry, the leader's has it: the leader's last entry is no earlier,
  -- and earlier leaders had it.
  On-IsUpToDate :
      (t j pt pi later bt bi : ℕ) (x : ℕ × Option Cmd)
      → made t j ≡ some x
      → ((u ct ci : ℕ) → t < u → u < later → base u ≡ some (ct, ci) → On made t j ct ci)
      → base later ≡ some (bt, bi)
      → On made t j pt pi
      → IsEntry made pt pi
      → IsUpToDate pt pi bt bi
      → On made t j bt bi
  On-IsUpToDate t j pt pi later bt bi x at before is on entry (inl newer) =
      let old = On-term t j pt pi on in
      elim (h.base_entry later bt bi is) [
        | inl (zero_term, zero_index) ↦ absurd (omega arith)
        | inr (y, at_base) ↦
            let (ct, ci, earlier, low, on_base) = made-base bt bi y at_base in
            On-trans made t j ct ci bt bi on_base
              (before bt ct ci (omega arith) (h.base_term later bt bi is) earlier)
      ]
  On-IsUpToDate t j pt pi later bt bi x at before is on entry (inr (same, longer)) =
      let pos = made-pos t j x at in
      let le = On-le made t j pt pi on in
      elim entry [
        | inl (zero_term, zero_index) ↦ absurd (omega arith)
        | inr (y, at_last) ↦ elim (h.base_entry later bt bi is) [
          | inl (zero_term, zero_index) ↦ absurd (omega arith)
          | inr (z, at_base) ↦
              On-trans made t j pt pi bt bi
                (rw same (made-On bt pi bi y z (rw (← same) at_last) at_base longer)) on
        ]
      ]

  complete_to :
      (t j : ℕ)
      → size / 2 < count size (λ p. acked p t j)
      → (n later bt bi : ℕ) → later ≤ n
      → t < later
      → base later ≡ some (bt, bi)
      → On made t j bt bi
  complete_to t j many zero later bt bi low after is = absurd (omega arith)
  complete_to t j many (suc n) later bt bi low after is =
      let (voters, most, each) = h.elected later bt bi is in
      let (p, has, votes) = count_common size (λ p. acked p t j) voters many most in
      let (v, pt, pi, voted, newest, entry, covers) = each p votes in
      let (x, at) = h.acked_made p t j has in
      let before : (u ct ci : ℕ) → t < u → u < later → base u ≡ some (ct, ci) → On made t j ct ci =
        λ u ct ci above_t below is_u. complete_to t j many n u ct ci (omega arith) above_t is_u in
      elim (covers t j after has) [
        | inl on ↦ On-IsUpToDate t j pt pi later bt bi x at before is on entry newest
        | inr (u, ct, ci, above_t, below, is_u, misses) ↦
            absurd (On-Misses t j ct ci (before u ct ci above_t below is_u) misses)
      ]

  -- What more than half of the nodes acknowledged in a term is in the log of every leader of a later
  -- term, from its election on.
  pub complete :
      (t j later bt bi : ℕ)
      → size / 2 < count size (λ p. acked p t j)
      → t < later
      → base later ≡ some (bt, bi)
      → On made t j bt bi
  complete t j later bt bi many after is =
      complete_to t j many later later bt bi (omega arith) after is

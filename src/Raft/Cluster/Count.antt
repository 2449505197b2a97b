-- ===== src/Raft/Cluster/Count.antt =====
-- How many of the first numbers pass a test.
use raft_side.Prelude.{
  ℕ, zero, suc, ◌+◌, ◌≤◌, ◌<◌, ◌≡◌, Bool, true, false, arith, if◌then◌else◌, inl, inr, Bool-cases,
  ◌==◌, ◌⊎◌, ◌/◌,
}

unfoldable pub count : ℕ → (ℕ → Bool) → ℕ
count zero f = 0
count (suc n) f = (if f n then 1 else 0) + count n f

pub count_mono :
    (n : ℕ) (f g : ℕ → Bool) → ((p : ℕ) → f p ≡ true → g p ≡ true) → count n f ≤ count n g
unfolding count
count_mono zero f g h = omega arith
count_mono (suc n) f g h = ground (arith, count_mono n f g h, h n)

-- One more passes.
pub count_more :
    (n p : ℕ) (f g : ℕ → Bool)
    → ((q : ℕ) → f q ≡ true → g q ≡ true)
    → p < n
    → f p ≡ false
    → g p ≡ true
    → count n f + 1 ≤ count n g
unfolding count
count_more zero p f g h low before after = absurd (omega arith)
count_more (suc n) p f g h low before after = elim (Bool-cases (p == n)) [
  | inl last ↦
      let same : p ≡ n = ground arith in
      let was : f n ≡ false = rw same at before in
      let is : g n ≡ true = rw same at after in ground (arith, count_mono n f g h)
  | inr other ↦
      let low' : p < n = ground arith in ground (arith, count_more n p f g h low' before after, h n)
]

-- Two tests that never pass together.
pub count_disjoint :
    (n : ℕ) (f g : ℕ → Bool) → ((p : ℕ) → f p ≡ true → g p ≡ false) → count n f + count n g ≤ n
unfolding count
count_disjoint zero f g h = omega arith
count_disjoint (suc n) f g h = ground (arith, count_disjoint n f g h, h n)

common_or :
    (n : ℕ) (f g : ℕ → Bool) → ((p : ℕ) × (f p ≡ true) × (g p ≡ true)) ⊎ (count n f + count n g ≤ n)
unfolding count
common_or zero f g = inr (omega arith)
common_or (suc n) f g = elim (common_or n f g) [
  | inl found ↦ inl found
  | inr few ↦ elim (Bool-cases (f n)) [
    | inl yes_f ↦ elim (Bool-cases (g n)) [
      | inl yes_g ↦ inl (n, yes_f, yes_g)
      | inr no_g ↦ inr (ground arith)
    ]
    | inr no_f ↦ inr (ground arith)
  ]
]

-- Two majorities have a number in common.
pub count_common :
    (n : ℕ) (f g : ℕ → Bool)
    → n / 2 < count n f
    → n / 2 < count n g
    → (p : ℕ) × (f p ≡ true) × (g p ≡ true)
count_common n f g many most = elim (common_or n f g) [
  | inl found ↦ found
  | inr few ↦ absurd (omega arith)
]

-- ===== src/Raft/Sort/Majority.antt =====
-- What the leader reads off the sorted array: more than half of the numbers reach the one at
-- `n - (n/2 + 1)`.
use raft_side.Prelude.{
  ℕ, zero, suc, ◌+◌, ◌-◌, ◌≤◌, ◌<◌, ◌≡◌, refl, ◌∙◌, List, [], ◌∷◌, arith, length, leb,
  if◌then◌else◌,
}
use mathlib.Core.Logic.{∥∥₁_elim}
use mathlib.Core.List.{Perm, Permᴰ}
use native.Mathlib.Nat.{ℕ_set}
use raft_side.Raft.Sort.{insertion_sort}
use raft_side.Raft.Sort.Order.{
  at, Ascending, insertion_sort-Ascending, insertion_sort-perm, length-insertion_sort,
}

-- How many numbers are at least `c`.
unfoldable pub count_ge : ℕ → List ℕ → ℕ
count_ge c [] = 0
count_ge c (x ∷ l) = (if leb c x then 1 else 0) + count_ge c l

count_ge-permᴰ : (c : ℕ) {l m : List ℕ} → Permᴰ l m → count_ge c l ≡ count_ge c m
unfolding count_ge
count_ge-permᴰ c Permᴰ.nil = refl
count_ge-permᴰ c (Permᴰ.cons e p) = ground (arith, count_ge-permᴰ c p)
count_ge-permᴰ c (Permᴰ.swap e f) = ground arith
count_ge-permᴰ c (Permᴰ.trans p q) = count_ge-permᴰ c p ∙ count_ge-permᴰ c q

count_ge-perm : (c : ℕ) {l m : List ℕ} → Perm l m → count_ge c l ≡ count_ge c m
count_ge-perm c p = ∥∥₁_elim p (ℕ_set _ _) (count_ge-permᴰ c)

-- In an ascending list all from the index `i` on reach the number there.
count_ge-Ascending :
    (c : ℕ) (l : List ℕ) (i : ℕ)
    → Ascending (length l) l
    → i < length l
    → c ≤ at l i
    → length l ≤ count_ge c l + i
unfolding count_ge
count_ge-Ascending c [] i s h g = absurd (omega arith)
count_ge-Ascending c (x ∷ []) zero s h g = ground arith
count_ge-Ascending c (x ∷ y ∷ l) zero s h g = ground (
  arith,
  s 0 1,
  count_ge-Ascending c (y ∷ l) zero (λ a b p q. s (suc a) (suc b) (omega arith) (omega arith)),
)
count_ge-Ascending c (x ∷ l) (suc i) s h g =
    ground
      (arith, count_ge-Ascending c l i (λ a b p q. s (suc a) (suc b) (omega arith) (omega arith)))

-- For `k` from 1 to the length `n`, at least `k` numbers reach the `k`-th largest, which stands at
-- `n - k` in the sorted array.
pub insertion_sort-count_ge :
    (l : List ℕ) (k : ℕ)
    → 0 < k
    → k ≤ length l
    → k ≤ count_ge (at (insertion_sort l) (length l - k)) l
insertion_sort-count_ge l k p q =
    let sorted = insertion_sort l in
    let same = length-insertion_sort l in
    let order =
      count_ge-Ascending (at sorted (length l - k)) sorted (length l - k)
        (rw same (insertion_sort-Ascending l)) (rw same (omega arith)) (omega arith) in
    omega (arith, order, count_ge-perm (at sorted (length l - k)) (insertion_sort-perm l))

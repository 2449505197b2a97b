-- ===== src/Raft/Sort.antt =====
-- `insertionSort` of raft/util.go, on an array that is a list.
pub mod Order
pub mod Majority
use raft_side.Prelude.{
  ℕ, zero, suc, ◌-◌, Bool, true, false, List, [], ◌∷◌, length, ltb, if◌then◌else◌,
}

-- `sl[j+1], sl[j] = sl[j], sl[j+1]`
unfoldable pub swap_at : ℕ → List ℕ → List ℕ
swap_at j [] = []
swap_at j (x ∷ []) = x ∷ []
swap_at zero (x ∷ y ∷ l) = y ∷ x ∷ l
swap_at (suc j) (x ∷ y ∷ l) = x ∷ swap_at j (y ∷ l)

-- `sl[j+1] < sl[j]`
unfoldable pub less_at : ℕ → List ℕ → Bool
less_at j [] = false
less_at j (x ∷ []) = false
less_at zero (x ∷ y ∷ l) = ltb y x
less_at (suc j) (x ∷ y ∷ l) = less_at j (y ∷ l)

-- The inner loop: `for j := i; j > 0 && sl[j] < sl[j-1]; j--`.
unfoldable pub sink : ℕ → List ℕ → List ℕ
sink zero l = l
sink (suc j) l = elim (less_at j l) [ true ↦ sink j (swap_at j l) | false ↦ l ]

-- The outer loop, with the number of rounds left: `for i := 1; i < len(sl); i++`.
unfoldable pub sort_from : (rounds i : ℕ) → List ℕ → List ℕ
sort_from zero i l = l
sort_from (suc rounds) i l = sort_from rounds (suc i) (sink i l)

unfoldable pub insertion_sort : List ℕ → List ℕ
unfolding sort_from sink swap_at less_at
insertion_sort l = sort_from (length l - 1) 1 l

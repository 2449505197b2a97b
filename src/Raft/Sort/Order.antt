-- ===== src/Raft/Sort/Order.antt =====
-- `insertionSort` returns the numbers that it was given, in ascending order.
use raft_side.Prelude.{
  ℕ, zero, suc, ◌+◌, ◌-◌, ◌≤◌, ◌<◌, ◌≡◌, ◌≢◌, refl, ap, inl, inr, ◌∙◌, List, [], ◌∷◌, arith, length,
  ltb, ◌==◌, if◌then◌else◌, Bool-cases,
}
use mathlib.Core.List.{Perm}
use mathlib.Core.List.Perm
use raft_side.Raft.Sort.{swap_at, less_at, sink, sort_from, insertion_sort}

-- The element at an index, 0 past the end.
abbrev pub at : List ℕ → ℕ → ℕ
at [] i = 0
at (x ∷ l) zero = x
at (x ∷ l) (suc i) = at l i

length-swap_at : (j : ℕ) (l : List ℕ) → length (swap_at j l) ≡ length l
unfolding swap_at
length-swap_at j [] = refl
length-swap_at j (x ∷ []) = refl
length-swap_at zero (x ∷ y ∷ l) = refl
length-swap_at (suc j) (x ∷ y ∷ l) = ap suc (length-swap_at j (y ∷ l))

at-swap_at_left : (j : ℕ) (l : List ℕ) → suc j < length l → at (swap_at j l) j ≡ at l (suc j)
unfolding swap_at
at-swap_at_left j [] h = absurd (omega arith)
at-swap_at_left j (x ∷ []) h = absurd (omega arith)
at-swap_at_left zero (x ∷ y ∷ l) h = refl
at-swap_at_left (suc j) (x ∷ y ∷ l) h = at-swap_at_left j (y ∷ l) (omega arith)

at-swap_at_right : (j : ℕ) (l : List ℕ) → suc j < length l → at (swap_at j l) (suc j) ≡ at l j
unfolding swap_at
at-swap_at_right j [] h = absurd (omega arith)
at-swap_at_right j (x ∷ []) h = absurd (omega arith)
at-swap_at_right zero (x ∷ y ∷ l) h = refl
at-swap_at_right (suc j) (x ∷ y ∷ l) h = at-swap_at_right j (y ∷ l) (omega arith)

at-swap_at_ne : (j : ℕ) (l : List ℕ) (k : ℕ) → k ≢ j → k ≢ suc j → at (swap_at j l) k ≡ at l k
unfolding swap_at
at-swap_at_ne j [] k h g = refl
at-swap_at_ne j (x ∷ []) k h g = refl
at-swap_at_ne zero (x ∷ y ∷ l) zero h g = absurd (h refl)
at-swap_at_ne zero (x ∷ y ∷ l) (suc zero) h g = absurd (g refl)
at-swap_at_ne zero (x ∷ y ∷ l) (suc (suc k)) h g = refl
at-swap_at_ne (suc j) (x ∷ y ∷ l) zero h g = refl
at-swap_at_ne (suc j) (x ∷ y ∷ l) (suc k) h g =
    at-swap_at_ne j (y ∷ l) k (λ e. h (ap suc e)) (λ e. g (ap suc e))

at-swap_at :
    (j : ℕ) (l : List ℕ) (k : ℕ)
    → suc j < length l
    → at (swap_at j l) k ≡ (if k == j then at l (suc j) else if k == suc j then at l j else at l k)
at-swap_at j l k h = ground (arith, at-swap_at_left j l, at-swap_at_right j l, at-swap_at_ne j l k)

less_at_lem : (j : ℕ) (l : List ℕ) → suc j < length l → less_at j l ≡ ltb (at l (suc j)) (at l j)
unfolding less_at
less_at_lem j [] h = absurd (omega arith)
less_at_lem j (x ∷ []) h = absurd (omega arith)
less_at_lem zero (x ∷ y ∷ l) h = refl
less_at_lem (suc j) (x ∷ y ∷ l) h = less_at_lem j (y ∷ l) (omega arith)

-- The first `n` elements ascend, but that the one at `j` may be smaller than those before it.
abbrev Sinking : (j n : ℕ) → List ℕ → Type 0
Sinking j n l = (a b : ℕ) → a < b → b < n → b ≢ j → at l a ≤ at l b

abbrev pub Ascending : ℕ → List ℕ → Type 0
Ascending n l = (a b : ℕ) → a < b → b < n → at l a ≤ at l b

Sinking-swap :
    (j n : ℕ) (l : List ℕ)
    → suc j < n
    → n ≤ length l
    → at l (suc j) < at l j
    → Sinking (suc j) n l
    → Sinking j n (swap_at j l)
Sinking-swap j n l h k lt s a b p q r =
    ground (arith, at-swap_at j l a, at-swap_at j l b, s a b, s j b, s a j, s (suc j) b)

Ascending-of_Sinking :
    (j n : ℕ) (l : List ℕ) → at l j ≤ at l (suc j) → Sinking (suc j) n l → Ascending n l
Ascending-of_Sinking j n l le s a b p q = elim (Bool-cases (b == suc j)) [
  | inl e ↦ ground (arith, s a j)
  | inr e ↦ ground (arith, s a b)
]

sink-Ascending :
    (j n : ℕ) (l : List ℕ) → j < n → n ≤ length l → Sinking j n l → Ascending n (sink j l)
unfolding sink
sink-Ascending zero n l h k s = λ a b p q. s a b p q (omega arith)
sink-Ascending (suc j) n l h k s = elim (Bool-cases (less_at j l)) [
  | inl e ↦
      rw (e, sink)
        (sink-Ascending j n (swap_at j l) (omega arith) (rw length-swap_at k)
          (Sinking-swap j n l h k (ground (arith, less_at_lem j l)) s))
  | inr e ↦ rw (e, sink) (Ascending-of_Sinking j n l (ground (arith, less_at_lem j l)) s)
]

length-sink : (j : ℕ) (l : List ℕ) → length (sink j l) ≡ length l
unfolding sink
length-sink zero l = refl
length-sink (suc j) l = elim (Bool-cases (less_at j l)) [
  | inl e ↦ rw (e, sink) (length-sink j (swap_at j l) ∙ length-swap_at j l)
  | inr e ↦ rw (e, sink)
]

sort_from-Ascending :
    (rounds i : ℕ) (l : List ℕ)
    → 0 < i
    → i + rounds ≡ length l
    → Ascending i l
    → Ascending (length l) (sort_from rounds i l)
unfolding sort_from
sort_from-Ascending zero i l p e s = λ a b q r. s a b q (omega arith)
sort_from-Ascending (suc rounds) i l p e s =
    let sunk =
      sink-Ascending i (suc i) l (omega arith) (omega arith)
        (λ a b q r ne. s a b q (omega arith)) in
    rw (length-sink i l) at (
      sort_from-Ascending rounds (suc i) (sink i l) (omega arith)
        (rw (length-sink i l) (omega arith)) sunk)

length-sort_from : (rounds i : ℕ) (l : List ℕ) → length (sort_from rounds i l) ≡ length l
unfolding sort_from
length-sort_from zero i l = refl
length-sort_from (suc rounds) i l = length-sort_from rounds (suc i) (sink i l) ∙ length-sink i l

pub length-insertion_sort : (l : List ℕ) → length (insertion_sort l) ≡ length l
unfolding insertion_sort
length-insertion_sort l = length-sort_from (length l - 1) 1 l

-- The sorted array ascends over its whole length.
pub insertion_sort-Ascending : (l : List ℕ) → Ascending (length l) (insertion_sort l)
unfolding insertion_sort
insertion_sort-Ascending [] = λ a b p q. absurd (omega arith)
insertion_sort-Ascending (x ∷ l) =
    sort_from-Ascending (suc (length l) - 1) 1 (x ∷ l) (omega arith) (omega arith)
      (λ a b p q. absurd (omega arith))

swap_at-perm : (j : ℕ) (l : List ℕ) → Perm (swap_at j l) l
unfolding swap_at
swap_at-perm j [] = Perm.rfl
swap_at-perm j (x ∷ []) = Perm.rfl
swap_at-perm zero (x ∷ y ∷ l) = Perm.swap x y l
swap_at-perm (suc j) (x ∷ y ∷ l) = Perm.cons x (swap_at-perm j (y ∷ l))

sink-perm : (j : ℕ) (l : List ℕ) → Perm (sink j l) l
unfolding sink
sink-perm zero l = Perm.rfl
sink-perm (suc j) l = elim (Bool-cases (less_at j l)) [
  | inl e ↦ rw (e, sink) (Perm.trans (sink-perm j (swap_at j l)) (swap_at-perm j l))
  | inr e ↦ rw (e, sink) Perm.rfl
]

sort_from-perm : (rounds i : ℕ) (l : List ℕ) → Perm (sort_from rounds i l) l
unfolding sort_from
sort_from-perm zero i l = Perm.rfl
sort_from-perm (suc rounds) i l =
    Perm.trans (sort_from-perm rounds (suc i) (sink i l)) (sink-perm i l)

-- The sorted array is a rearrangement of the input.
pub insertion_sort-perm : (l : List ℕ) → Perm (insertion_sort l) l
unfolding insertion_sort
insertion_sort-perm l = sort_from-perm (length l - 1) 1 l

-- ===== src/Prelude/Ring.antt =====
-- The next server in the order in which the clients try them, (i + 1) % n.
use Prim.Native.Nat.{ℕ, suc, ◌+◌, ◌%◌, ◌≤◌, ◌<◌}
use mathlib.Core.Path.{◌≡◌}
use mathlib.Core.Logic.{◌≢◌, ◌⊎◌, inl, inr}
use native.Mathlib.Omega.{arith}
use native.Mathlib.Nat.{mod-eq_of_lt, mod_self}
use raft_side.Prelude.Tests.{Bool-cases, ltb, ltb→lt}

pub next-cases :
    (n i : ℕ) → i < n → ((i + 1) % n ≡ i + 1) × (i + 1 < n) ⊎ ((i + 1) % n ≡ 0) × (i + 1 ≡ n)
next-cases n i h = elim (Bool-cases (ltb (i + 1) n)) [
  | inl low ↦ let less = ltb→lt (i + 1) n low in inl (mod-eq_of_lt less, less)
  | inr high ↦ let same : i + 1 ≡ n = ground arith in inr (rw same (mod_self n), same)
]

-- The server k is among the next m ones from i on.
abbrev pub Near : (n i k m : ℕ) → Type 0
Near n i k m = (i ≤ k) × (k < i + m) ⊎ (k < i) × (k + n < i + m)

pub Near-next :
    (n i k m : ℕ) → i < n → k < n → i ≢ k → Near n i k (suc m) → Near n ((i + 1) % n) k m
Near-next n i k m h g apart near = elim (next-cases n i h) [
  | inl (e, low) ↦ rw e (grind arith)
  | inr (e, high) ↦ rw e (grind arith)
]

pub Near-all : (n i k : ℕ) → i < n → k < n → Near n i k n
Near-all n i k h g = grind arith

pub next-lt : (n i : ℕ) → i < n → (i + 1) % n < n
next-lt n i h = elim (next-cases n i h) [
  | inl (e, low) ↦ rw e low
  | inr (e, high) ↦ rw e (omega (arith, high))
]

pub Near-le : (n i k m l : ℕ) → m ≤ l → Near n i k m → Near n i k l
Near-le n i k m l h near = grind arith

-- A round that began at the server `old` and is at i has the server k still before it.
abbrev pub Ahead : (old i k : ℕ) → Type 0
Ahead old i k = (old ≤ i) × ((k < old) ⊎ (i ≤ k)) ⊎ (i < old) × (i ≤ k) × (k < old)

pub Ahead-next :
    (n old i k : ℕ)
    → old < n
    → i < n
    → k < n
    → i ≢ k
    → Ahead old i k
    → ((i + 1) % n ≢ old) × Ahead old ((i + 1) % n) k
Ahead-next n old i k b h g apart ahead = elim (next-cases n i h) [
  | inl (e, low) ↦ (rw e (grind arith), rw e (grind arith))
  | inr (e, high) ↦ (rw e (grind arith), rw e (grind arith))
]

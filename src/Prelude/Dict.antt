-- ===== src/Prelude/Dict.antt =====
-- Go's maps with integer keys, as association lists.
use Prim.Native.Nat.{ℕ}
use mathlib.Core.Path.{◌≡◌, refl}
use mathlib.Core.List.{List, [], ◌∷◌}
use mathlib.Core.Option.{Option, none, some}
use native.Mathlib.Omega.{arith}
use mathlib.Core.Logic.{inl, inr}
use raft_side.Prelude.Tests.{◌==◌, if◌then◌else◌, Bool-cases}

abbrev pub Dict {ℓ} : Type ℓ → Type ℓ
Dict V = List (ℕ × V)

module _ {ℓ} {V : Type ℓ} where
  -- `m[key]`, with whether it is there.
  unfoldable pub lookup : (key : ℕ) → Dict V → Option V
  lookup key [] = none
  lookup key (entry ∷ rest) =
      let below = lookup key rest in if entry.0 == key then some (entry.1) else below

  -- `m[key] = value`: in the place of the entry with the key, or at the end.
  unfoldable pub insert : (key : ℕ) → V → Dict V → Dict V
  insert key value [] = (key, value) ∷ []
  insert key value (entry ∷ rest) =
      let below = insert key value rest in
      if entry.0 == key then (key, value) ∷ rest else entry ∷ below

  -- `delete(m, key)`
  unfoldable pub delete : (key : ℕ) → Dict V → Dict V
  delete key [] = []
  delete key (entry ∷ rest) =
      let below = delete key rest in if entry.0 == key then below else entry ∷ below

  pub lookup-insert :
      (key other : ℕ) (value : V) (rest : Dict V)
      → lookup other (insert key value rest)
        ≡ (if key == other then some value else lookup other rest)
  unfolding lookup insert
  lookup-insert key other value [] = refl
  lookup-insert key other value (entry ∷ rest) = ground (arith, lookup-insert key other value rest)

  pub lookup-delete :
      (key other : ℕ) (rest : Dict V)
      → lookup other (delete key rest) ≡ (if key == other then none else lookup other rest)
  unfolding lookup delete
  lookup-delete key other [] = ground arith
  lookup-delete key other (entry ∷ rest) = ground (arith, lookup-delete key other rest)

  -- No key stands twice.
  abbrev pub Distinct : Dict V → Type ℓ
  Distinct [] = Unit
  Distinct ((key, value) ∷ rest) = (lookup key rest ≡ none) × Distinct rest

  pub insert-Distinct :
      (key : ℕ) (value : V) (d : Dict V) → Distinct d → Distinct (insert key value d)
  unfolding insert lookup
  insert-Distinct key value [] h = (refl, tt)
  insert-Distinct key value ((k, v) ∷ d) (new, h) = elim (Bool-cases (k == key)) [
    | inl same ↦
        let fresh : lookup key d ≡ none = ground arith in
        let out : insert key value ((k, v) ∷ d) ≡ (key, value) ∷ d = ground arith in
        rw out (fresh, h)
    | inr differs ↦
        let fresh : lookup k (insert key value d) ≡ none =
          ground (arith, lookup-insert key k value d) in
        let out : insert key value ((k, v) ∷ d) ≡ (k, v) ∷ insert key value d = ground arith in
        rw out (fresh, insert-Distinct key value d h)
  ]

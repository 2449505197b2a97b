-- ===== src/Prelude.antt =====
-- The names that the modules of every component share: the libraries', passed on, and those of
-- three children (tests, lists, signed integers), with the monad of Go code that can panic.
mod Tests
mod Lists
mod Int
pub mod Dict
pub mod Ring
pub use Tests.*
pub use Lists.*
pub use Int.*
pub use Prim.Native.Nat.{ℕ, zero, suc, ◌+◌, ◌-◌, ◌*◌, ◌/◌, ◌%◌, ◌≤◌, ◌<◌}
pub use mathlib.Core.Path.{◌≡◌, refl, sym, ap, ◌∙◌}
pub use mathlib.Core.Logic.{◌≢◌, ◌↔◌, ◌⊎◌, inl, inr}
pub use mathlib.Core.Bool.{Bool, true, false, not, ◌&&◌, ◌||◌}
pub use mathlib.Core.Option.{Option, none, some}
pub use mathlib.Core.List.{List, [], ◌∷◌, ◌++◌, map}
pub use native.Mathlib.Omega.{arith}
use mathlib.Core.Path.{subst}

-- `none` is a run-time panic of the Go program.
infixl 5 ◌>>=◌
abbrev pub ◌>>=◌ {ℓ κ} : {A : Type ℓ} {B : Type κ} → Option A → (A → Option B) → Option B
none >>= f = none
some a >>= f = f a

-- a - b as an offset into a slice; a negative offset panics when it is used.
abbrev pub sub? : ℕ → ℕ → Option ℕ
sub? a b = if leb b a then some (a - b) else none

-- A predicate of every element.
abbrev pub All {ℓ κ} : {A : Type ℓ} → (A → Type κ) → List A → Type κ
All P [] = Unit
All P (x ∷ xs) = P x × All P xs

pub All-get_elem? {ℓ κ} :
    {A : Type ℓ} (P : A → Type κ) (xs : List A) (i : ℕ) {x : A}
    → All P xs
    → get_elem? xs i ≡ some x
    → P x
All-get_elem? P [] i h e = absurd (ground arith)
All-get_elem? P (y ∷ ys) zero h e = let same : y ≡ _ = ground arith in rw same at (h.0)
All-get_elem? P (y ∷ ys) (suc i) h e = All-get_elem? P ys i (h.1) e

-- A call whose second result is dropped.
pub bind_first-some {ℓ κ} :
    {A : Type ℓ} {B : Type κ} (m : Option (A × B)) {a : A}
    → (m >>= λ p. some p.0) ≡ some a
    → (b : B) × (m ≡ some (a, b))
bind_first-some none e = ground arith
bind_first-some (some (x, b)) e = (b, ground arith)

-- What does not panic returns a value.
pub ne_none-some {ℓ} : {A : Type ℓ} (o : Option A) → o ≢ none → (a : A) × (o ≡ some a)
ne_none-some none h = absurd (h refl)
ne_none-some (some a) h = (a, refl)

-- A chain of calls that does not panic.
pub bind-some {ℓ κ} :
    {A : Type ℓ} {B : Type κ} (m : Option A) (f : A → Option B) {b : B}
    → (m >>= f) ≡ some b
    → (a : A) × (m ≡ some a) × (f a ≡ some b)
bind-some none f e = ground arith
bind-some (some a) f e = (a, refl, e)

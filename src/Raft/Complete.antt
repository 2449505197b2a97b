-- ===== src/Raft/Complete.antt =====
-- The tree of the entries that leaders made: each has one entry before it, of a term and at the index
-- below, down to the zero entry of a new log.
pub mod Tree
pub mod History
pub mod Last
pub mod Grows
pub mod Inv
pub mod Group
pub mod Settles
pub mod Votes
pub mod Wins
pub mod Moves
pub mod Appends
pub mod Serves
pub mod Outcome
pub mod Commands
pub mod Ends
pub mod Steps
pub mod Acts
pub mod Stores
pub mod Makes
pub mod Runs
pub mod Safety
use raft_side.Prelude.{ℕ, zero, suc, ◌≤◌, ◌≡◌, Option, none, some, ◌==◌, if◌then◌else◌}
use raft_side.Raft.Matching.{Made}

-- The term of the entry at an index on the way down from an entry.
unfoldable pub above : {Cmd : Type 0} → Made Cmd → (term index below : ℕ) → Option ℕ
above made u zero i = if i == 0 then some u else none
above made u (suc k) i =
    if i == suc k
    then some u
    else elim (made u (suc k)) [ none ↦ none | some x ↦ above made x.0 k i ]

-- The entry of term `t` at index `i` is on the way down from the entry of term `u` at index `k`.
abbrev pub On : {Cmd : Type 0} → Made Cmd → (t i u k : ℕ) → Type 0
On made t i u k = above made u k i ≡ some t

-- The way down has no gap.
abbrev pub Rooted : {Cmd : Type 0} → Made Cmd → (u k : ℕ) → Type 0
Rooted made u k = (i : ℕ) → i ≤ k → (t : ℕ) × On made t i u k

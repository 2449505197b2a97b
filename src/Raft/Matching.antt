-- ===== src/Raft/Matching.antt =====
-- Logs as chains: an entry of a term at an index was made once, by the leader of that term, after
-- one entry and with one command (`appendNewEntry` in raft/raft_replication.go).
pub mod Chain
pub mod Agree
pub mod Keeps
pub mod Writes
pub mod Calls
pub mod Events
pub mod Makers
pub mod Sends
pub mod Inv
pub mod Act
pub mod Safety
use raft_side.Prelude.{ℕ, ◌+◌, ◌≡◌, Option, some, List, [], ◌∷◌}
use raft_side.Raft.Types.{Entry, AppendEntriesRequest}
use raft_side.Raft.Shape.{Contiguous}

-- The entries that were made: at a term and an index, the term of the entry before and the command.
abbrev pub Made : Type 0 → Type 0
Made Cmd = (term index : ℕ) → Option (ℕ × Option Cmd)

-- No entry is made twice.
abbrev pub MadeGrows : {Cmd : Type 0} → Made Cmd → Made Cmd → Type 0
MadeGrows {Cmd} made made' = (t i : ℕ) (x : ℕ × Option Cmd) → made t i ≡ some x → made' t i ≡ some x

-- Entries that were made one after another, the first after an entry of a term.
abbrev pub Linked : {Cmd : Type 0} → Made Cmd → (prev : ℕ) → List (Entry Cmd) → Type 0
Linked made prev [] = Unit
Linked made prev (e ∷ entries) =
    (made e.term e.index ≡ some (prev, e.command)) × Linked made e.term entries

-- The dummy entry stands for the entry at its index: it has its term.
abbrev pub LogLinked : {Cmd : Type 0} → Made Cmd → List (Entry Cmd) → Type 0
LogLinked made [] = Unit
LogLinked made (dummy ∷ rest) = Linked made dummy.term rest

-- What a leader sends: a part of a log, with the term of the entry before.
abbrev pub RequestLinked : {Cmd : Type 0} → Made Cmd → AppendEntriesRequest Cmd → Type 0
RequestLinked made request =
    Linked made request.prev_log_term request.entries
    × Contiguous (request.prev_log_index + 1) request.entries

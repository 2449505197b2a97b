-- ===== src/Raft/Matching/Chain.antt =====
-- Parts of chains are chains, and two chains that meet agree before.
use raft_side.Prelude.{
  ℕ, zero, suc, ◌+◌, ◌-◌, ◌<◌, ◌≡◌, inl, inr, refl, arith, some, List, [], ◌∷◌, ◌++◌, length,
  get_elem?, take, drop, Bool-cases, sym, ◌∙◌,
}
use raft_side.Raft.Types.{Entry}
use raft_side.Raft.Shape.{Contiguous, term_at}
use raft_side.Raft.Append.{differs_at, merge_entries}
use raft_side.Raft.Merge.{merge_conflict, merge_same, differs_at-same}
use raft_side.Raft.Matching.{Made, MadeGrows, Linked, LogLinked}

module _ {Cmd : Type 0} where
  pub Linked-MadeGrows :
      (made made' : Made Cmd) (prev : ℕ) (entries : List (Entry Cmd))
      → MadeGrows made made'
      → Linked made prev entries
      → Linked made' prev entries
  Linked-MadeGrows made made' prev [] g l = tt
  Linked-MadeGrows made made' prev (e ∷ entries) g l =
      (g e.term e.index (prev, e.command) l.0, Linked-MadeGrows made made' e.term entries g l.1)

  pub LogLinked-MadeGrows :
      (made made' : Made Cmd) (logs : List (Entry Cmd))
      → MadeGrows made made'
      → LogLinked made logs
      → LogLinked made' logs
  LogLinked-MadeGrows made made' [] g l = tt
  LogLinked-MadeGrows made made' (x ∷ rest) g l = Linked-MadeGrows made made' x.term rest g l

  pub LogLinked-drop :
      (made : Made Cmd) (n : ℕ) (logs : List (Entry Cmd))
      → LogLinked made logs
      → LogLinked made (drop n logs)
  LogLinked-drop made zero logs l = l
  LogLinked-drop made (suc n) [] l = tt
  LogLinked-drop made (suc n) (x ∷ []) l = LogLinked-drop made n [] tt
  LogLinked-drop made (suc n) (x ∷ y ∷ rest) l = LogLinked-drop made n (y ∷ rest) l.1

  -- The entries after one of the log.
  pub Linked-drop :
      (made : Made Cmd) (n : ℕ) (logs : List (Entry Cmd)) {e : Entry Cmd}
      → LogLinked made logs
      → get_elem? logs n ≡ some e
      → Linked made e.term (drop (suc n) logs)
  Linked-drop made n [] l at = absurd (ground arith)
  Linked-drop made zero (x ∷ rest) {e} l at = let same : x ≡ e = ground arith in rw same at l
  Linked-drop made (suc n) (x ∷ []) l at = absurd (ground arith)
  Linked-drop made (suc n) (x ∷ y ∷ rest) l at = Linked-drop made n (y ∷ rest) l.1 at

  LogLinked-take :
      (made : Made Cmd) (n t : ℕ) (logs entries : List (Entry Cmd))
      → LogLinked made logs
      → term_at logs n ≡ some t
      → Linked made t entries
      → LogLinked made (take (suc n) logs ++ entries)
  LogLinked-take made n t [] entries l at new = absurd (ground arith)
  LogLinked-take made zero t (x ∷ rest) entries l at new =
      let same : t ≡ x.term = ground arith in rw same at new
  LogLinked-take made (suc n) t (x ∷ []) entries l at new = absurd (ground arith)
  LogLinked-take made (suc n) t (x ∷ y ∷ rest) entries l at new =
      (l.0, LogLinked-take made n t (y ∷ rest) entries l.1 at new)

  -- A new entry after the last.
  pub LogLinked-append :
      (made : Made Cmd) (logs : List (Entry Cmd)) (last e : Entry Cmd)
      → LogLinked made logs
      → get_elem? logs (length logs - 1) ≡ some last
      → made e.term e.index ≡ some (last.term, e.command)
      → LogLinked made (logs ++ e ∷ [])
  LogLinked-append made [] last e l at new = tt
  LogLinked-append made (x ∷ []) last e l at new =
      let same : last ≡ x = ground arith in (rw same at new, tt)
  LogLinked-append made (x ∷ y ∷ rest) last e l at new =
      (l.0, LogLinked-append made (y ∷ rest) last e l.1 (ground arith) new)

  -- The loop of the handler of AppendEntries, from the offset after an entry of the request's
  -- previous term.
  pub LogLinked-merge_entries :
      (made : Made Cmd) (logs : List (Entry Cmd)) (first : ℕ) (entries : List (Entry Cmd)) (n t : ℕ)
      {logs' : List (Entry Cmd)}
      → LogLinked made logs
      → term_at logs n ≡ some t
      → n < length logs
      → Linked made t entries
      → Contiguous (first + suc n) entries
      → merge_entries logs first entries ≡ some logs'
      → LogLinked made logs'
  unfolding merge_entries
  LogLinked-merge_entries made logs first [] n t {logs'} l at h new c done =
      let same : logs ≡ logs' = ground arith in rw same at l
  LogLinked-merge_entries made logs first (e ∷ entries) n t {logs'} l at h new c done =
      elim (Bool-cases (differs_at logs (suc n) e)) [
        | inl conflict ↦
            let cut = merge_conflict logs first e entries (suc n) c.0 (omega arith) conflict in
            let same : take (suc n) logs ++ e ∷ entries ≡ logs' = ground arith in
            rw same at (LogLinked-take made n t logs (e ∷ entries) l at new)
        | inr kept ↦
            let (inside, there) = differs_at-same logs (suc n) e kept in
            let next : suc (first + suc n) ≡ first + suc (suc n) = omega arith in
            LogLinked-merge_entries made logs first entries (suc n) e.term l there inside new.1
              (rw next at c.1) (sym (merge_same logs first e entries (suc n) c.0 kept) ∙ done)
      ]

  -- An entry that is not the first was made after the one before it.
  pub LogLinked-link :
      (made : Made Cmd) (n : ℕ) (logs : List (Entry Cmd)) {e : Entry Cmd}
      → LogLinked made logs
      → get_elem? logs (suc n) ≡ some e
      → (p : Entry Cmd) × (get_elem? logs n ≡ some p)
        × (made e.term e.index ≡ some (p.term, e.command))
  LogLinked-link made n [] l at = absurd (ground arith)
  LogLinked-link made n (x ∷ []) l at = absurd (ground arith)
  LogLinked-link made zero (x ∷ y ∷ rest) {e} l at =
      let same : y ≡ e = ground arith in (x, refl, rw same at l.0)
  LogLinked-link made (suc n) (x ∷ y ∷ rest) l at = LogLinked-link made n (y ∷ rest) l.1 at

-- ===== src/Raft/Complete/Last.antt =====
-- The last entry of a log that is a chain: the others are on its way down.
use raft_side.Prelude.{
  ◌∙◌, ℕ, zero, suc, ◌+◌, ◌-◌, ◌<◌, ◌≡◌, ◌⊎◌, inl, inr, refl, sym, arith, some, List, [], ◌∷◌, ◌++◌,
  length, drop, take, Bool-cases, false, length-append, length-take_of_le,
}
use raft_side.Raft.Types.{Entry}
use raft_side.Raft.Shape.{first_index, last_term, Contiguous, term_at, holds_term}
use raft_side.Raft.Append.{differs_at, merge_entries}
use raft_side.Raft.Merge.{differs_at-holds_term, merge_conflict, merge_same, differs_at-same}
use raft_side.Raft.Matching.{Made, LogLinked}
use raft_side.Raft.Complete.{On}
use raft_side.Raft.Complete.Tree.{On-self, On-up, On-trans}

module _ {Cmd : Type 0} where
  pub last_term-append :
      (logs : List (Entry Cmd)) (e : Entry Cmd) (more : List (Entry Cmd))
      → last_term (logs ++ e ∷ more) ≡ last_term (e ∷ more)
  last_term-append [] e more = refl
  last_term-append (x ∷ []) e more = refl
  last_term-append (x ∷ y ∷ logs) e more = last_term-append (y ∷ logs) e more

  last_term_dummy :
      (dummy y : Entry Cmd) (logs : List (Entry Cmd))
      → dummy.term ≡ y.term
      → last_term (dummy ∷ logs) ≡ last_term (y ∷ logs)
  last_term_dummy dummy y [] same = same
  last_term_dummy dummy y (z ∷ logs) same = refl

  drop_nil : (n : ℕ) → drop {A = Entry Cmd} n [] ≡ []
  drop_nil zero = refl
  drop_nil (suc n) = refl

  pub last_term-drop :
      (n : ℕ) (logs : List (Entry Cmd)) (x : Entry Cmd) (rest : List (Entry Cmd))
      (dummy : Entry Cmd)
      → drop n logs ≡ x ∷ rest
      → dummy.term ≡ x.term
      → last_term (dummy ∷ rest) ≡ last_term logs
  last_term-drop n [] x rest dummy cut same = let none_left = drop_nil n in absurd (ground arith)
  last_term-drop zero (y ∷ logs) x rest dummy cut same =
      let tail : logs ≡ rest = ground arith in
      rw (← tail) (last_term_dummy dummy y logs (ground arith))
  last_term-drop (suc n) (y ∷ []) x rest dummy cut same =
      let none_left = drop_nil n in absurd (ground arith)
  last_term-drop (suc n) (y ∷ z ∷ logs) x rest dummy cut same =
      last_term-drop n (z ∷ logs) x rest dummy cut same

  -- An entry of a chain is on the way down from its last.
  pub term_at-On :
      (made : Made Cmd) (i first t : ℕ) (logs : List (Entry Cmd))
      → Contiguous first logs
      → LogLinked made logs
      → term_at logs i ≡ some t
      → On made t (first + i) (last_term logs) (first + length logs - 1)
  term_at-On made i first t [] c l at = absurd (ground arith)
  term_at-On made zero first t (x ∷ []) c l at =
      let same : t ≡ x.term = ground arith in
      let e : first + 0 ≡ first + 1 - 1 = omega arith in
      rw (same, e) (On-self made x.term (first + 1 - 1))
  term_at-On made (suc i) first t (x ∷ []) c l at = absurd (ground arith)
  term_at-On made zero first t (x ∷ y ∷ logs) c l at =
      let rest = term_at-On made zero (suc first) y.term (y ∷ logs) c.1 l.1 refl in
      let same : t ≡ x.term = ground arith in
      let here : suc (first + 0) ≡ y.index = omega (arith, c.1.0) in
      let next : suc (first + 0) ≡ suc first + 0 = omega arith in
      let step : On made x.term (first + 0) y.term (suc first + 0) = rw next at (
        On-up made x.term (first + 0) y.term (first + 0) x.term y.command (rw here (l.0))
          (On-self made x.term (first + 0))) in
      let e : suc first + length (y ∷ logs) - 1 ≡ first + length (x ∷ y ∷ logs) - 1 = omega arith in
      rw same (On-trans made x.term (first + 0) y.term (suc first + 0) _ _ (rw e at rest) step)
  term_at-On made (suc i) first t (x ∷ y ∷ logs) c l at =
      let rest = term_at-On made i (suc first) t (y ∷ logs) c.1 l.1 at in
      let e : suc first + length (y ∷ logs) - 1 ≡ first + length (x ∷ y ∷ logs) - 1 = omega arith in
      let f : suc first + i ≡ first + suc i = omega arith in rw (e, f) at rest

  first_index-take :
      (n : ℕ) (logs more : List (Entry Cmd))
      → n < length logs
      → first_index (take (suc n) logs ++ more) ≡ first_index logs
  first_index-take n [] more low = absurd (omega arith)
  first_index-take n (x ∷ logs) more low = refl

  -- The loop of the handler of AppendEntries, from the offset of an entry of the request's previous
  -- term: the log has all entries of the request, or it ends with the request's last entry and an
  -- entry of the request was not in it.
  pub merge_entries-ends :
      (logs : List (Entry Cmd)) (first : ℕ) (dummy : Entry Cmd) (entries : List (Entry Cmd)) (n : ℕ)
      {logs' : List (Entry Cmd)}
      → term_at logs n ≡ some dummy.term
      → n < length logs
      → Contiguous (first + suc n) entries
      → merge_entries logs first entries ≡ some logs'
      → ((logs' ≡ logs) × (term_at logs (n + length entries) ≡ some (last_term (dummy ∷ entries))))
        ⊎ (last_term logs' ≡ last_term (dummy ∷ entries))
          × (length logs' ≡ n + suc (length entries))
          × (first_index logs' ≡ first_index logs)
          × (d : ℕ) × (s : ℕ) × (term_at (dummy ∷ entries) (suc d) ≡ some s)
          × (holds_term logs (n + suc d) s ≡ false)
  unfolding merge_entries
  merge_entries-ends logs first dummy [] n {logs'} at low c done =
      let e : n + 0 ≡ n = omega arith in inl (ground arith, rw e at)
  merge_entries-ends logs first dummy (e ∷ entries) n {logs'} at low c done =
      elim (Bool-cases (differs_at logs (suc n) e)) [
        | inl conflict ↦
            let cut = merge_conflict logs first e entries (suc n) c.0 (omega arith) conflict in
            let same : logs' ≡ take (suc n) logs ++ e ∷ entries = ground arith in
            let long = length-append (take (suc n) logs) (e ∷ entries) in
            let kept = length-take_of_le (suc n) logs (omega arith) in
            let place : n + 1 ≡ suc n = omega arith in
            inr (
              rw same (last_term-append (take (suc n) logs) e entries),
              rw same (omega arith),
              rw same (first_index-take n logs (e ∷ entries) low),
              0,
              e.term,
              refl,
              rw place (differs_at-holds_term logs (suc n) e conflict),
            )
        | inr kept ↦
            let (inside, there) = differs_at-same logs (suc n) e kept in
            let next : suc (first + suc n) ≡ first + suc (suc n) = omega arith in
            let more : suc n + length entries ≡ n + suc (length entries) = omega arith in
            elim (merge_entries-ends logs first e entries (suc n) {logs' = logs'} there inside
              (rw next at c.1) (sym (merge_same logs first e entries (suc n) c.0 kept) ∙ done)) [
                | inl (same, end) ↦ inl (same, rw more at end)
                | inr (last, long, first_same, d, s, entry, missing) ↦
                    let place : suc n + suc d ≡ n + suc (suc d) = omega arith in
                    inr (last, omega arith, first_same, suc d, s, entry, rw place at missing)
              ]
      ]

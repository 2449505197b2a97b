-- ===== src/Raft/Merge.antt =====
-- What the handler of AppendEntries does to the log: the loop over the request's entries.
use raft_side.Prelude.{
  ℕ, zero, suc, ◌+◌, ◌-◌, ◌≤◌, ◌<◌, ◌≡◌, refl, inl, inr, ◌∙◌, ap, true, false, Bool-cases, some,
  List, [], ◌∷◌, ◌++◌, arith, length, get_elem?, take, drop, ◌⊎◌, length-append, length-take_of_le,
  get_elem?-some-lt, Option-cases,
}
use mathlib.Core.List.{append_assoc}
use raft_side.Raft.Types.{Entry}
use raft_side.Raft.Shape.{
  Contiguous, term_at, holds_term, Contiguous-append, Contiguous-take, get_elem?-term_at,
}
use raft_side.Raft.Append.{differs_at, merge_entries}

module _ {Cmd : Type 0} where
  -- From the offset on the log holds entries of the terms of the given ones.
  abbrev pub Stored : (offset : ℕ) → (entries logs : List (Entry Cmd)) → Type 0
  Stored offset [] logs = Unit
  Stored offset (e ∷ entries) logs =
      (term_at logs offset ≡ some e.term) × Stored (suc offset) entries logs

  -- What the log becomes: where it holds an entry of the term of each given one at its index, it
  -- stays; else it is cut at the first index where it does not, and the given entries from there on
  -- follow.
  abbrev pub Merges : (offset : ℕ) → (entries logs logs' : List (Entry Cmd)) → Type 0
  Merges offset entries logs logs' =
      ((logs' ≡ logs) × Stored offset entries logs)
      ⊎ (n : ℕ) × (e : Entry Cmd) × (get_elem? entries n ≡ some e)
        × Stored offset (take n entries) logs
        × (holds_term logs (offset + n) e.term ≡ false)
        × (logs' ≡ take (offset + n) logs ++ drop n entries)

  pub differs_at-holds_term :
      (logs : List (Entry Cmd)) (i : ℕ) (e : Entry Cmd)
      → differs_at logs i e ≡ true
      → holds_term logs i e.term ≡ false
  unfolding differs_at
  differs_at-holds_term [] i e d = refl
  differs_at-holds_term (x ∷ logs) zero e d = ground arith
  differs_at-holds_term (x ∷ logs) (suc i) e d = differs_at-holds_term logs i e d

  -- One more entry, which the log holds.
  Merges-cons :
      (offset : ℕ) (e : Entry Cmd) (entries logs logs' : List (Entry Cmd))
      → term_at logs offset ≡ some e.term
      → Merges (suc offset) entries logs logs'
      → Merges offset (e ∷ entries) logs logs'
  Merges-cons offset e entries logs logs' there (inl (same, stored)) = inl (same, (there, stored))
  Merges-cons offset e entries logs logs' there (inr (n, f, at, stored, missing, cut)) =
      let place : suc offset + n ≡ offset + suc n = omega arith in
      inr (suc n, f, at, (there, stored), rw place at missing, rw place at cut)

  term_at-take :
      (n i : ℕ) (xs ys : List (Entry Cmd))
      → take n xs ≡ take n ys
      → i < n
      → term_at xs i ≡ term_at ys i
  term_at-take zero i xs ys e h = absurd (omega arith)
  term_at-take (suc n) i [] [] e h = refl
  term_at-take (suc n) i [] (y ∷ ys) e h = absurd (ground arith)
  term_at-take (suc n) i (x ∷ xs) [] e h = absurd (ground arith)
  term_at-take (suc n) zero (x ∷ xs) (y ∷ ys) e h = ground arith
  term_at-take (suc n) (suc i) (x ∷ xs) (y ∷ ys) e h =
      term_at-take n i xs ys (ground arith) (omega arith)

  take-take :
      (n m : ℕ) (xs ys : List (Entry Cmd)) → n ≤ m → take m xs ≡ take m ys → take n xs ≡ take n ys
  take-take zero m xs ys h e = refl
  take-take (suc n) zero xs ys h e = absurd (omega arith)
  take-take (suc n) (suc m) [] [] h e = refl
  take-take (suc n) (suc m) [] (y ∷ ys) h e = absurd (ground arith)
  take-take (suc n) (suc m) (x ∷ xs) [] h e = absurd (ground arith)
  take-take (suc n) (suc m) (x ∷ xs) (y ∷ ys) h e =
      ground (arith, take-take n m xs ys (omega arith))

  take-append :
      (n : ℕ) (xs ys : List (Entry Cmd)) → n ≤ length xs → take n (take n xs ++ ys) ≡ take n xs
  take-append zero xs ys h = refl
  take-append (suc n) [] ys h = absurd (omega arith)
  take-append (suc n) (x ∷ xs) ys h = ap (◌∷◌ x) (take-append n xs ys (omega arith))

  term_at-append_self :
      (xs : List (Entry Cmd)) (y : Entry Cmd) (ys : List (Entry Cmd))
      → term_at (xs ++ y ∷ ys) (length xs) ≡ some y.term
  term_at-append_self [] y ys = refl
  term_at-append_self (x ∷ xs) y ys = term_at-append_self xs y ys

  Stored-append : (xs ys : List (Entry Cmd)) → Stored (length xs) ys (xs ++ ys)
  Stored-append xs [] = tt
  Stored-append xs (y ∷ ys) =
      let longer : length (xs ++ y ∷ []) ≡ suc (length xs) =
        omega (arith, length-append xs (y ∷ [])) in
      let rest : Stored (suc (length xs)) ys ((xs ++ y ∷ []) ++ ys) =
        rw longer at (Stored-append (xs ++ y ∷ []) ys) in
      (term_at-append_self xs y ys, rw (append_assoc xs (y ∷ []) ys) at rest)

  pub merge_conflict :
      (logs : List (Entry Cmd)) (first : ℕ) (e : Entry Cmd) (entries : List (Entry Cmd))
      (offset : ℕ)
      → e.index ≡ first + offset
      → offset ≤ length logs
      → differs_at logs offset e ≡ true
      → merge_entries logs first (e ∷ entries) ≡ some (take offset logs ++ e ∷ entries)
  unfolding merge_entries
  merge_conflict logs first e entries offset at h conflict =
      let place : e.index - first ≡ offset = omega arith in ground arith

  pub merge_same :
      (logs : List (Entry Cmd)) (first : ℕ) (e : Entry Cmd) (entries : List (Entry Cmd))
      (offset : ℕ)
      → e.index ≡ first + offset
      → differs_at logs offset e ≡ false
      → merge_entries logs first (e ∷ entries) ≡ merge_entries logs first entries
  unfolding merge_entries
  merge_same logs first e entries offset at same =
      let place : e.index - first ≡ offset = omega arith in ground arith

  pub differs_at-same :
      (logs : List (Entry Cmd)) (offset : ℕ) (e : Entry Cmd)
      → differs_at logs offset e ≡ false
      → (offset < length logs) × (term_at logs offset ≡ some e.term)
  unfolding differs_at
  differs_at-same logs offset e same = elim (Option-cases (get_elem? logs offset)) [
    | inl missing ↦ absurd (ground arith)
    | inr (found, is_found) ↦ ground (
      arith,
      get_elem?-some-lt logs offset is_found,
      get_elem?-term_at logs offset found is_found,
    )
  ]

  Stored-differs_at :
      (logs : List (Entry Cmd)) (offset : ℕ) (e : Entry Cmd)
      → term_at logs offset ≡ some e.term
      → differs_at logs offset e ≡ false
  unfolding differs_at
  Stored-differs_at [] offset e h = ground arith
  Stored-differs_at (x ∷ logs) zero e h = ground arith
  Stored-differs_at (x ∷ logs) (suc offset) e h = Stored-differs_at logs offset e h

  -- On a log, entries that follow on from an offset of it are merged with no panic. The result has
  -- consecutive indices, agrees with the log before the offset, and is what `Merges` says.
  pub merge_entries_lem :
      (logs : List (Entry Cmd)) (first : ℕ) (entries : List (Entry Cmd)) (offset : ℕ)
      → Contiguous first logs
      → Contiguous (first + offset) entries
      → offset ≤ length logs
      → (logs' : List (Entry Cmd)) × (merge_entries logs first entries ≡ some logs')
        × Contiguous first logs'
        × (offset + length entries ≤ length logs')
        × (take offset logs' ≡ take offset logs)
        × Stored offset entries logs'
        × Merges offset entries logs logs'
  unfolding merge_entries differs_at
  merge_entries_lem logs first [] offset c d h =
      (logs, refl, c, omega arith, refl, tt, inl (refl, tt))
  merge_entries_lem logs first (e ∷ entries) offset c d h =
      elim (Bool-cases (differs_at logs offset e)) [
        | inl conflict ↦
            let kept = length-take_of_le offset logs h in
            let here : offset ≡ offset + 0 = omega arith in
            let missing = differs_at-holds_term logs offset e conflict in
            let stored : Stored offset (e ∷ entries) (take offset logs ++ e ∷ entries) =
              rw kept at (Stored-append (take offset logs) (e ∷ entries)) in
            (
              take offset logs ++ e ∷ entries,
              merge_conflict logs first e entries offset d.0 h conflict,
              Contiguous-append first (take offset logs) (e ∷ entries)
                  (Contiguous-take first offset logs c) (rw kept d),
              omega (arith, length-append (take offset logs) (e ∷ entries)),
              take-append offset logs (e ∷ entries) h,
              stored,
              inr (0, e, refl, tt, rw here at missing, ap (λ m. take m logs ++ e ∷ entries) here),
            )
        | inr same ↦
            let (inside, there) = differs_at-same logs offset e same in
            let next : suc (first + offset) ≡ first + suc offset = omega arith in
            let (logs', merged, shape, long, before, stored, merges) =
              merge_entries_lem logs first entries (suc offset) c (rw next at d.1) (omega arith) in
            (
              logs',
              merge_same logs first e entries offset d.0 same ∙ merged,
              shape,
              omega arith,
              take-take offset (suc offset) logs' logs (omega arith) before,
              (term_at-take (suc offset) offset logs' logs before (omega arith) ∙ there, stored),
              Merges-cons offset e entries logs logs' there merges,
            )
      ]

  -- A request whose entries the log already holds leaves the log as it is, so a late or repeated
  -- request cuts nothing off.
  pub merge_entries-Stored :
      (logs : List (Entry Cmd)) (first : ℕ) (entries : List (Entry Cmd)) (offset : ℕ)
      → Contiguous (first + offset) entries
      → Stored offset entries logs
      → merge_entries logs first entries ≡ some logs
  unfolding merge_entries
  merge_entries-Stored logs first [] offset d s = refl
  merge_entries-Stored logs first (e ∷ entries) offset d s =
      let next : suc (first + offset) ≡ first + suc offset = omega arith in
      merge_same logs first e entries offset d.0 (Stored-differs_at logs offset e s.0)
      ∙ merge_entries-Stored logs first entries (suc offset) (rw next at d.1) s.1

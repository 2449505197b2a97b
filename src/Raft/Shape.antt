-- ===== src/Raft/Shape.antt =====
-- The shape of a log: the entries have consecutive indices, from the dummy entry on. The access
-- functions of raft/raft_util.go do not panic on such a log.
use raft_side.Prelude.{
  ℕ, zero, suc, ◌+◌, ◌-◌, ◌≤◌, ◌<◌, ◌≡◌, refl, Bool, false, inl, inr, Bool-cases, Option, none,
  some, List, [], ◌∷◌, ◌++◌, arith, length, get_elem?, take, drop, get_elem?-lt, leb, ◌==◌,
}
use raft_side.Raft.Types.{Entry}
use raft_side.Raft.Log.{get_last_log, get_first_log, has_term_at, match_log}

module _ {Cmd : Type 0} where
  abbrev pub Contiguous : (index : ℕ) → List (Entry Cmd) → Type 0
  Contiguous index [] = Unit
  Contiguous index (e ∷ logs) = (e.index ≡ index) × Contiguous (suc index) logs

  abbrev pub first_index : List (Entry Cmd) → ℕ
  first_index [] = 0
  first_index (e ∷ logs) = e.index

  -- The index of the last entry.
  abbrev pub last_index : List (Entry Cmd) → ℕ
  last_index logs = first_index logs + length logs - 1

  -- A log has its dummy entry, and consecutive indices.
  pub record IsLog (logs : List (Entry Cmd)) : Type 0 where
    pub nonempty : 0 < length logs
    pub contiguous : Contiguous (first_index logs) logs

  abbrev pub term_at : List (Entry Cmd) → ℕ → Option ℕ
  term_at [] i = none
  term_at (e ∷ logs) zero = some e.term
  term_at (e ∷ logs) (suc i) = term_at logs i

  pub Contiguous-get_elem? :
      (index : ℕ) (logs : List (Entry Cmd)) (i : ℕ) {e : Entry Cmd}
      → Contiguous index logs
      → get_elem? logs i ≡ some e
      → e.index ≡ index + i
  Contiguous-get_elem? index [] i c e = absurd (ground arith)
  Contiguous-get_elem? index (x ∷ logs) zero c e = ground arith
  Contiguous-get_elem? index (x ∷ logs) (suc i) {e = y} c e =
      omega (arith, Contiguous-get_elem? (suc index) logs i {e = y} c.1 e)

  pub Contiguous-append :
      (index : ℕ) (xs ys : List (Entry Cmd))
      → Contiguous index xs
      → Contiguous (index + length xs) ys
      → Contiguous index (xs ++ ys)
  Contiguous-append index [] ys c d = let e : index + 0 ≡ index = omega arith in rw e at d
  Contiguous-append index (x ∷ xs) ys c d =
      let e : index + suc (length xs) ≡ suc index + length xs = omega arith in
      (c.0, Contiguous-append (suc index) xs ys c.1 (rw e at d))

  pub Contiguous-take :
      (index n : ℕ) (xs : List (Entry Cmd)) → Contiguous index xs → Contiguous index (take n xs)
  Contiguous-take index zero xs c = tt
  Contiguous-take index (suc n) [] c = tt
  Contiguous-take index (suc n) (x ∷ xs) c = (c.0, Contiguous-take (suc index) n xs c.1)

  pub Contiguous-drop :
      (index n : ℕ) (xs : List (Entry Cmd))
      → Contiguous index xs
      → Contiguous (index + n) (drop n xs)
  Contiguous-drop index zero xs c = let e : index + 0 ≡ index = omega arith in rw e c
  Contiguous-drop index (suc n) [] c = tt
  Contiguous-drop index (suc n) (x ∷ xs) c =
      let e : index + suc n ≡ suc index + n = omega arith in
      rw e (Contiguous-drop (suc index) n xs c.1)

  pub get_last_log-some :
      (logs : List (Entry Cmd)) → 0 < length logs → (e : Entry Cmd) × (get_last_log logs ≡ some e)
  unfolding get_last_log
  get_last_log-some logs h = get_elem?-lt logs (length logs - 1) (omega arith)

  pub get_last_log-index :
      (logs : List (Entry Cmd))
      → IsLog logs
      → (e : Entry Cmd) × (get_last_log logs ≡ some e) × (e.index ≡ last_index logs)
  unfolding get_last_log
  get_last_log-index logs l =
      let (e, found) = get_elem?-lt logs (length logs - 1) (omega arith) in
      (
        e,
        found,
        omega (
          arith,
          Contiguous-get_elem? (first_index logs) logs (length logs - 1) l.contiguous found,
        ),
      )

  pub get_first_log-index :
      (logs : List (Entry Cmd))
      → IsLog logs
      → (e : Entry Cmd) × (get_first_log logs ≡ some e) × (e.index ≡ first_index logs)
  unfolding get_first_log
  get_first_log-index [] l = absurd (omega arith)
  get_first_log-index (e ∷ logs) l = (e, refl, refl)

  pub get_elem?-term_at :
      (logs : List (Entry Cmd)) (i : ℕ) (e : Entry Cmd)
      → get_elem? logs i ≡ some e
      → term_at logs i ≡ some e.term
  get_elem?-term_at [] i e h = ground arith
  get_elem?-term_at (x ∷ logs) zero e h = ground arith
  get_elem?-term_at (x ∷ logs) (suc i) e h = get_elem?-term_at logs i e h

  term_at-none : (logs : List (Entry Cmd)) (i : ℕ) → length logs ≤ i → term_at logs i ≡ none
  term_at-none [] i h = refl
  term_at-none (x ∷ logs) zero h = absurd (omega arith)
  term_at-none (x ∷ logs) (suc i) h = term_at-none logs i (omega arith)

  abbrev pub holds_term : List (Entry Cmd) → (offset term : ℕ) → Bool
  holds_term logs offset term = elim (term_at logs offset) [ none ↦ false | some t ↦ t == term ]

  -- `matchLog` on a log, at an index that the log has not cut off, does not panic: it is the test
  -- that the log has an entry of the term at the index.
  pub match_log_lem :
      (logs : List (Entry Cmd)) (term index : ℕ)
      → IsLog logs
      → first_index logs ≤ index
      → match_log logs term index ≡ some (holds_term logs (index - first_index logs) term)
  unfolding match_log has_term_at
  match_log_lem logs term index l h =
      let (last, is_last, at_last) = get_last_log-index logs l in
      let (first, is_first, at_first) = get_first_log-index logs l in
      let offset = index - first_index logs in
      elim (Bool-cases (leb index last.index)) [
        | inl inside ↦
            let (e, found) = get_elem?-lt logs offset (ground arith) in
            ground (arith, get_elem?-term_at logs offset e found)
        | inr outside ↦ ground (arith, term_at-none logs offset)
      ]

  -- The term of the last entry.
  abbrev pub last_term : List (Entry Cmd) → ℕ
  last_term [] = 0
  last_term (e ∷ []) = e.term
  last_term (e ∷ f ∷ logs) = last_term (f ∷ logs)

  last_term-get_elem? :
      (logs : List (Entry Cmd)) (e : Entry Cmd)
      → get_elem? logs (length logs - 1) ≡ some e
      → last_term logs ≡ e.term
  last_term-get_elem? [] e at = absurd (ground arith)
  last_term-get_elem? (x ∷ []) e at = ground arith
  last_term-get_elem? (x ∷ y ∷ logs) e at = last_term-get_elem? (y ∷ logs) e (ground arith)

  pub get_last_log-last_term :
      (logs : List (Entry Cmd)) (e : Entry Cmd)
      → get_last_log logs ≡ some e
      → last_term logs ≡ e.term
  unfolding get_last_log
  get_last_log-last_term logs e at = last_term-get_elem? logs e at

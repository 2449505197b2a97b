-- ===== src/Raft/Matching/Agree.antt =====
-- Two logs that are chains, and have an entry of the same term at the same index, agree before it.
use raft_side.Prelude.{
  ℕ, zero, suc, ◌+◌, ◌-◌, ◌≤◌, ◌≡◌, List, get_elem?, some, ◌⊎◌, Bool-cases, arith, leb, inl, inr,
}
use raft_side.Raft.Types.{Entry}
use raft_side.Raft.Shape.{IsLog, first_index, Contiguous-get_elem?}
use raft_side.Raft.Matching.{Made, LogLinked}
use raft_side.Raft.Matching.Chain.{LogLinked-link}

module _ {Cmd : Type 0} where
  -- Both logs have an entry at the index, of the same term; and of the same command, unless it is
  -- the dummy entry of one of them.
  abbrev pub AgreeAt : (index : ℕ) → List (Entry Cmd) → List (Entry Cmd) → Type 0
  AgreeAt index a b =
      (x : Entry Cmd) × (y : Entry Cmd) × (get_elem? a (index - first_index a) ≡ some x)
      × (get_elem? b (index - first_index b) ≡ some y)
      × (x.term ≡ y.term)
      × ((index ≡ first_index a) ⊎ (index ≡ first_index b) ⊎ (x.command ≡ y.command))

  -- One entry at the same index in both: made alike, so the entries before have the same term.
  linked_alike :
      (made : Made Cmd) (a b : List (Entry Cmd)) (i j : ℕ) (x y : Entry Cmd)
      → LogLinked made a
      → LogLinked made b
      → get_elem? a (suc i) ≡ some x
      → get_elem? b (suc j) ≡ some y
      → x.term ≡ y.term
      → x.index ≡ y.index
      → (p : Entry Cmd) × (q : Entry Cmd) × (get_elem? a i ≡ some p)
        × (get_elem? b j ≡ some q)
        × (p.term ≡ q.term)
        × (x.command ≡ y.command)
  linked_alike made a b i j x y la lb at_a at_b term index =
      let (p, at_p, made_p) = LogLinked-link made i a la at_a in
      let (q, at_q, made_q) = LogLinked-link made j b lb at_b in
      (p, q, at_p, at_q, grind arith, grind arith)

  -- At the index itself.
  agree_here :
      (made : Made Cmd) (a b : List (Entry Cmd)) (m : ℕ) (x y : Entry Cmd)
      → IsLog a
      → IsLog b
      → LogLinked made a
      → LogLinked made b
      → first_index a ≤ m
      → first_index b ≤ m
      → get_elem? a (m - first_index a) ≡ some x
      → get_elem? b (m - first_index b) ≡ some y
      → x.term ≡ y.term
      → AgreeAt m a b
  agree_here made a b m x y shape_a shape_b la lb low_a low_b at_a at_b term =
      elim (Bool-cases (leb m (first_index a))) [
        | inl dummy ↦ (x, y, at_a, at_b, term, inl (ground arith))
        | inr above_a ↦ elim (Bool-cases (leb m (first_index b))) [
          | inl dummy ↦ (x, y, at_a, at_b, term, inr (inl (ground arith)))
          | inr above_b ↦
              let here_a : m - first_index a ≡ suc (m - first_index a - 1) = ground arith in
              let here_b : m - first_index b ≡ suc (m - first_index b - 1) = ground arith in
              let is_x =
                Contiguous-get_elem? (first_index a) a (m - first_index a) shape_a.contiguous
                  at_a in
              let is_y =
                Contiguous-get_elem? (first_index b) b (m - first_index b) shape_b.contiguous
                  at_b in
              let (p, q, at_p, at_q, same, command) =
                linked_alike made a b (m - first_index a - 1) (m - first_index b - 1) x y la lb
                  (rw here_a at at_a) (rw here_b at at_b) term (omega arith) in
              (x, y, at_a, at_b, term, inr (inr command))
        ]
      ]

  -- Down from the index, `d` entries.
  agree_below :
      (made : Made Cmd) (a b : List (Entry Cmd)) (d m : ℕ) (x y : Entry Cmd)
      → IsLog a
      → IsLog b
      → LogLinked made a
      → LogLinked made b
      → first_index a ≤ m
      → first_index b ≤ m
      → get_elem? a (m + d - first_index a) ≡ some x
      → get_elem? b (m + d - first_index b) ≡ some y
      → x.term ≡ y.term
      → AgreeAt m a b
  agree_below made a b zero m x y shape_a shape_b la lb low_a low_b at_a at_b term =
      let here : m + 0 ≡ m = omega arith in
      agree_here made a b m x y shape_a shape_b la lb low_a low_b (rw here at at_a)
        (rw here at at_b) term
  agree_below made a b (suc d) m x y shape_a shape_b la lb low_a low_b at_a at_b term =
      let here_a : m + suc d - first_index a ≡ suc (m + d - first_index a) = omega arith in
      let here_b : m + suc d - first_index b ≡ suc (m + d - first_index b) = omega arith in
      let is_x =
        Contiguous-get_elem? (first_index a) a (m + suc d - first_index a) shape_a.contiguous
          at_a in
      let is_y =
        Contiguous-get_elem? (first_index b) b (m + suc d - first_index b) shape_b.contiguous
          at_b in
      let (p, q, at_p, at_q, same, command) =
        linked_alike made a b (m + d - first_index a) (m + d - first_index b) x y la lb
          (rw here_a at at_a) (rw here_b at at_b) term (omega arith) in
      agree_below made a b d m p q shape_a shape_b la lb low_a low_b at_p at_q same

  -- If two chains have an entry of the same term at the same index, they agree at every index up to
  -- it that neither has cut off.
  pub LogLinked-agree :
      (made : Made Cmd) (a b : List (Entry Cmd)) (k m : ℕ) (x y : Entry Cmd)
      → IsLog a
      → IsLog b
      → LogLinked made a
      → LogLinked made b
      → get_elem? a (k - first_index a) ≡ some x
      → get_elem? b (k - first_index b) ≡ some y
      → x.term ≡ y.term
      → m ≤ k
      → first_index a ≤ m
      → first_index b ≤ m
      → AgreeAt m a b
  LogLinked-agree made a b k m x y shape_a shape_b la lb at_a at_b term below low_a low_b =
      let e : k ≡ m + (k - m) = omega arith in
      agree_below made a b (k - m) m x y shape_a shape_b la lb low_a low_b (rw (← e) at_a)
        (rw (← e) at_b) term

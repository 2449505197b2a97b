-- ===== src/Raft/Complete/Moves.antt =====
-- A step of one node, no candidate after it, that writes its log or acknowledges entries.
use raft_side.Prelude.{
  ℕ, ◌≤◌, ◌≡◌, ◌⊎◌, inl, inr, refl, arith, Bool, Option, none, some, Bool-cases, Option-cases, ◌==◌,
  true, false, List, ◌&&◌, ◌||◌, leb,
}
use raft_side.Raft.Types.{AppendEntriesRequest, candidate, leader, is_state, Raft}
use raft_side.Raft.Cluster.{Cluster, set_at}
use raft_side.Raft.Cluster.Inv.{Cast, set_at-All}
use raft_side.Raft.Matching.{Made}
use raft_side.Raft.Complete.Tree.{On-MadeGrows}
use raft_side.Raft.Complete.History.{Base, Acked, IsHistory}
use raft_side.Raft.Complete.Grows.{Grown, Voter-Grown}
use raft_side.Raft.Complete.Inv.{NodeKeeps, NodeKeeps-Grown}
use raft_side.Raft.Complete.Group.{GroupKeeps, AskedBy, HasWon, Polled, majority-Grows}

abbrev is_made : {Cmd : Type 0} → Made Cmd → (t j : ℕ) → Bool
is_made made t j = elim (made t j) [ none ↦ false | some x ↦ true ]

-- The node acknowledges the entries that its term's leader made up to an index.
abbrev pub note : {Cmd : Type 0} → Made Cmd → (i t end : ℕ) → Acked → Acked
note made i t end acked p u j =
    acked p u j || ((i == p && t == u) && (leb j end && is_made made u j))

pub note-cases :
    {Cmd : Type 0} (made : Made Cmd) (i t end : ℕ) (acked : Acked) (p u j : ℕ)
    → note made i t end acked p u j ≡ true
    → (acked p u j ≡ true)
      ⊎ (i ≡ p) × (t ≡ u) × (j ≤ end) × (x : ℕ × Option Cmd) × (made u j ≡ some x)
note-cases made i t end acked p u j n = elim (Option-cases (made u j)) [
  | inl none_made ↦ inl (ground arith)
  | inr (x, at) ↦ elim (Bool-cases (acked p u j)) [
    | inl old ↦ inl old
    | inr other ↦ inr (ground arith, ground arith, ground arith, x, at)
  ]
]

pub note-new :
    {Cmd : Type 0} (made : Made Cmd) (i t end : ℕ) (acked : Acked) (j : ℕ) (x : ℕ × Option Cmd)
    → j ≤ end
    → made t j ≡ some x
    → note made i t end acked i t j ≡ true
note-new made i t end acked j x low at = ground arith

pub note-other :
    {Cmd : Type 0} (made : Made Cmd) (i t end : ℕ) (acked : Acked) (p u j : ℕ)
    → (i == p) ≡ false
    → note made i t end acked p u j ≡ acked p u j
note-other made i t end acked p u j other = elim (Bool-cases (acked p u j)) [
  | inl yes_ ↦ ground arith
  | inr no_ ↦ ground arith
]

set_at-others :
    {A : Type 0} (P : ℕ → A → Type 0) (f : ℕ → A) (p : ℕ) (a : A)
    → P p a
    → ((j : ℕ) → (p == j) ≡ false → P j (f j))
    → (j : ℕ) → P j (set_at f p a j)
set_at-others P f p a here rest j = elim (Bool-cases (p == j)) [
  | inl same ↦ let e : p ≡ j = ground arith in rw same (rw e at here)
  | inr other ↦ rw other (rest j other)
]

module _ {Cmd : Type 0} where
  pub moves-GroupKeeps :
      {size : ℕ} {made made' : Made Cmd} {cast cast' : Cast} {base : Base} {acked acked' : Acked}
      {c : Cluster Cmd} {sent : List (AppendEntriesRequest Cmd)}
      (k : GroupKeeps size made cast base acked c sent) (i : ℕ) (rf : Raft Cmd)
      (past : (p t v : ℕ) → cast p t ≡ some v → t ≤ (c.nodes p).current_term)
      (g : Grown made made' base base acked acked' cast cast' (λ p. (c.nodes p).current_term))
      → ((p t v : ℕ) → cast' p t ≡ some v → cast p t ≡ some v)
      → IsHistory size made' base acked' cast'
      → NodeKeeps made' base acked' i rf
      → (c.nodes i).current_term ≤ rf.current_term
      → is_state rf.state candidate ≡ false
      → ((j : ℕ) → (i == j) ≡ false → (t l : ℕ) → acked' j t l ≡ acked j t l)
      → ((j l : ℕ) (x : ℕ × Option Cmd)
          → (i == j) ≡ false
          → is_state (c.nodes j).state leader ≡ true
          → made' (c.nodes j).current_term l ≡ some x
          → made (c.nodes j).current_term l ≡ some x)
      → GroupKeeps size made' cast' base acked' (record c { nodes = set_at c.nodes i rf }) sent
  moves-GroupKeeps {size} {made} {made'} {cast} {cast'} {base} {acked} {acked'} {c} k i rf past g
        back history own later no_candidate acks others =
      record {
        history = history;
        nodes_keep =
            set_at-others (λ j a. NodeKeeps made' base acked' j a) c.nodes i rf own
              (λ j other.
                NodeKeeps-Grown g j (c.nodes j) (c.nodes j) (k.nodes_keep j) (refl, refl)
                  (omega arith) (acks j other) (λ l. (l, refl, λ m x at. others j m x other l at)));
        winner = λ u bt bi is.
            let (m, many, won) = k.winner u bt bi is in
            (
              m,
              majority-Grows size m u cast cast' g.cast_grows many,
              set_at-All (λ j a. HasWon u (c.nodes j) → HasWon u a) c.nodes i rf (λ w. ground arith)
                  (λ j w. w) m won,
            );
        asked = λ id e at.
            set_at-All (λ j a. AskedBy e.request (c.nodes j) → AskedBy e.request a) c.nodes i rf
              (λ (first, low, last). (first, omega arith, λ now. absurd (ground arith))) (λ j w. w)
              e.request.candidate_id (k.asked id e at);
        polled =
            set_at-All (λ v a. Polled made' base acked' cast' v a) c.nodes i rf
              (λ now. absurd (ground arith))
              (λ v now open_ p voted.
                Voter-Grown g p (c.nodes v).current_term _ _
                  (λ w. past p (c.nodes v).current_term w)
                  (k.polled v now open_ p (back p (c.nodes v).current_term v voted)));
        cast_term = λ p u v voted.
            let after : (c.nodes v).current_term ≤ (set_at c.nodes i rf v).current_term =
              set_at-All (λ j a. (c.nodes j).current_term ≤ a.current_term) c.nodes i rf later
                (λ j. omega arith) v in
            omega (arith, k.cast_term p u v (back p u v voted));
        sent_on = λ j q at.
            let (bt, bi, is, on) = k.sent_on j q at in
            (
              bt,
              bi,
              is,
              elim on [
                | inl old ↦ inl (On-MadeGrows made made' _ _ bt bi g.made_grows old)
                | inr (same, x, found) ↦ inr (same, x, g.made_grows q.term _ x found)
              ],
            );
      }

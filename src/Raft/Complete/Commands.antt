-- ===== src/Raft/Complete/Commands.antt =====
-- A leader that makes an entry.
use raft_side.Prelude.{
  ℕ, suc, ◌+◌, ◌≤◌, ◌≡◌, inl, inr, refl, sym, ap, arith, Option, none, some, true, false, List,
}
use raft_side.Raft.Types.{AppendEntriesRequest, candidate, leader, is_state, Raft}
use raft_side.Raft.Shape.{last_index, last_term}
use raft_side.Raft.Cluster.{Cluster, set_at}
use raft_side.Raft.Cluster.Inv.{Cast}
use raft_side.Raft.Matching.{Made, MadeGrows}
use raft_side.Raft.Matching.Act.{SameCast, make_entry, make_entry-cases}
use raft_side.Raft.Complete.{On}
use raft_side.Raft.Complete.Tree.{On-self, On-up_at, On-MadeGrows}
use raft_side.Raft.Complete.History.{Base, Acked, IsHistory}
use raft_side.Raft.Complete.Grows.{Grown, Lost-Grown, IsHistory-Grown}
use raft_side.Raft.Complete.Inv.{NodeKeeps}
use raft_side.Raft.Complete.Group.{GroupKeeps}
use raft_side.Raft.Complete.Moves.{note, note-cases, note-new, note-other, moves-GroupKeeps}

module _ {Cmd : Type 0} {size : ℕ} {made : Made Cmd} {cast : Cast} {base : Base} {acked : Acked}
    {c : Cluster Cmd} {sent : List (AppendEntriesRequest Cmd)}
    (k : GroupKeeps size made cast base acked c sent)
    (past : (p t v : ℕ) → cast p t ≡ some v → t ≤ (c.nodes p).current_term) (i : ℕ)
    (led : is_state (c.nodes i).state leader ≡ true) (command : Option Cmd)
    (fresh : made (c.nodes i).current_term (last_index (c.nodes i).logs + 1) ≡ none) where
  abbrev node_term : ℕ
  node_term = (c.nodes i).current_term

  abbrev next_index : ℕ
  next_index = last_index (c.nodes i).logs + 1

  abbrev pub made_next : Made Cmd
  made_next = make_entry node_term next_index (last_term (c.nodes i).logs, command) made

  abbrev pub acked_next : Acked
  acked_next = note made_next i node_term next_index acked

  next-MadeGrows : MadeGrows made made_next
  next-MadeGrows t j x at = ground (arith, fresh)

  pub next_made : made_next node_term next_index ≡ some (last_term (c.nodes i).logs, command)
  next_made = ground arith

  next-Grown :
      (cast' : Cast)
      → SameCast cast cast'
      → Grown made made_next base base acked acked_next cast cast' (λ p. (c.nodes p).current_term)
  next-Grown cast' same = record {
    made_grows = next-MadeGrows;
    base_grows = λ u bt bi is. is;
    cast_grows = same.0;
    acked_grows = λ p t j is. elim (note-cases made_next i node_term next_index acked p t j is) [
      | inl old ↦ inl old
      | inr (self, of_term, within, x, at) ↦
          inr (omega (arith, of_term, ap (λ m. (c.nodes m).current_term) self))
    ];
  }

  -- An entry on the way down from the leader's last is on the way down from the new one.
  On-next :
      (t j : ℕ)
      → On made t j (last_term (c.nodes i).logs) (last_index (c.nodes i).logs)
      → On made_next t j node_term next_index
  On-next t j on =
      On-up_at made_next t j node_term (last_index (c.nodes i).logs) next_index
        (last_term (c.nodes i).logs) command (omega arith) next_made
        (On-MadeGrows made made_next t j _ _ next-MadeGrows on)

  -- What the leader's term has made, the new entry with it.
  own-On :
      (j : ℕ) (x : ℕ × Option Cmd)
      → made_next node_term j ≡ some x
      → On made_next node_term j node_term next_index × (acked_next i node_term j ≡ true)
  own-On j x at =
      let (bt, bi, is, on, end, all) = (k.nodes_keep i).led led in
      elim (make_entry-cases node_term next_index (last_term (c.nodes i).logs, command) made
        node_term j x at) [
          | inl before ↦
              let (on_j, acked_j) = all j x before in (On-next node_term j on_j, ground arith)
          | inr (same, place, value) ↦ (
            rw (← place) (On-self made_next node_term next_index),
            note-new made_next i node_term next_index acked j x (omega arith) at,
          )
        ]

  next-IsHistory :
      (cast' : Cast) → SameCast cast cast' → IsHistory size made_next base acked_next cast'
  next-IsHistory cast' same =
      let (bt, bi, is, on, end, all) = (k.nodes_keep i).led led in
      IsHistory-Grown (next-Grown cast' same) size k.history past
        (λ u j v x at.
          elim (make_entry-cases node_term next_index (last_term (c.nodes i).logs, command) made u
            (suc j) (v, x) at) [
              | inl old ↦ inl old
              | inr (this, place, value) ↦
                  let value_t : last_term (c.nodes i).logs ≡ v =
                    ap (λ (y : ℕ × Option Cmd). y.0) value in
                  let value_i : last_index (c.nodes i).logs ≡ j = omega arith in
                  elim end [
                    | inr (same_t, same_i) ↦
                        inr (inl (rw (← this, ← value_t, ← value_i) (rw (same_t, same_i) at is)))
                    | inl own ↦ elim (k.nodes_keep i).entry.0 [
                      | inl (zero_t, zero_i) ↦
                          absurd (omega (arith, k.history.base_term node_term bt bi is))
                      | inr (y, at_last) ↦
                          inr (
                            inr (omega (arith, own), y, rw (← this, ← value_i) (rw own at at_last)))
                    ]
                  ]
            ])
        (λ u. ground (arith, k.history.no_zero u)) (λ u ct ci at. inl at)
        (λ p t j noted. elim (note-cases made_next i node_term next_index acked p t j noted) [
          | inl old ↦ let (x, at) = k.history.acked_made p t j old in (x, next-MadeGrows t j x at)
          | inr (self, of_term, within, x, at) ↦ (x, at)
        ])

  next-NodeKeeps :
      (cast' : Cast) (same_cast : SameCast cast cast') (rf : Raft Cmd)
      → rf.current_term ≡ node_term
      → last_term rf.logs ≡ node_term
      → last_index rf.logs ≡ next_index
      → NodeKeeps made_next base acked_next i rf
  next-NodeKeeps cast' same_cast rf term last_t last_i =
      let g = next-Grown cast' same_cast in
      record {
        kept = λ t j noted.
            rw (term, last_t, last_i)
              (elim (note-cases made_next i node_term next_index acked i t j noted) [
                | inl old ↦
                    let (low, held) = (k.nodes_keep i).kept t j old in
                    (
                      low,
                      elim held [
                        | inl on ↦ inl (On-next t j on)
                        | inr lost ↦
                            inr
                              (Lost-Grown g t j (suc node_term) (suc node_term) (omega arith) lost)
                      ],
                    )
                | inr (self, of_term, within, x, at) ↦
                    let (on, acked_j) = own-On j x (rw (← of_term) at at) in
                    (omega arith, inl (rw (← of_term) on))
              ]);
        entry = rw (term, last_t, last_i) (inr (_, next_made), omega arith);
        led = λ l.
            let (bt, bi, is, on, end, all) = (k.nodes_keep i).led led in
            rw (term, last_t, last_i) (bt, bi, is, On-next bt bi on, inl refl, own-On);
      }

  pub command-GroupKeeps :
      (cast' : Cast)
      → SameCast cast cast'
      → (rf : Raft Cmd) → rf.current_term ≡ node_term
      → last_term rf.logs ≡ node_term
      → last_index rf.logs ≡ next_index
      → is_state rf.state candidate ≡ false
      → ((j : ℕ)
          → is_state (c.nodes j).state leader ≡ true
          → (c.nodes j).current_term ≡ node_term
          → i ≡ j)
      → GroupKeeps size made_next cast' base acked_next
          (record c { nodes = set_at c.nodes i rf })
          sent
  command-GroupKeeps cast' same_cast rf term last_t last_i no_candidate one_leader =
      moves-GroupKeeps k i rf past (next-Grown cast' same_cast) same_cast.1
        (next-IsHistory cast' same_cast) (next-NodeKeeps cast' same_cast rf term last_t last_i)
        (omega arith) no_candidate
        (λ j other t l. note-other made_next i node_term next_index acked j t l other)
        (λ j l x other leads at.
          elim (make_entry-cases node_term next_index (last_term (c.nodes i).logs, command) made
            (c.nodes j).current_term l x at) [
              | inl old ↦ old
              | inr (this, place, value) ↦ absurd (ground (arith, one_leader j leads (sym this)))
            ])

-- ===== src/Raft/Complete/Makes.antt =====
-- A step of a group of nodes in which a leader takes a command.
use raft_side.Prelude.{ℕ, ◌+◌, ◌≤◌, ◌≡◌, inl, inr, arith, Option, some, true, Bool-cases, leb, []}
use raft_side.Raft.Types.{leader, is_state, Raft}
use raft_side.Raft.Persist.{RaftCodec}
use raft_side.Raft.Shape.{last_index, last_term}
use raft_side.Raft.Node.{client_command, step}
use raft_side.Raft.Cluster.Safety.{majority-one}
use raft_side.Raft.Network.{Network}
use raft_side.Raft.Server.{start}
use raft_side.Raft.Matching.Act.{command-IsMatched, fresh_entry, start_of}
use raft_side.Raft.Matching.Calls.{start-longer, start-appends}
use raft_side.Raft.Complete.History.{made-between}
use raft_side.Raft.Complete.Last.{last_term-append}
use raft_side.Raft.Complete.Moves.{note-new}
use raft_side.Raft.Complete.Commands.{made_next, acked_next, next_made, command-GroupKeeps}
use raft_side.Raft.Complete.Steps.{IsComplete, cast_past}
use raft_side.Raft.Complete.Stores.{ActsOn}

module _ {Cmd : Type 0} ⦃codec : RaftCodec Cmd⦄ where
  start-last_term :
      (rf : Raft Cmd) (command : Cmd) {rf' : Raft Cmd} {r : Option (ℕ × ℕ)}
      → start rf command ≡ some (rf', r)
      → is_state rf.state leader ≡ true
      → last_term rf'.logs ≡ rf.current_term
  start-last_term rf command e led =
      let (state, term, logs) = start-appends rf command e in
      elim logs [
        | inl (other, same) ↦ absurd (ground arith)
        | inr (is, last, is_last, appended) ↦ rw appended (last_term-append rf.logs _ [])
      ]

  module _ (size : ℕ) (n : Network Cmd) (h : IsComplete size n) (i : ℕ) where
    pub command-IsComplete :
        (command : Cmd) (rf : Raft Cmd)
        → is_state (n.cluster.nodes i).state leader ≡ true
        → step (n.cluster.nodes i) (client_command command) ≡ some rf
        → ActsOn size n h i (client_command command) rf
    command-IsComplete command rf led done =
        let node = n.cluster.nodes i in
        let (m, made, cast) = command-IsMatched size n h.matched i command rf led done in
        let (r, started) = start_of size n h.matched i command done in
        let (still, term, longer) = start-longer node command started (h.matched.shaped i) led in
        let past = cast_past size h.matched.fair in
        let fresh = fresh_entry size n h.matched i led in
        let voting = h.matched.fair.voting in
        let keeps =
          command-GroupKeeps h.keeps past i led (some command) fresh m.fair.cast cast rf term
            (start-last_term node command started led) longer (ground arith)
            (λ j leads same.
              majority-one size h.matched.fair.cast i j node.current_term (voting.led i led)
                (rw same at (voting.led j leads))) in
        let next = acked_next h.keeps past i led (some command) fresh in
        (
          record { matched = m; base = h.base; acked = next; keeps = rw made keeps },
          (λ u bt bi is. is, λ p t j is. ground arith, λ t j x at. rw made (ground (arith, fresh))),
          λ t j stored.
              let of_term : node.current_term ≡ t = ground arith in
              let within : j ≤ last_index node.logs + 1 = ground arith in
              let (bt, bi, is, on, end, all) = (h.keeps.nodes_keep i).led led in
              rw (made, ← of_term)
                (
                  bt,
                  bi,
                  is,
                  elim (Bool-cases (leb j bi)) [
                    | inl old ↦ inl (ground arith)
                    | inr new ↦
                        let (x, found) =
                          made-between size _ h.base next m.fair.cast keeps.history
                            node.current_term bt bi j (last_index node.logs + 1) _ is
                            (next_made h.keeps past i led (some command) fresh) (ground arith)
                            within in
                        inr (
                          x,
                          found,
                          note-new (made_next h.keeps past i led (some command) fresh) i
                              node.current_term (last_index node.logs + 1) h.acked j x within found,
                        )
                  ],
                ),
        )

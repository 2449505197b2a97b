-- ===== src/Raft/Complete/Acts.antt =====
-- The steps of a group of nodes that are of no election, but for the installation of a snapshot.
use raft_side.Prelude.{ℕ, ◌≡◌, inl, inr, refl, arith, some, true, false, ◌∷◌}
use raft_side.Raft.Types.{AppendEntriesRequest, leader, is_state, Raft}
use raft_side.Raft.Persist.{RaftCodec}
use raft_side.Raft.Shape.{last_index, last_term}
use raft_side.Raft.Replicate.{entries_request, replicate_one_round}
use raft_side.Raft.Node.{Event, step}
use raft_side.Raft.Cluster.{set_at, is_voting}
use raft_side.Raft.Network.{Network, Allowed, is_install}
use raft_side.Raft.Matching.Inv.{get_elem?-cons_All, send-IsMatched}
use raft_side.Raft.Matching.Act.{event-IsMatched, makes_entry, Allowed-Sound}
use raft_side.Raft.Matching.Sends.{replicate_one_round-RequestLinked}
use raft_side.Raft.Complete.Tree.{On-self}
use raft_side.Raft.Complete.Group.{Still-GroupKeeps, SentOn}
use raft_side.Raft.Complete.Appends.{as_log, end_index}
use raft_side.Raft.Complete.Ends.{replicate_one_round-ends, step-Still, writes}
use raft_side.Raft.Complete.Steps.{IsComplete, GoesOn, cast_past}

module _ {Cmd : Type 0} ⦃codec : RaftCodec Cmd⦄ (size : ℕ) (n : Network Cmd) (h : IsComplete size n)
    (i : ℕ) where
  -- A leader's last entry is of its log at its election, or it made it.
  leader-SentOn :
      (q : AppendEntriesRequest Cmd)
      → is_state (n.cluster.nodes i).state leader ≡ true
      → q.term ≡ (n.cluster.nodes i).current_term
      → last_term (as_log q) ≡ last_term (n.cluster.nodes i).logs
      → end_index q ≡ last_index (n.cluster.nodes i).logs
      → SentOn h.matched.made h.base q
  leader-SentOn q led term last_t last_i =
      let node = n.cluster.nodes i in
      let k = h.keeps.nodes_keep i in
      let (bt, bi, is, on, end, all) = k.led led in
      rw (term, last_t, last_i)
        (
          bt,
          bi,
          is,
          elim end [
            | inr (same_t, same_i) ↦ inl (
                rw (same_t, same_i)
                  (On-self h.matched.made (last_term node.logs) (last_index node.logs)))
            | inl own ↦ elim k.entry.0 [
              | inl (zero_t, zero_i) ↦
                  absurd (omega (arith, h.keeps.history.base_term node.current_term bt bi is))
              | inr (x, at) ↦ inr (own, x, rw own at at)
            ]
          ],
        )

  pub send-IsComplete :
      (peer : ℕ) (q : AppendEntriesRequest Cmd)
      → replicate_one_round (n.cluster.nodes i) peer ≡ some (some (entries_request q))
      → (h' : IsComplete size (record n { sent = q ∷ n.sent })) × GoesOn size h h'
  send-IsComplete peer q sends =
      let node = n.cluster.nodes i in
      let (led, term, last_t, last_i) =
        replicate_one_round-ends node peer sends (h.matched.shaped i) in
      let new = leader-SentOn q led term last_t last_i in
      let (m, made, cast) = send-IsMatched size n h.matched q (
        replicate_one_round-RequestLinked h.matched.made node peer sends (h.matched.shaped i)
          (h.matched.linked i)) in
      let k = h.keeps in
      (
        record {
          matched = m;
          base = h.base;
          acked = h.acked;
          keeps =
              rw (made, cast)
                (record {
                  history = k.history;
                  nodes_keep = k.nodes_keep;
                  winner = k.winner;
                  asked = k.asked;
                  polled = k.polled;
                  cast_term = k.cast_term;
                  sent_on =
                      get_elem?-cons_All (SentOn h.matched.made h.base) n.sent q new k.sent_on;
                });
        },
        (λ u bt bi is. is, λ p t j is. is, λ t j x at. rw made at),
      )

  abbrev pub moved : Raft Cmd → Network Cmd
  moved rf = record n { cluster = record n.cluster { nodes = set_at n.cluster.nodes i rf } }

  -- An event that keeps the last entry.
  pub still-IsComplete :
      (event : Event Cmd) (rf : Raft Cmd)
      → is_voting event ≡ false
      → is_install event ≡ false
      → writes (n.cluster.nodes i) event ≡ false
      → makes_entry (n.cluster.nodes i) event ≡ false
      → Allowed n.sent (n.cluster.nodes i) event
      → step (n.cluster.nodes i) event ≡ some rf
      → (h' : IsComplete size (moved rf)) × GoesOn size h h'
  still-IsComplete event rf not_vote no_install no_write none_made allowed done =
      let node = n.cluster.nodes i in
      let still =
        step-Still node event done not_vote no_install no_write (h.matched.fair.voting.disk i)
          (h.matched.shaped i) in
      let (m, made, cast) =
        event-IsMatched size n h.matched i event rf not_vote done
          (Allowed-Sound size n h.matched i event none_made allowed) in
      (
        record {
          matched = m;
          base = h.base;
          acked = h.acked;
          keeps = rw made (
              Still-GroupKeeps h.keeps m.fair.cast _ i rf refl (cast_past size h.matched.fair)
                cast.0 (λ p t v voted. inl (cast.1 p t v voted)) still
                (λ id e at. (id, e, at, refl)));
        },
        (λ u bt bi is. is, λ p t j is. is, λ t j x at. rw made at),
      )

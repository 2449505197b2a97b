-- ===== src/Raft/Complete/Stores.antt =====
-- The steps of a group of nodes that write a log: a follower takes in a request for entries, and a
-- leader takes a command.
use raft_side.Prelude.{
  ℕ, ◌≤◌, ◌≡◌, ◌⊎◌, inl, inr, refl, ap, arith, Option, some, true, Bool-cases, leb, bind_first-some,
}
use raft_side.Raft.Types.{AppendEntriesRequest, follower, Raft}
use raft_side.Raft.Persist.{RaftCodec}
use raft_side.Raft.Shape.{last_term}
use raft_side.Raft.Append.{append_entries}
use raft_side.Raft.Node.{Event, append_request, step}
use raft_side.Raft.Cluster.{set_at}
use raft_side.Raft.Cluster.Inv.{Cast}
use raft_side.Raft.Network.{Network, Allowed, stores}
use raft_side.Raft.Matching.{Made, RequestLinked}
use raft_side.Raft.Matching.Act.{SameCast, event-IsMatched}
use raft_side.Raft.Complete.Tree.{On-le}
use raft_side.Raft.Complete.History.{Base, Acked, made-between}
use raft_side.Raft.Complete.Grows.{Grown, IsHistory-Grown}
use raft_side.Raft.Complete.Group.{GroupKeeps, SentOn, Still-GroupKeeps}
use raft_side.Raft.Complete.Settles.{Settles-Still}
use raft_side.Raft.Complete.Moves.{note, note-cases, note-new, note-other, moves-GroupKeeps}
use raft_side.Raft.Complete.Appends.{as_log, end_index}
use raft_side.Raft.Complete.Serves.{serve-NodeKeeps}
use raft_side.Raft.Complete.Outcome.{TakesIn, append_entries-outcome}
use raft_side.Raft.Complete.Steps.{IsComplete, GoesOn, cast_past}

-- The leader of the term had the entry at its election, or made it and the node acknowledged it.
abbrev pub HasStored : {Cmd : Type 0} → Made Cmd → Base → Acked → (p t j : ℕ) → Type 0
HasStored {Cmd} made base acked p t j =
    (bt : ℕ) × (bi : ℕ) × (base t ≡ some (bt, bi))
    × ((j ≤ bi) ⊎ (x : ℕ × Option Cmd) × (made t j ≡ some x) × (acked p t j ≡ true))

module _ {Cmd : Type 0} ⦃codec : RaftCodec Cmd⦄ (size : ℕ) (n : Network Cmd) (h : IsComplete size n)
    (i : ℕ) where
  -- The history goes on, and has what the step stored.
  abbrev pub ActsOn : Event Cmd → Raft Cmd → Type 0
  ActsOn event rf =
      (h' : IsComplete size
        (record n { cluster = record n.cluster { nodes = set_at n.cluster.nodes i rf } }))
      × GoesOn size h h'
      × ((t j : ℕ)
          → stores (n.cluster.nodes i) event t j ≡ true
          → HasStored h'.matched.made h'.base h'.acked i t j)

  -- A request's entries are of its leader.
  SentOn-made :
      (q : AppendEntriesRequest Cmd) (j : ℕ)
      → SentOn h.matched.made h.base q
      → j ≤ end_index q
      → (bt : ℕ) × (bi : ℕ) × (h.base q.term ≡ some (bt, bi))
        × ((j ≤ bi) ⊎ (x : ℕ × Option Cmd) × (h.matched.made q.term j ≡ some x))
  SentOn-made q j (bt, bi, is, on) low = (
    bt,
    bi,
    is,
    elim (Bool-cases (leb j bi)) [
      | inl old ↦ inl (ground arith)
      | inr new ↦ elim on [
        | inl below ↦
            let short = On-le h.matched.made (last_term (as_log q)) (end_index q) bt bi below in
            absurd (ground arith)
        | inr (own, x, found) ↦ inr (
            made-between size h.matched.made h.base h.acked h.matched.fair.cast h.keeps.history
              q.term bt bi j (end_index q) x is found (ground arith) low)
      ]
    ],
  )

  -- A follower that takes in the entries of a request.
  takes-GroupKeeps :
      (q : AppendEntriesRequest Cmd) (rf : Raft Cmd) (cast' : Cast)
      → SentOn h.matched.made h.base q
      → RequestLinked h.matched.made q
      → TakesIn q (n.cluster.nodes i) rf
      → (n.cluster.nodes i).current_term ≤ q.term
      → rf.current_term ≡ q.term
      → rf.state ≡ follower
      → SameCast h.matched.fair.cast cast'
      → GroupKeeps size h.matched.made cast' h.base
          (note h.matched.made i q.term (end_index q) h.acked)
          (record n.cluster { nodes = set_at n.cluster.nodes i rf })
          n.sent
  takes-GroupKeeps q rf cast' sent request (low, matched, merged) old term state same_cast =
      let made = h.matched.made in
      let node = n.cluster.nodes i in
      let acked' = note made i q.term (end_index q) h.acked in
      let past = cast_past size h.matched.fair in
      let g : Grown made made h.base h.base h.acked acked' h.matched.fair.cast cast'
          (λ p. (n.cluster.nodes p).current_term) =
        record {
          made_grows = λ t j x at. at;
          base_grows = λ u bt bi is. is;
          cast_grows = same_cast.0;
          acked_grows = λ p t j is. elim (note-cases made i q.term (end_index q) h.acked p t j is) [
            | inl was ↦ inl was
            | inr (self, of_term, within, x, at) ↦
                inr (omega (arith, old, of_term, ap (λ m. (n.cluster.nodes m).current_term) self))
          ];
        } in
      let history = h.keeps.history in
      moves-GroupKeeps h.keeps i rf past g same_cast.1
        (IsHistory-Grown g size history past (λ u j v x at. inl at) history.no_zero
          (λ u bt bi is. inl is)
          (λ p t j noted. elim (note-cases made i q.term (end_index q) h.acked p t j noted) [
            | inl was ↦ history.acked_made p t j was
            | inr (self, of_term, within, x, at) ↦ (x, at)
          ]))
        (serve-NodeKeeps history q sent i node rf (h.keeps.nodes_keep i) (h.matched.shaped i)
          (h.matched.linked i) request low matched merged old term state)
        (omega (arith, term)) (rw state refl)
        (λ j other t l. note-other made i q.term (end_index q) h.acked j t l other)
        (λ j l x other leads at. at)

  pub serve-IsComplete :
      (q : AppendEntriesRequest Cmd) (rf : Raft Cmd)
      → Allowed n.sent (n.cluster.nodes i) (append_request q)
      → step (n.cluster.nodes i) (append_request q) ≡ some rf
      → ActsOn (append_request q) rf
  unfolding step
  serve-IsComplete q rf (k, at) done =
      let node = n.cluster.nodes i in
      let sent = h.keeps.sent_on k q at in
      let (m, made, cast) =
        event-IsMatched size n h.matched i (append_request q) rf refl done
          (h.matched.requests k q at) in
      let (r, e) = bind_first-some (append_entries node q) done in
      elim (append_entries-outcome node q e (h.matched.shaped i)) [
        | inl (settles, refused) ↦ (
          record {
            matched = m;
            base = h.base;
            acked = h.acked;
            keeps = rw made (
                Still-GroupKeeps h.keeps m.fair.cast _ i rf refl (cast_past size h.matched.fair)
                  cast.0 (λ p t v voted. inl (cast.1 p t v voted)) (Settles-Still node rf settles)
                  (λ id e at. (id, e, at, refl)));
          },
          (λ u bt bi is. is, λ p t j is. is, λ t j x at. rw made at),
          λ t j stored. absurd (ground arith),
        )
        | inr (success, takes, old, term, state) ↦ (
          record {
            matched = m;
            base = h.base;
            acked = note h.matched.made i q.term (end_index q) h.acked;
            keeps = rw made (
                takes-GroupKeeps q rf m.fair.cast sent (h.matched.requests k q at) takes old term
                  state cast);
          },
          (λ u bt bi is. is, λ p t j is. ground arith, λ t j x at. rw made at),
          λ t j stored.
              let of_term : q.term ≡ t = ground arith in
              let within : j ≤ end_index q = ground arith in
              let (bt, bi, is, held) = SentOn-made q j sent within in
              rw (made, ← of_term)
                (
                  bt,
                  bi,
                  is,
                  elim held [
                    | inl below ↦ inl below
                    | inr (x, found) ↦ inr (
                      x,
                      found,
                      note-new h.matched.made i q.term (end_index q) h.acked j x within found,
                    )
                  ],
                ),
        )
      ]

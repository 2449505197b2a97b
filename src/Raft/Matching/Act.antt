-- ===== src/Raft/Matching/Act.antt =====
-- Every other event of a node keeps logs and requests parts of one tree of chains; a leader's new
-- command adds an entry to the tree.
use raft_side.Prelude.{
  bind_first-some, ℕ, ◌+◌, ◌≤◌, ◌≡◌, ◌⊎◌, inl, inr, refl, arith, true, false, Bool, ◌&&◌,
  Bool-cases, Option, none, some, ◌==◌, if◌then◌else◌, Option-cases,
}
use raft_side.Raft.Types.{leader, is_state, Raft}
use raft_side.Raft.Persist.{RaftCodec}
use raft_side.Raft.Shape.{last_term, get_last_log-last_term, last_index, get_last_log-index}
use raft_side.Raft.Node.{Event, append_request, client_command, client_install, step}
use raft_side.Raft.Cluster.{react, set_at, is_voting}
use raft_side.Raft.Cluster.Inv.{Cast, Leads, HasVoted, Grows}
use raft_side.Raft.Cluster.Safety.{Step-IsFair, majority-one}
use raft_side.Raft.Network.{Network, Allowed}
use raft_side.Raft.Matching.{Made, MadeGrows}
use raft_side.Raft.Matching.Chain.{LogLinked-MadeGrows}
use raft_side.Raft.Server.{start}
use raft_side.Raft.Matching.Calls.{start-longer}
use raft_side.Raft.Matching.Makers.{HasMaker, HasMaker-set_at, Past-leader}
use raft_side.Raft.Matching.Events.{Sound, step-Chained}
use raft_side.Raft.Matching.Inv.{IsMatched, moved-IsMatched}

-- An entry is made.
abbrev pub make_entry : {Cmd : Type 0} → (t j : ℕ) → ℕ × Option Cmd → Made Cmd → Made Cmd
make_entry t j x made u k = if t == u && j == k then some x else made u k

make_entry_self :
    {Cmd : Type 0} (t j : ℕ) (x : ℕ × Option Cmd) (made : Made Cmd)
    → make_entry t j x made t j ≡ some x
make_entry_self t j x made = ground arith

make_entry-MadeGrows :
    {Cmd : Type 0} (t j : ℕ) (x : ℕ × Option Cmd) (made : Made Cmd)
    → made t j ≡ none
    → MadeGrows made (make_entry t j x made)
make_entry-MadeGrows t j x made new u k y at = ground arith

pub make_entry-cases :
    {Cmd : Type 0} (t j : ℕ) (x : ℕ × Option Cmd) (made : Made Cmd) (u k : ℕ) (y : ℕ × Option Cmd)
    → make_entry t j x made u k ≡ some y
    → (made u k ≡ some y) ⊎ (t ≡ u) × (j ≡ k) × (x ≡ y)
make_entry-cases t j x made u k y at = ground arith

-- A leader has made its entries.
Leads-HasMaker :
    {Cmd : Type 0} ⦃codec : RaftCodec Cmd⦄ (size : ℕ) (nodes : ℕ → Raft Cmd) (cast : Cast) (i j : ℕ)
    (rf : Raft Cmd)
    → HasVoted size (set_at nodes i rf) cast
    → is_state rf.state leader ≡ true
    → j ≤ last_index rf.logs
    → HasMaker size cast (set_at nodes i rf) rf.current_term j
Leads-HasMaker size nodes cast i j rf voting led low =
    let self : set_at nodes i rf i ≡ rf = ground arith in
    let votes : Leads size cast i rf = rw self at (voting.led i) in
    (i, votes led, rw self (inr (refl, inr (led, low))))

-- A leader's new command makes an entry.
abbrev pub makes_entry : {Cmd : Type 0} → Raft Cmd → Event Cmd → Bool
makes_entry rf (client_command command) = is_state rf.state leader
makes_entry rf _ = false

pub makes_entry-cases :
    {Cmd : Type 0} (rf : Raft Cmd) (event : Event Cmd)
    → (makes_entry rf event ≡ false)
      ⊎ (command : Cmd) × (event ≡ client_command command) × (is_state rf.state leader ≡ true)
makes_entry-cases rf (client_command command) = elim (Bool-cases (is_state rf.state leader)) [
  | inl led ↦ inr (command, refl, led)
  | inr other ↦ inl other
]
makes_entry-cases rf _ = inl refl

-- The same votes.
abbrev pub SameCast : Cast → Cast → Type 0
SameCast cast cast' = Grows cast cast' × ((p t v : ℕ) → cast' p t ≡ some v → cast p t ≡ some v)

module _ {Cmd : Type 0} ⦃codec : RaftCodec Cmd⦄ (size : ℕ) (n : Network Cmd) (h : IsMatched size n)
    (i : ℕ) where
  -- The leader has made no entry after its last.
  pub fresh_entry :
      is_state (n.cluster.nodes i).state leader ≡ true
      → h.made (n.cluster.nodes i).current_term (last_index (n.cluster.nodes i).logs + 1) ≡ none
  fresh_entry led =
      let node = n.cluster.nodes i in
      elim (Option-cases (h.made node.current_term (last_index node.logs + 1))) [
        | inl new ↦ new
        | inr (x, at) ↦
            let (m, voted, past) = h.makers node.current_term (last_index node.logs + 1) x at in
            let one : m ≡ i =
              majority-one size h.fair.cast m i node.current_term voted (h.fair.voting.led i led) in
            absurd (omega (arith, Past-leader (last_index node.logs + 1) node led (rw one at past)))
      ]

  -- An event that makes no entry brings in what was made.
  pub Allowed-Sound :
      (event : Event Cmd)
      → makes_entry (n.cluster.nodes i) event ≡ false
      → Allowed n.sent (n.cluster.nodes i) event
      → Sound h.made (n.cluster.nodes i) event
  Allowed-Sound (append_request request) none_made (k, at) = h.requests k request at
  Allowed-Sound (client_command command) none_made a = λ led. absurd (ground arith)
  Allowed-Sound (client_install term index snapshot) none_made a = a
  Allowed-Sound _ none_made a = tt

  -- An event that makes no entry.
  pub event-IsMatched :
      (event : Event Cmd) (rf : Raft Cmd)
      → is_voting event ≡ false
      → step (n.cluster.nodes i) event ≡ some rf
      → Sound h.made (n.cluster.nodes i) event
      → (h' : IsMatched size
          (record n { cluster = record n.cluster { nodes = set_at n.cluster.nodes i rf } }))
        × (h'.made ≡ h.made)
        × SameCast h.fair.cast h'.fair.cast
  event-IsMatched event rf not_vote done sound =
      let node = n.cluster.nodes i in
      let (shape, chain, calm) =
        step-Chained h.made node (h.shaped i) (h.linked i) event done (h.fair.voting.disk i)
          sound in
      let (fair, (grows, cast_by)) = Step-IsFair size (react i event rf not_vote done) h.fair in
      let (h', made, cast) =
        moved-IsMatched size n h _ fair i rf h.made refl (λ t j x at. at) (shape, chain, calm)
          (λ t j x at.
            HasMaker-set_at size h.fair.cast fair.cast n.cluster.nodes i t j rf grows calm
              (h.makers t j x at)) in
      (
        h',
        made,
        rw cast
            (grows, λ p t v at. elim (cast_by p t v at) [ inl old ↦ old | inr new ↦ absurd new ]),
      )

  pub start_of :
      (command : Cmd) {rf : Raft Cmd}
      → step (n.cluster.nodes i) (client_command command) ≡ some rf
      → (r : Option (ℕ × ℕ)) × (start (n.cluster.nodes i) command ≡ some (rf, r))
  unfolding step
  start_of command done = bind_first-some (start (n.cluster.nodes i) command) done

  -- A leader makes an entry.
  pub command-IsMatched :
      (command : Cmd) (rf : Raft Cmd)
      → is_state (n.cluster.nodes i).state leader ≡ true
      → step (n.cluster.nodes i) (client_command command) ≡ some rf
      → (h' : IsMatched size
          (record n { cluster = record n.cluster { nodes = set_at n.cluster.nodes i rf } }))
        × (h'.made
            ≡ make_entry
                (n.cluster.nodes i).current_term
                (last_index (n.cluster.nodes i).logs + 1)
                (last_term (n.cluster.nodes i).logs, some command)
                h.made)
        × SameCast h.fair.cast h'.fair.cast
  command-IsMatched command rf led done =
      let node = n.cluster.nodes i in
      let t = node.current_term in
      let j = last_index node.logs + 1 in
      let (last, is_last, at_last) = get_last_log-index node.logs (h.shaped i) in
      let made = make_entry t j (last_term node.logs, some command) h.made in
      let fresh = fresh_entry led in
      let grows =
        make_entry-MadeGrows t j (last_term node.logs, some command) h.made (fresh_entry led) in
      let sound : Sound made node (client_command command) = λ l e is_e.
        let one : e ≡ last = grind arith in
        rw (one, at_last, ← get_last_log-last_term node.logs last is_last)
          (make_entry_self t j (last_term node.logs, some command) h.made) in
      let (shape, chain, calm) =
        step-Chained made node (h.shaped i)
          (LogLinked-MadeGrows h.made made node.logs grows (h.linked i)) (client_command command)
          done (h.fair.voting.disk i) sound in
      let (fair, (votes, cast_by)) =
        Step-IsFair size (react i (client_command command) rf refl done) h.fair in
      let (r, started) = start_of command done in
      let (still, term, longer) = start-longer node command started (h.shaped i) led in
      let (h', is_made, cast) =
        moved-IsMatched size n h _ fair i rf made refl grows (shape, chain, calm)
          (λ u k x at.
            elim (make_entry-cases t j (last_term node.logs, some command) h.made u k x at) [
              | inl before ↦
                  HasMaker-set_at size h.fair.cast fair.cast n.cluster.nodes i u k rf votes calm
                    (h.makers u k x before)
              | inr (this, place, same) ↦
                  rw (← this, ← place, ← term)
                    (Leads-HasMaker size n.cluster.nodes fair.cast i j rf fair.voting still
                      (omega arith))
            ]) in
      (
        h',
        is_made,
        rw cast
            (votes, λ p u v at. elim (cast_by p u v at) [ inl old ↦ old | inr new ↦ absurd new ]),
      )

  pub act-IsMatched :
      (event : Event Cmd) (rf : Raft Cmd)
      → is_voting event ≡ false
      → Allowed n.sent (n.cluster.nodes i) event
      → step (n.cluster.nodes i) event ≡ some rf
      → IsMatched size
          (record n { cluster = record n.cluster { nodes = set_at n.cluster.nodes i rf } })
  act-IsMatched event rf not_vote allowed done =
      elim (makes_entry-cases (n.cluster.nodes i) event) [
        | inl none_made ↦
            (event-IsMatched event rf not_vote done (Allowed-Sound event none_made allowed)).0
        | inr (command, this, led) ↦ (command-IsMatched command rf led (rw this at done)).0
      ]

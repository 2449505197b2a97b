-- ===== src/Raft/Complete/Runs.antt =====
-- What the runs of a group of nodes keep, with what the nodes stored.
use raft_side.Prelude.{suc, ℕ, ◌≡◌, inl, inr, refl, arith, some, none, true, false, Bool-cases, suc}
use raft_side.Raft.Types.{leader, is_state, Raft}
use raft_side.Raft.Persist.{RaftCodec}
use raft_side.Raft.Node.{Event, append_request, client_command, step}
use raft_side.Raft.Cluster.{is_voting}
use raft_side.Raft.Network.{
  Network, elect, send, act, NetworkReach, here, next, IsNew, Allowed, is_install, installs, stores,
  has_stored,
}
use raft_side.Raft.Matching.Safety.{IsNew-IsMatched}
use raft_side.Raft.Complete.Steps.{IsComplete, GoesOn, elect-IsComplete}
use raft_side.Raft.Complete.Acts.{moved, send-IsComplete, still-IsComplete}
use raft_side.Raft.Complete.Stores.{HasStored, ActsOn, serve-IsComplete}
use raft_side.Raft.Complete.Makes.{command-IsComplete}

module _ {Cmd : Type 0} ⦃codec : RaftCodec Cmd⦄ (size : ℕ) where
  IsNew-IsComplete : (n : Network Cmd) → IsNew size n → IsComplete size n
  IsNew-IsComplete n new =
      let (m, uncast, unmade) = IsNew-IsMatched size n new in
      record {
        matched = m;
        base = λ u. none;
        acked = λ p t j. false;
        keeps = record {
          history = record {
            chain = λ u k v c at. absurd (ground (arith, unmade u (suc k)));
            no_zero = λ u. unmade u 0;
            base_term = λ u bt bi is. absurd (ground arith);
            base_entry = λ u bt bi is. absurd (ground arith);
            elected = λ u bt bi is. absurd (ground arith);
            acked_made = λ p t j is. absurd (ground arith);
          };
          nodes_keep = λ i. record {
            kept = λ t j is. absurd (ground arith);
            entry = rw (new.logs i) (inl (refl, refl), omega arith);
            led = λ l. absurd (ground (arith, new.start.no_leader i));
          };
          winner = λ u bt bi is. absurd (ground arith);
          asked = λ id e at. absurd (ground (arith, new.start.no_election id));
          polled = λ v stands open_ p voted.
              absurd (ground (arith, uncast p (n.cluster.nodes v).current_term));
          cast_term = λ p t v voted. absurd (ground (arith, uncast p t));
          sent_on = λ k q at. absurd (ground (arith, new.nothing_sent));
        };
      }

  HasStored-GoesOn :
      {n m : Network Cmd} (a : IsComplete size n) (b : IsComplete size m) (p t j : ℕ)
      → GoesOn size a b
      → HasStored a.matched.made a.base a.acked p t j
      → HasStored b.matched.made b.base b.acked p t j
  HasStored-GoesOn a b p t j (bases, acks, makes) (bt, bi, is, held) = (
    bt,
    bi,
    bases t bt bi is,
    elim held [
      | inl old ↦ inl old
      | inr (x, at, acked) ↦ inr (x, makes t j x at, acks p t j acked)
    ],
  )

  still-ActsOn :
      (n : Network Cmd) (h : IsComplete size n) (i : ℕ) (event : Event Cmd) (rf : Raft Cmd)
      → (h' : IsComplete size (moved size n h i rf)) × GoesOn size h h'
      → ((t j : ℕ) → stores (n.cluster.nodes i) event t j ≡ false)
      → ActsOn size n h i event rf
  still-ActsOn n h i event rf (h', on) nothing =
      (h', on, λ t j stored. absurd (ground (arith, nothing t j)))

  act-IsComplete :
      (n : Network Cmd) (h : IsComplete size n) (i : ℕ) (event : Event Cmd) (rf : Raft Cmd)
      → is_voting event ≡ false
      → is_install event ≡ false
      → Allowed n.sent (n.cluster.nodes i) event
      → step (n.cluster.nodes i) event ≡ some rf
      → ActsOn size n h i event rf
  act-IsComplete n h i (append_request q) rf not_vote no_install allowed done =
      serve-IsComplete size n h i q rf allowed done
  act-IsComplete n h i (client_command command) rf not_vote no_install allowed done =
      elim (Bool-cases (is_state (n.cluster.nodes i).state leader)) [
        | inl led ↦ command-IsComplete size n h i command rf led done
        | inr other ↦
            still-ActsOn n h i (client_command command) rf
              (still-IsComplete size n h i (client_command command) rf not_vote no_install other
                other allowed done)
              (λ t j. ground arith)
      ]
  act-IsComplete n h i event rf not_vote no_install allowed done =
      still-ActsOn n h i event rf
        (still-IsComplete size n h i event rf not_vote no_install refl refl allowed done)
        (λ t j. refl)

  -- What the run stored is in the history.
  abbrev pub Complete : (start n : Network Cmd) → NetworkReach size start n → Type 0
  Complete start n r =
      (h : IsComplete size n) × ((p t j : ℕ)
        → has_stored r p t j ≡ true
        → HasStored h.matched.made h.base h.acked p t j)

  pub NetworkReach-Complete :
      {start n : Network Cmd} (r : NetworkReach size start n)
      → IsNew size start
      → installs r ≡ false
      → Complete start n r
  NetworkReach-Complete {start} here new none_installs =
      (IsNew-IsComplete start new, λ p t j stored. absurd (ground arith))
  NetworkReach-Complete (next {m} r (elect d st e)) new none_installs =
      let (h, held) = NetworkReach-Complete r new none_installs in
      let (h', on) = elect-IsComplete size m h d st e in
      (h', λ p t j stored. HasStored-GoesOn h h' p t j on (held p t j stored))
  NetworkReach-Complete (next {m} r (send i peer q sends)) new none_installs =
      let (h, held) = NetworkReach-Complete r new none_installs in
      let (h', on) = send-IsComplete size m h i peer q sends in
      (h', λ p t j stored. HasStored-GoesOn h h' p t j on (held p t j stored))
  NetworkReach-Complete (next {m} r (act i event rf not_vote allowed done)) new none_installs =
      let (h, held) = NetworkReach-Complete r new (ground arith) in
      let (h', on, now) = act-IsComplete m h i event rf not_vote (ground arith) allowed done in
      (
        h',
        λ p t j stored. elim (Bool-cases (has_stored r p t j)) [
          | inl before ↦ HasStored-GoesOn h h' p t j on (held p t j before)
          | inr other ↦ let self : i ≡ p = ground arith in rw (← self) (now t j (ground arith))
        ],
      )

-- ===== src/Raft/Matching/Sends.antt =====
-- What a leader sends is a part of its chain.
use raft_side.Prelude.{
  ℤ, pos, negsuc, pred_ℤ, refl, inl, inr, ◌⊎◌, ℕ, ◌+◌, ◌-◌, ◌≤◌, ◌≡◌, some, arith, Option-cases,
  get_elem?, drop, leb, Bool-cases, suc, inl, inr,
}
use raft_side.Raft.Types.{Entry, AppendEntriesRequest, Raft}
use raft_side.Raft.Shape.{IsLog, Contiguous, Contiguous-drop, first_index, get_first_log-index}
use raft_side.Raft.Replicate.{gen_append_entries_request, entries_request, replicate_one_round}
use raft_side.Raft.Matching.{Made, LogLinked, RequestLinked}
use raft_side.Raft.Matching.Chain.{Linked-drop}

sign : (z : ℤ) → ((n : ℕ) × (z ≡ pos n)) ⊎ ((n : ℕ) × (z ≡ negsuc n))
sign (pos n) = inl (n, refl)
sign (negsuc n) = inr (n, refl)

module _ {Cmd : Type 0} where
  pub gen_append_entries_request-part :
      (rf : Raft Cmd) (prev : ℕ) {q : AppendEntriesRequest Cmd}
      → gen_append_entries_request rf prev ≡ some q
      → IsLog rf.logs
      → (e : Entry Cmd) × (first_index rf.logs ≤ prev)
        × (q.prev_log_index ≡ prev)
        × (get_elem? rf.logs (prev - first_index rf.logs) ≡ some e)
        × (q.prev_log_term ≡ e.term)
        × (q.entries ≡ drop (prev + 1 - first_index rf.logs) rf.logs)
  unfolding gen_append_entries_request
  gen_append_entries_request-part rf prev {q} e l =
      let (first, is_first, at_first) = get_first_log-index rf.logs l in
      elim (Bool-cases (leb (first_index rf.logs) prev)) [
        | inl held ↦ elim (Option-cases (get_elem? rf.logs (prev - first_index rf.logs))) [
          | inl missing ↦ absurd (ground arith)
          | inr (p, found) ↦ (p, ground arith, ground arith, found, ground arith, ground arith)
        ]
        | inr cut ↦ absurd (ground arith)
      ]

  gen_append_entries_request-RequestLinked :
      (made : Made Cmd) (rf : Raft Cmd) (prev : ℕ) {q : AppendEntriesRequest Cmd}
      → gen_append_entries_request rf prev ≡ some q
      → IsLog rf.logs
      → LogLinked made rf.logs
      → RequestLinked made q
  gen_append_entries_request-RequestLinked made rf prev e l linked =
      let (p, low, index, found, term, entries) = gen_append_entries_request-part rf prev e l in
      let n = prev - first_index rf.logs in
      let next : prev + 1 - first_index rf.logs ≡ suc n = omega arith in
      let at : first_index rf.logs + suc n ≡ prev + 1 = omega arith in
      let tail : Contiguous (prev + 1) (drop (suc n) rf.logs) =
        rw at at (Contiguous-drop (first_index rf.logs) (suc n) rf.logs l.contiguous) in
      (
        rw (term, entries, next) (Linked-drop made n rf.logs linked found),
        rw (index, entries, next) tail,
      )

  pub replicate_one_round-entries :
      (rf : Raft Cmd) (peer : ℕ) {q : AppendEntriesRequest Cmd}
      → replicate_one_round rf peer ≡ some (some (entries_request q))
      → (prev : ℕ) × (gen_append_entries_request rf prev ≡ some q)
  unfolding replicate_one_round
  replicate_one_round-entries rf peer {q} e = elim (Option-cases (get_elem? rf.next_index peer)) [
    | inl missing ↦ absurd (ground arith)
    | inr (next, found) ↦ elim (sign (pred_ℤ next)) [
      | inl (prev, is) ↦ elim (Option-cases (gen_append_entries_request rf prev)) [
        | inl failed ↦ absurd (ground arith)
        | inr (r, generated) ↦ (prev, ground arith)
      ]
      | inr (n, is) ↦ absurd (ground arith)
    ]
  ]

  -- A round's request for entries is a part of the leader's chain.
  pub replicate_one_round-RequestLinked :
      (made : Made Cmd) (rf : Raft Cmd) (peer : ℕ) {q : AppendEntriesRequest Cmd}
      → replicate_one_round rf peer ≡ some (some (entries_request q))
      → IsLog rf.logs
      → LogLinked made rf.logs
      → RequestLinked made q
  replicate_one_round-RequestLinked made rf peer {q} e l linked =
      let (prev, generated) = replicate_one_round-entries rf peer e in
      gen_append_entries_request-RequestLinked made rf prev generated l linked

-- ===== src/Raft/Complete/Serves.antt =====
-- A follower that takes in the entries of a request keeps what it acknowledged, or lost it to the
-- leader of the request.
use raft_side.Prelude.{
  ℕ, suc, ◌+◌, ◌-◌, ◌≤◌, ◌<◌, ◌≡◌, ◌⊎◌, inl, inr, arith, Option, none, some, Bool-cases, ◌==◌, true,
  length, leb,
}
use raft_side.Raft.Types.{AppendEntriesRequest, follower, leader, is_state, Raft}
use raft_side.Raft.Shape.{IsLog, first_index, last_index, last_term, term_at}
use raft_side.Raft.Append.{merge_entries}
use raft_side.Raft.Accept.{term_at-some-lt}
use raft_side.Raft.Cluster.Inv.{Cast}
use raft_side.Raft.Matching.{Made, LogLinked, RequestLinked}
use raft_side.Raft.Complete.{On}
use raft_side.Raft.Complete.Tree.{On-le, On-trans, On-between}
use raft_side.Raft.Complete.History.{
  Base, Acked, Lost, IsEntry, IsHistory, made-base, made-On, On-term,
}
use raft_side.Raft.Complete.Last.{term_at-On, merge_entries-ends}
use raft_side.Raft.Complete.Grows.{On-or_Misses}
use raft_side.Raft.Complete.Inv.{NodeKeeps}
use raft_side.Raft.Complete.Group.{SentOn}
use raft_side.Raft.Complete.Moves.{note, note-cases}
use raft_side.Raft.Complete.Appends.{as_log, end_index, IsEntry-On, not-conflict}

module _ {Cmd : Type 0} {size : ℕ} {made : Made Cmd} {base : Base} {acked : Acked} {cast : Cast}
    (h : IsHistory size made base acked cast) (q : AppendEntriesRequest Cmd)
    (sent : SentOn made base q) where
  -- An entry of the leader's term or of an earlier one: it is before the request's last, after it, or
  -- the leader had it not.
  On-SentOn :
      (t j : ℕ) (x : ℕ × Option Cmd)
      → made t j ≡ some x
      → t ≤ q.term
      → On made t j (last_term (as_log q)) (end_index q)
        ⊎ On made (last_term (as_log q)) (end_index q) t j
        ⊎ Lost made base t j (suc q.term)
  On-SentOn t j x at low =
      let end = last_term (as_log q) in
      let place = end_index q in
      let (bt, bi, is, on) = sent in
      elim (Bool-cases (t == q.term)) [
        | inl same ↦
            let e : t ≡ q.term = ground arith in
            let here : made q.term j ≡ some x = rw e at at in
            elim on [
              | inl old ↦
                  let (ct, ci, is', above_base, down) =
                    made-base size made base acked cast h q.term j x here in
                  let one_t : ct ≡ bt = ground arith in
                  let one_i : ci ≡ bi = ground arith in
                  inr (
                    inl (
                      rw e
                        (On-trans made end place bt bi q.term j (rw (one_t, one_i) at down) old)))
              | inr (own, y, found) ↦ elim (Bool-cases (leb j place)) [
                | inl before ↦ inl (
                    rw (e, own)
                      (made-On size made base acked cast h q.term j place x y here found
                        (ground arith)))
                | inr after ↦ inr (
                    inl (
                      rw (e, own)
                        (made-On size made base acked cast h q.term place j y x found here
                          (ground arith))))
              ]
            ]
        | inr differ ↦
            let earlier : t < q.term = ground arith in
            elim (On-or_Misses size made base acked cast h t j bt bi
              (h.base_entry q.term bt bi is)) [
                | inr misses ↦ inr (inr (q.term, bt, bi, earlier, omega arith, is, misses))
                | inl has ↦ elim on [
                  | inl old ↦ elim (Bool-cases (leb j place)) [
                    | inl before ↦ inl (On-between made t j end place bt bi old has (ground arith))
                    | inr after ↦
                        inr (inl (On-between made end place t j bt bi has old (ground arith)))
                  ]
                  | inr (own, y, found) ↦
                      let (ct, ci, is', above_base, down) =
                        made-base size made base acked cast h q.term place y found in
                      let one_t : ct ≡ bt = ground arith in
                      let one_i : ci ≡ bi = ground arith in
                      inl (
                        rw own
                          (On-trans made t j bt bi q.term place (rw (one_t, one_i) at down) has))
                ]
              ]
      ]

  -- What the leader's term made up to the request's last entry is before it.
  made-SentOn :
      (j : ℕ) (x : ℕ × Option Cmd)
      → made q.term j ≡ some x
      → j ≤ end_index q
      → On made q.term j (last_term (as_log q)) (end_index q)
  made-SentOn j x at low =
      let (bt, bi, is, on) = sent in
      elim on [
        | inl old ↦
            let (ct, ci, is', above_base, down) =
              made-base size made base acked cast h q.term j x at in
            let short = On-le made (last_term (as_log q)) (end_index q) bt bi old in
            absurd (ground arith)
        | inr (own, y, found) ↦
            rw own (made-On size made base acked cast h q.term j (end_index q) x y at found low)
      ]

  -- The request's last entry.
  SentOn-IsEntry :
      IsEntry made (last_term (as_log q)) (end_index q) × (last_term (as_log q) ≤ q.term)
  SentOn-IsEntry =
      let (bt, bi, is, on) = sent in
      elim on [
        | inl old ↦
            let below = On-term size made base acked cast h _ _ bt bi old in
            (
              IsEntry-On h _ _ bt bi old (h.base_entry q.term bt bi is),
              omega (arith, h.base_term q.term bt bi is),
            )
        | inr (own, y, found) ↦ (inr (y, rw own found), omega arith)
      ]

  module _ (i : ℕ) (rf rf' : Raft Cmd) (k : NodeKeeps made base acked i rf) (l : IsLog rf.logs)
      (linked : LogLinked made rf.logs) (request : RequestLinked made q)
      (low : first_index rf.logs ≤ q.prev_log_index)
      (matched : term_at rf.logs (q.prev_log_index - first_index rf.logs) ≡ some q.prev_log_term)
      (merged : merge_entries rf.logs (first_index rf.logs) q.entries ≡ some rf'.logs)
      (old : rf.current_term ≤ q.term) where
    -- The log after it ends with the request's last entry, or is as it was and has that entry.
    serve_ends :
        ((rf'.logs ≡ rf.logs)
          × On made (last_term (as_log q)) (end_index q) (last_term rf.logs) (last_index rf.logs))
        ⊎ (last_term rf'.logs ≡ last_term (as_log q))
          × (last_index rf'.logs ≡ end_index q)
          × ((t j : ℕ)
              → On made t j (last_term rf.logs) (last_index rf.logs)
              → On made (last_term (as_log q)) (end_index q) t j
              → ⊥)
    serve_ends =
        let n = q.prev_log_index - first_index rf.logs in
        let next : q.prev_log_index + 1 ≡ first_index rf.logs + suc n = omega arith in
        elim (merge_entries-ends rf.logs (first_index rf.logs)
          (record { index = q.prev_log_index; term = q.prev_log_term; command = none }) q.entries n
          {logs' = rf'.logs} matched (term_at-some-lt rf.logs n matched) (rw next at request.1)
          merged) [
            | inl (same, end) ↦
                let place : first_index rf.logs + (n + length q.entries) ≡ end_index q =
                  omega arith in
                inl (
                  same,
                  rw place at (
                      term_at-On made (n + length q.entries) (first_index rf.logs) _ rf.logs
                        l.contiguous linked end),
                )
            | inr (last, long, first_same, d, s, entry, missing) ↦ inr (
              last,
              omega (arith),
              λ t j. not-conflict h rf l linked q request low d s t j entry missing,
            )
          ]

    serve_On :
        (t j : ℕ)
        → On made t j (last_term (as_log q)) (end_index q)
        → On made t j (last_term rf'.logs) (last_index rf'.logs)
    serve_On t j on = elim serve_ends [
      | inl (same, has) ↦
          rw same (On-trans made t j (last_term (as_log q)) (end_index q) _ _ has on)
      | inr (same_t, same_i, clash) ↦ rw (same_t, same_i) on
    ]

    serve_kept :
        (t j : ℕ)
        → acked i t j ≡ true
        → On made t j (last_term rf'.logs) (last_index rf'.logs) ⊎ Lost made base t j (suc q.term)
    serve_kept t j is =
        let (before, held) = k.kept t j is in
        let (x, at) = h.acked_made i t j is in
        elim held [
          | inr (u, bt, bi, above_t, below, is_u, misses) ↦
              inr (u, bt, bi, above_t, omega arith, is_u, misses)
          | inl on ↦ elim serve_ends [
            | inl (same, has) ↦ inl (rw same on)
            | inr (same_t, same_i, clash) ↦ elim (On-SentOn t j x at (omega arith)) [
              | inl has ↦ inl (rw (same_t, same_i) has)
              | inr (inl after) ↦ absurd (clash t j on after)
              | inr (inr lost) ↦ inr lost
            ]
          ]
        ]

    pub serve-NodeKeeps :
        rf'.current_term ≡ q.term
        → rf'.state ≡ follower
        → NodeKeeps made base (note made i q.term (end_index q) acked) i rf'
    serve-NodeKeeps term state = record {
      kept = λ t j is. rw term (elim (note-cases made i q.term (end_index q) acked i t j is) [
        | inl was ↦ (omega (arith, (k.kept t j was).0), serve_kept t j was)
        | inr (self, of_term, within, x, at) ↦
            let here : made q.term j ≡ some x = rw of_term at in
            (omega arith, inl (rw (← of_term) (serve_On q.term j (made-SentOn j x here within))))
      ]);
      entry = elim serve_ends [
        | inl (same, has) ↦ rw (same, term) (k.entry.0, omega (arith, k.entry.1))
        | inr (same_t, same_i, clash) ↦ rw (same_t, same_i, term) SentOn-IsEntry
      ];
      led = λ led.
          let no : is_state follower leader ≡ true = rw state at led in absurd (ground arith);
    }

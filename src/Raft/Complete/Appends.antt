-- ===== src/Raft/Complete/Appends.antt =====
-- A follower that takes in the entries of a request.
use raft_side.Prelude.{
  ℕ, zero, suc, ◌+◌, ◌-◌, ◌≤◌, ◌≡◌, inl, inr, refl, arith, none, some, Bool-cases, ◌==◌, false,
  List, ◌∷◌, length, get_elem?-lt,
}
use raft_side.Raft.Types.{Entry, AppendEntriesRequest, Raft}
use raft_side.Raft.Shape.{
  IsLog, first_index, last_index, last_term, term_at, holds_term, get_elem?-term_at,
}
use raft_side.Raft.Cluster.Inv.{Cast}
use raft_side.Raft.Matching.{Made, LogLinked, RequestLinked}
use raft_side.Raft.Complete.{above, On}
use raft_side.Raft.Complete.Tree.{On-le, On-trans}
use raft_side.Raft.Complete.History.{Base, Acked, IsEntry, IsHistory}
use raft_side.Raft.Complete.Last.{term_at-On}

module _ {Cmd : Type 0} where
  -- The part of a log that a request stands for.
  abbrev pub as_log : AppendEntriesRequest Cmd → List (Entry Cmd)
  as_log q = record { index = q.prev_log_index; term = q.prev_log_term; command = none } ∷ q.entries

  abbrev pub end_index : AppendEntriesRequest Cmd → ℕ
  end_index q = q.prev_log_index + length q.entries

  -- An entry on the way down from the last is the log's at its index.
  pub On-term_at :
      (made : Made Cmd) (logs : List (Entry Cmd)) (t i : ℕ)
      → IsLog logs
      → LogLinked made logs
      → On made t (first_index logs + i) (last_term logs) (last_index logs)
      → term_at logs i ≡ some t
  On-term_at made logs t i l linked on =
      let low = On-le made t (first_index logs + i) (last_term logs) (last_index logs) on in
      let pos = l.nonempty in
      let (e, found) = get_elem?-lt logs i (omega arith) in
      let at = get_elem?-term_at logs i e found in
      let same = term_at-On made i (first_index logs) e.term logs l.contiguous linked at in
      ground arith

  -- An entry of a way down of an entry that was made was made too, or is the first.
  pub IsEntry-On :
      {size : ℕ} {made : Made Cmd} {base : Base} {acked : Acked} {cast : Cast}
      (h : IsHistory size made base acked cast) (t i u k : ℕ)
      → On made t i u k
      → IsEntry made u k
      → IsEntry made t i
  unfolding above
  IsEntry-On h t i u zero on e =
      let same : t ≡ u = ground arith in let z : i ≡ 0 = ground arith in rw (same, z) e
  IsEntry-On {made} h t i u (suc k) on (inl root) = absurd (omega arith)
  IsEntry-On {made} h t i u (suc k) on (inr ((v, c), at)) = elim (Bool-cases (i == suc k)) [
    | inl top ↦
        let same : t ≡ u = ground arith in
        let place : i ≡ suc k = ground arith in rw (same, place) (inr ((v, c), at))
    | inr lower ↦
        let down : On made t i v k = ground arith in
        elim (h.chain u k v c at) [
          | inl first ↦ IsEntry-On h t i v k down (h.base_entry u v k first)
          | inr (same, x, before) ↦ IsEntry-On h t i v k down (inr (x, rw same before))
        ]
  ]

  module _ {size : ℕ} {made : Made Cmd} {base : Base} {acked : Acked} {cast : Cast}
      (h : IsHistory size made base acked cast) (rf : Raft Cmd) (l : IsLog rf.logs)
      (linked : LogLinked made rf.logs) (q : AppendEntriesRequest Cmd)
      (request : RequestLinked made q) (low : first_index rf.logs ≤ q.prev_log_index) where
    -- Where an entry of the request is not the log's, an entry of the log does not follow on from
    -- the request's last.
    pub not-conflict :
        (d s t j : ℕ)
        → term_at (as_log q) (suc d) ≡ some s
        → holds_term rf.logs (q.prev_log_index - first_index rf.logs + suc d) s ≡ false
        → On made t j (last_term rf.logs) (last_index rf.logs)
        → On made (last_term (as_log q)) (end_index q) t j
        → ⊥
    not-conflict d s t j entry missing on after =
        let n = q.prev_log_index - first_index rf.logs in
        let (chain, indices) = request in
        let next : q.prev_log_index + 1 ≡ suc q.prev_log_index = omega arith in
        let here =
          term_at-On made (suc d) q.prev_log_index s (as_log q) (refl, rw next at indices) chain
            entry in
        let end : q.prev_log_index + suc (length q.entries) - 1 ≡ end_index q = omega arith in
        let place : q.prev_log_index + suc d ≡ first_index rf.logs + (n + suc d) = omega arith in
        let down =
          On-trans made s (q.prev_log_index + suc d) t j (last_term rf.logs) (last_index rf.logs) on
            (On-trans made s (q.prev_log_index + suc d) _ _ t j after (rw end at here)) in
        let found = On-term_at made rf.logs s (n + suc d) l linked (rw place at down) in
        ground arith

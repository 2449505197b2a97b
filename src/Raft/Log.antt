-- ===== src/Raft/Log.antt =====
-- raft/raft_util.go and raft/raft_state.go: access to the log, and changes of the node's state.
use raft_side.Prelude.{
  ℕ, ◌+◌, ◌-◌, Bool, true, false, ◌&&◌, ◌||◌, Option, some, List, ◌>>=◌, pos, length, get_elem?,
  replicate, ltb, leb, ◌==◌, if◌then◌else◌, sub?,
}
use raft_side.Raft.Types.{Entry, NodeState, follower, candidate, leader, is_state, Raft}

module _ {Cmd : Type 0} where
  -- On an empty log both index out of range.
  unfoldable pub get_last_log : List (Entry Cmd) → Option (Entry Cmd)
  get_last_log logs = get_elem? logs (length logs - 1)

  unfoldable pub get_first_log : List (Entry Cmd) → Option (Entry Cmd)
  get_first_log logs = get_elem? logs 0

  unfoldable pub is_log_up_to_date : List (Entry Cmd) → (term index : ℕ) → Option Bool
  is_log_up_to_date logs term index = do
    last_log ← get_last_log logs
    some (ltb last_log.term term || (term == last_log.term && leb last_log.index index))

  -- `logs[index - first].Term == term`
  unfoldable pub has_term_at : List (Entry Cmd) → (first index term : ℕ) → Option Bool
  has_term_at logs first index term = do
    offset ← sub? index first
    entry ← get_elem? logs offset
    some (entry.term == term)

  unfoldable pub match_log : List (Entry Cmd) → (term index : ℕ) → Option Bool
  match_log logs term index = do
    last_log ← get_last_log logs
    first_log ← get_first_log logs
    if leb index last_log.index then has_term_at logs first_log.index index term else some false

  unfoldable pub has_log_in_current_term : Raft Cmd → Option Bool
  has_log_in_current_term rf = do
    last_log ← get_last_log rf.logs
    some (last_log.term == rf.current_term)

  -- The loop of `ChangeState` sets all `len(peers)` elements of both slices.
  enter_state : NodeState → Raft Cmd → Option (Raft Cmd)
  enter_state follower rf =
      some (record rf { state = follower; heartbeat_timer = false; election_timer = true })
  enter_state candidate rf = some (record rf { state = candidate })
  enter_state leader rf = do
    last_log ← get_last_log rf.logs
    some (record rf {
      state = leader;
      match_index = replicate rf.peers 0;
      next_index = replicate rf.peers (pos (last_log.index + 1));
      election_timer = false;
      heartbeat_timer = true;
    })

  unfoldable pub change_state : NodeState → Raft Cmd → Option (Raft Cmd)
  unfolding enter_state
  change_state s rf = if is_state rf.state s then some rf else enter_state s rf

  unfoldable pub get_state : Raft Cmd → ℕ × Bool
  get_state rf = (rf.current_term, is_state rf.state leader)

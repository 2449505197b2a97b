-- ===== src/Raft/Persist.antt =====
-- raft/persister.go and raft/raft_persist.go. The gob encoding is not part of the repository: it
-- is the interface `RaftCodec`.
use raft_side.Prelude.{ℕ, ◌≡◌, ◌≢◌, Option, none, some, List, [], ◌∷◌, length, ◌>>=◌}
use raft_side.Raft.Types.{Entry, Persister, Raft}

unfoldable pub make_persister : Persister
make_persister = record { raftstate = []; snapshot = [] }

-- `make` and `copy`, an element at a time.
unfoldable pub clone : List ℕ → List ℕ
clone [] = []
clone (b ∷ bs) = b ∷ clone bs

unfoldable pub copy : Persister → Persister
unfolding make_persister
copy ps = record make_persister { raftstate = ps.raftstate; snapshot = ps.snapshot }

unfoldable pub save_raft_state : Persister → List ℕ → Persister
save_raft_state ps state = record ps { raftstate = clone state }

unfoldable pub read_raft_state : Persister → List ℕ
read_raft_state ps = clone ps.raftstate

unfoldable pub raft_state_size : Persister → ℕ
raft_state_size ps = length ps.raftstate

unfoldable pub save_state_and_snapshot : Persister → List ℕ → List ℕ → Persister
save_state_and_snapshot ps state snapshot = record ps {
  raftstate = clone state;
  snapshot = clone snapshot;
}

unfoldable pub read_snapshot : Persister → List ℕ
read_snapshot ps = clone ps.snapshot

unfoldable pub snapshot_size : Persister → ℕ
snapshot_size ps = length ps.snapshot

-- What `persist` writes.
pub record Durable (Cmd : Type 0) : Type 0 where
  pub current_term : ℕ
  pub voted_for : Option ℕ
  pub logs : List (Entry Cmd)

-- labgob's encoder and decoder at the three values of `encodeState`: what was encoded is decoded
-- again, and an encoding is not empty.
pub record RaftCodec (Cmd : Type 0) : Type 0 where
  pub encode : Durable Cmd → List ℕ
  pub decode : List ℕ → Option (Durable Cmd)
  pub decode-encode : (d : Durable Cmd) → decode (encode d) ≡ some d
  pub encode-ne_nil : (d : Durable Cmd) → encode d ≢ []

abbrev pub durable : {Cmd : Type 0} → Raft Cmd → Durable Cmd
durable rf = record { current_term = rf.current_term; voted_for = rf.voted_for; logs = rf.logs }

module _ {Cmd : Type 0} ⦃codec : RaftCodec Cmd⦄ where
  unfoldable pub encode_state : Raft Cmd → List ℕ
  encode_state rf = codec.encode (durable rf)

  unfoldable pub persist : Raft Cmd → Raft Cmd
  persist rf = record rf { persister = save_raft_state rf.persister (encode_state rf) }

  -- A failed decoding leaves `logs` nil, and `rf.logs[0]` panics.
  restore : Raft Cmd → Durable Cmd → List (Entry Cmd) → Option (Raft Cmd)
  restore rf d [] = none
  restore rf d (dummy ∷ rest) = some (record rf {
    current_term = d.current_term;
    voted_for = d.voted_for;
    logs = d.logs;
    last_applied = dummy.index;
    commit_index = dummy.index;
  })

  read_decoded : Raft Cmd → List ℕ → Option (Raft Cmd)
  read_decoded rf bytes = do d ← codec.decode bytes; restore rf d d.logs

  unfoldable pub read_persist : Raft Cmd → List ℕ → Option (Raft Cmd)
  unfolding restore read_decoded
  read_persist rf [] = some rf
  read_persist rf (b ∷ bs) = read_decoded rf (b ∷ bs)

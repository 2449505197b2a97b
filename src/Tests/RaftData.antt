-- ===== src/Tests/RaftData.antt =====
-- An encoding for commands that are numbers, and three nodes of a group of three.
use raft_side.Prelude.{
  ℕ, zero, suc, pos, ◌≡◌, ◌≢◌, refl, arith, true, false, Option, some, none, List, [], ◌∷◌, ◌>>=◌,
}
use raft_side.Raft.Types.{Entry, leader, follower, Persister, Raft}
use raft_side.Raft.Persist.{Durable, RaftCodec}
use raft_side.Raft.Shape.{IsLog}

code : Option ℕ → ℕ
code none = 0
code (some n) = suc n

decode_option : ℕ → Option ℕ
decode_option zero = none
decode_option (suc n) = some n

decode_option-code : (o : Option ℕ) → decode_option (code o) ≡ o
unfolding code decode_option
decode_option-code none = refl
decode_option-code (some n) = refl

encode_logs : List (Entry ℕ) → List ℕ
encode_logs [] = []
encode_logs (e ∷ logs) = e.index ∷ e.term ∷ code e.command ∷ encode_logs logs

decode_logs : List ℕ → Option (List (Entry ℕ))
decode_logs [] = some []
decode_logs (i ∷ []) = none
decode_logs (i ∷ t ∷ []) = none
decode_logs (i ∷ t ∷ c ∷ bytes) = do
  logs ← decode_logs bytes
  some (record { index = i; term = t; command = decode_option c } ∷ logs)

decode_logs-encode_logs : (logs : List (Entry ℕ)) → decode_logs (encode_logs logs) ≡ some logs
unfolding decode_logs encode_logs
decode_logs-encode_logs [] = refl
decode_logs-encode_logs (e ∷ logs) =
    ground (arith, decode_logs-encode_logs logs, decode_option-code e.command)

unfoldable pub encode_durable : Durable ℕ → List ℕ
unfolding code encode_logs
encode_durable d = d.current_term ∷ code d.voted_for ∷ encode_logs d.logs

unfoldable pub decode_durable : List ℕ → Option (Durable ℕ)
unfolding decode_option decode_logs
decode_durable [] = none
decode_durable (t ∷ []) = none
decode_durable (t ∷ v ∷ bytes) = do
  logs ← decode_logs bytes
  some (record { current_term = t; voted_for = decode_option v; logs = logs })

pub decode_durable-encode_durable : (d : Durable ℕ) → decode_durable (encode_durable d) ≡ some d
unfolding decode_durable encode_durable
decode_durable-encode_durable d =
    ground (arith, decode_logs-encode_logs d.logs, decode_option-code d.voted_for)

pub encode_durable-ne_nil : (d : Durable ℕ) → encode_durable d ≢ []
unfolding encode_durable
encode_durable-ne_nil d e = ground arith

instance abbrev pub number_codec : RaftCodec ℕ
number_codec = record {
  encode = encode_durable;
  decode = decode_durable;
  decode-encode = decode_durable-encode_durable;
  encode-ne_nil = encode_durable-ne_nil;
}

abbrev pub entry : ℕ → ℕ → ℕ → Entry ℕ
entry i t c = record { index = i; term = t; command = some c }

abbrev pub dummy : Entry ℕ
dummy = record { index = 0; term = 0; command = none }

abbrev pub empty_disk : Persister
empty_disk = record { raftstate = []; snapshot = [] }

-- A new node of a group of three.
abbrev pub new_node : Raft ℕ
new_node = record {
  peers = 3;
  persister = empty_disk;
  me = 0;
  dead = false;
  state = follower;
  current_term = 0;
  voted_for = none;
  logs = dummy ∷ [];
  commit_index = 0;
  last_applied = 0;
  next_index = pos 1 ∷ pos 1 ∷ pos 1 ∷ [];
  match_index = 0 ∷ 0 ∷ 0 ∷ [];
  election_timer = true;
  heartbeat_timer = false;
  tasks = [];
}

-- A follower in term 2 with three entries, the last one from term 2.
abbrev pub behind : Raft ℕ
behind = record new_node {
  current_term = 2;
  commit_index = 1;
  logs = dummy ∷ entry 1 1 10 ∷ entry 2 1 11 ∷ entry 3 2 12 ∷ [];
}

-- The leader of term 2, with two entries of its term.
abbrev pub leading : Raft ℕ
leading = record behind {
  state = leader;
  match_index = 3 ∷ 2 ∷ 0 ∷ [];
  next_index = pos 4 ∷ pos 3 ∷ pos 1 ∷ [];
}

pub behind-IsLog : IsLog behind.logs
behind-IsLog = omega arith

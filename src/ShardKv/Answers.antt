-- ===== src/ShardKv/Answers.antt =====
-- Where the values come from that the call `Command` of shardkv/client.go returns.
use Prim.Native.String.{String}
use raft_side.Prelude.{
  ℕ, suc, ◌≡◌, ◌⊎◌, inl, inr, refl, arith, some, List, [], ◌∷◌, get_elem?, Option-cases,
}
use raft_side.Prelude.Dict.{lookup}
use raft_side.ShardKv.Strings.{Str}
use raft_side.ShardKv.Shard.{key2shard}
use raft_side.ShardKv.Types.{ok, err_no_key, CommandRequest, CommandResponse}
use raft_side.ShardKv.Client.{
  Clerk, latest_config, Round, found, try_servers, known_leader, Turn, ask_group, command_loop,
  command, sign,
}
use raft_side.ShardKv.Tries.{Tried-cases, try_servers-answered}

-- A value that the call returns is one that a server of a group answered to it, at some turn.
Answer : CommandRequest → List Turn → Str → Type 0
Answer request turns value =
    (t j : ℕ) × (turn : Turn) × (round : Round) × (server : String) × (response : CommandResponse)
    × (get_elem? turns t ≡ some turn)
    × (get_elem? turn.tries j ≡ some round)
    × ((round server request).response ≡ some response)
    × ((response.err ≡ ok) ⊎ (response.err ≡ err_no_key))
    × (value ≡ response.value)

Answer-later :
    (request : CommandRequest) (turn : Turn) (turns : List Turn) (value : Str)
    → Answer request turns value
    → Answer request (turn ∷ turns) value
unfolding Answer
Answer-later request turn turns value
      (t, j, u, round, server, response, at, at_j, got, good, same) =
    (suc t, j, u, round, server, response, at, at_j, got, good, same)

ask_group-answered :
    (ck : Clerk) (request : CommandRequest) (turn : Turn) (turns : List Turn) {ck' : Clerk}
    {value : Str}
    → ask_group ck request turn.tries ≡ some (ck', found value)
    → Answer request (turn ∷ turns) value
unfolding ask_group Answer
ask_group-answered ck request turn turns {ck'} {value} e =
    elim (Option-cases (get_elem? ck.config.shards (key2shard request.key))) [
      | inl none_assigned ↦ absurd (ground arith)
      | inr (gid, at) ↦ elim (Option-cases (lookup gid ck.config.groups)) [
        | inl missing ↦ absurd (ground arith)
        | inr (servers, named) ↦
            let old = (known_leader ck gid).1 in
            let tried : try_servers servers old old request turn.tries ≡ some (found value) =
              elim (Option-cases (try_servers servers old old request turn.tries)) [
                | inl panics ↦ absurd (ground arith)
                | inr (out, ran) ↦ ground arith
              ] in
            let (j, i, round, server, response, at_j, at_i, got, good, same) =
              try_servers-answered servers old old request turn.tries value tried in
            (0, j, turn, round, server, response, refl, at_j, got, good, same)
      ]
    ]

command_loop-answered :
    (ck : Clerk) (request : CommandRequest) (turns : List Turn) {ck' : Clerk} {value : Str}
    → command_loop ck request turns ≡ some (ck', some value)
    → Answer request turns value
unfolding command_loop
command_loop-answered ck request [] e = absurd (ground arith)
command_loop-answered ck request (turn ∷ turns) {ck'} {value} e =
    elim (Option-cases (ask_group ck request turn.tries)) [
      | inl panics ↦ absurd (ground arith)
      | inr ((ck1, tried), asked) ↦ elim (Tried-cases tried) [
        | inl (v, t) ↦
            let same : v ≡ value = ground arith in
            rw same at
              (ask_group-answered ck request turn turns {ck' = ck1} {value = v} (rw t at asked))
        | inr (inl t) ↦ absurd (ground arith)
        | inr (inr t) ↦ elim (Option-cases (latest_config ck1.sm turn.queries)) [
          | inl panics ↦ absurd (ground arith)
          | inr ((sm, answer), ran) ↦ elim (Option-cases answer) [
            | inl n ↦ absurd (ground arith)
            | inr (config, c) ↦ Answer-later request turn turns value (
                command_loop-answered (record ck1 { sm = sm; config = config }) request turns
                  {ck' = ck'} {value = value} (ground arith))
          ]
        ]
      ]
    ]

-- A value that a get, a put or an append returns is the one that a server answered, with OK or with
-- no such key, to the request signed with the clerk's id and number: never that of a call that failed
-- or of a server that refused.
pub command-answered :
    (ck : Clerk) (request : CommandRequest) (turns : List Turn) (ck' : Clerk) (value : Str)
    → command ck request turns ≡ some (ck', some value)
    → (t j : ℕ) × (turn : Turn) × (round : Round) × (server : String) × (response : CommandResponse)
      × (get_elem? turns t ≡ some turn)
      × (get_elem? turn.tries j ≡ some round)
      × ((round server (sign ck request)).response ≡ some response)
      × ((response.err ≡ ok) ⊎ (response.err ≡ err_no_key))
      × (value ≡ response.value)
unfolding command Answer
command-answered ck request turns ck' value e = command_loop-answered ck (sign ck request) turns e

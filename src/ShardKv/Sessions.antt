-- ===== src/ShardKv/Sessions.antt =====
-- A clerk of shardkv/client.go over all its life: made, and then used for one call after another.
use Prim.Native.String.{String}
use raft_side.Prelude.{
  ℕ, zero, suc, ◌+◌, ◌<◌, ◌≡◌, ◌⊎◌, inl, inr, refl, ◌∙◌, arith, Bool, Option, none, some, List, [],
  ◌∷◌, ◌>>=◌, length, get_elem?, All, Option-cases,
}
use raft_side.ShardCtrler.Client
use raft_side.ShardKv.Strings.{Str}
use raft_side.ShardKv.Types.{ok, err_no_key, CommandRequest, CommandResponse}
use raft_side.ShardKv.Client.{Clerk, make_clerk, latest_config, Round, Turn, command, sign}
use raft_side.ShardKv.Clerks.{IsReady, AnswersManned, make_clerk-IsReady, command-IsReady}
use raft_side.ShardKv.Answers.{command-answered}

-- A call: its request, and what its turns get to see.
abbrev pub Call : Type 0
Call = CommandRequest × List Turn

-- The values that the calls return, up to the first that does not return.
unfoldable pub run_calls : Clerk → List Call → Option (Clerk × List Str)
run_calls ck [] = some (ck, [])
run_calls ck ((request, turns) ∷ calls) = do
  (ck', answer) ← command ck request turns
  elim answer [
    | none ↦ some (ck', [])
    | some value ↦ (do (last, values) ← run_calls ck' calls; some (last, value ∷ values))
  ]

-- A server gave the value, with OK or with no such key, for the request under the client's id and the
-- number.
abbrev pub IsAnswered : (client_id command_id : ℕ) → Call → Str → Type 0
IsAnswered client_id command_id (request, turns) value =
    (t j : ℕ) × (turn : Turn) × (round : Round) × (server : String) × (response : CommandResponse)
    × (get_elem? turns t ≡ some turn)
    × (get_elem? turn.tries j ≡ some round)
    × ((round server (record request { client_id = client_id; command_id = command_id })).response
        ≡ some response)
    × ((response.err ≡ ok) ⊎ (response.err ≡ err_no_key))
    × (value ≡ response.value)

abbrev pub AllManned : List Call → Type 0
AllManned calls =
    All (λ (call : Call). All (λ (turn : Turn). All AnswersManned turn.queries) call.1) calls

command-IsAnswered :
    (ck : Clerk) (request : CommandRequest) (turns : List Turn) (ck' : Clerk) (value : Str)
    → command ck request turns ≡ some (ck', some value)
    → IsAnswered ck.client_id ck.command_id (request, turns) value
unfolding sign
command-IsAnswered ck request turns ck' value e = command-answered ck request turns ck' value e

IsAnswered-cons :
    (ck : Clerk) (request : CommandRequest) (turns : List Turn) (calls : List Call) (value : Str)
    (values : List Str)
    → IsAnswered ck.client_id ck.command_id (request, turns) value
    → ((k : ℕ) (v : Str)
        → get_elem? values k ≡ some v
        → (call : Call) × (get_elem? calls k ≡ some call)
          × IsAnswered ck.client_id (ck.command_id + suc k) call v)
    → (k : ℕ) (v : Str) → get_elem? (value ∷ values) k ≡ some v
    → (call : Call) × (get_elem? ((request, turns) ∷ calls) k ≡ some call)
      × IsAnswered ck.client_id (ck.command_id + k) call v
IsAnswered-cons ck request turns calls value values first rest zero v at =
    let same : value ≡ v = ground arith in
    let place : ck.command_id ≡ ck.command_id + 0 = omega arith in
    ((request, turns), refl, rw (same, place) at first)
IsAnswered-cons ck request turns calls value values first rest (suc k) v at = rest k v at

-- From a number on.
run_calls-from :
    (ck : Clerk) (calls : List Call)
    → IsReady ck
    → AllManned calls
    → (ck' : Clerk) × (values : List Str) × (run_calls ck calls ≡ some (ck', values))
      × (ck'.client_id ≡ ck.client_id)
      × (ck'.command_id ≡ ck.command_id + length values)
      × ((k : ℕ) (value : Str)
          → get_elem? values k ≡ some value
          → (call : Call) × (get_elem? calls k ≡ some call)
            × IsAnswered ck.client_id (ck.command_id + k) call value)
unfolding run_calls
run_calls-from ck [] ready manned =
    (ck, [], refl, refl, omega arith, λ k value at. absurd (ground arith))
run_calls-from ck ((request, turns) ∷ calls) ready (now, later) =
    let (ck1, answer, ran, ready1, who, number) = command-IsReady ck request turns ready now in
    elim number [
      | inl (same, nothing) ↦
          (ck1, [], ground arith, who, omega (arith, same), λ k value at. absurd (ground arith))
      | inr (next, something) ↦ elim (Option-cases answer) [
        | inl nothing ↦ absurd (something nothing)
        | inr (value, is) ↦
            let (ck2, values, rest, who2, number2, each) = run_calls-from ck1 calls ready1 later in
            (
              ck2,
              value ∷ values,
              ground arith,
              who2 ∙ who,
              omega (arith, next, number2),
              IsAnswered-cons ck request turns calls value values
                  (command-IsAnswered ck request turns ck1 value (ground arith))
                  (λ k v at.
                    let place : ck1.command_id + k ≡ ck.command_id + suc k = omega (arith, next) in
                    let (call, there, answered) = each k v at in
                    (call, there, rw (who, place) at answered)),
            )
      ]
    ]

make_clerk-first :
    (ctrlers : List Bool) (client_id : ℕ) (rounds : List Client.Round) (ck : Clerk)
    → make_clerk ctrlers client_id rounds ≡ some (some ck)
    → (ck.client_id ≡ client_id) × (ck.command_id ≡ 0)
unfolding make_clerk
make_clerk-first ctrlers client_id rounds ck e =
    elim (Option-cases (latest_config (Client.make_clerk ctrlers) rounds)) [
      | inl failed ↦ absurd (ground arith)
      | inr ((sm, answer), ran) ↦ elim (Option-cases answer) [
        | inl n ↦ absurd (ground arith)
        | inr (config, c) ↦ (ground arith, ground arith)
      ]
    ]

-- A clerk that `MakeClerk` returns, with a controller that has a server and answers configurations
-- with servers, makes any calls one after another without panic, whatever the servers answer. The
-- values that it returns are as many as its next command's number, and each was given by a server,
-- with OK or with no such key, for the request of its call, signed with the clerk's id and the call's
-- place among its calls: no two calls have one number.
pub run_calls-numbered :
    (ctrlers : List Bool) (client_id : ℕ) (rounds : List Client.Round) (ck : Clerk)
    (calls : List Call)
    → 0 < length ctrlers
    → All AnswersManned rounds
    → make_clerk ctrlers client_id rounds ≡ some (some ck)
    → AllManned calls
    → (ck' : Clerk) × (values : List Str) × (run_calls ck calls ≡ some (ck', values))
      × (ck'.client_id ≡ client_id)
      × (ck'.command_id ≡ length values)
      × ((k : ℕ) (value : Str)
          → get_elem? values k ≡ some value
          → (call : Call) × (get_elem? calls k ≡ some call) × IsAnswered client_id k call value)
run_calls-numbered ctrlers client_id rounds ck calls h manned e all =
    let (who, first) = make_clerk-first ctrlers client_id rounds ck e in
    let (ck', values, ran, same, number, each) =
      run_calls-from ck calls (make_clerk-IsReady ctrlers client_id rounds ck h manned e) all in
    (
      ck',
      values,
      ran,
      same ∙ who,
      omega (arith, number, first),
      λ k value at.
          let place : ck.command_id + k ≡ k = omega (arith, first) in
          let (call, there, answered) = each k value at in
          (call, there, rw (who, place) at answered),
    )

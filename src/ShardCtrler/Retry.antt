-- ===== src/ShardCtrler/Retry.antt =====
-- The retry loop of shardctrler/client.go.
use raft_side.Prelude.{
  ℕ, suc, ◌+◌, ◌<◌, ◌≡◌, ◌≢◌, ◌⊎◌, inl, inr, refl, sym, ap, ◌∙◌, arith, true, false, not, ◌&&◌,
  Option, none, some, List, [], ◌∷◌, length, get_elem?, set, All, Bool-cases, Option-cases,
  length-set, get_elem?-lt, ◌==◌,
}
use raft_side.Prelude.Ring.{next-cases, Near, Near-next, Near-all}
use raft_side.ShardCtrler.Types.{Config, default_config, ok, CommandRequest, CommandResponse}
use raft_side.ShardCtrler.Client.{
  Clerk, Attempt, Round, received, is_retried, next_server, sign, command_loop, command,
}

-- The clerk's leader is one of its servers.
abbrev pub IsInRange : Clerk → Type 0
IsInRange ck = ck.leader_id < length ck.servers

-- What one round does: it ends, without a connection or with an answer, or the loop goes on with
-- the next server.
abbrev connect : Clerk → Clerk
connect ck = record ck { servers = set ck.servers ck.leader_id true }

abbrev count_command : Clerk → Clerk
count_command ck = record (connect ck) { command_id = ck.command_id + 1 }

data RoundIs (ck : Clerk) (request : CommandRequest) (round : Round) (rounds : List Round)
    (out : Option (Clerk × Option Config)) : Type 0 where
  unreachable :
      (round ck.leader_id request).dialled ≡ false
      → out ≡ some (ck, some default_config)
      → RoundIs ck request round rounds out
  retried :
      is_retried (received (round ck.leader_id request).response).err ≡ true
      → out ≡ command_loop (next_server (connect ck)) request rounds
      → RoundIs ck request round rounds out
  replied :
      is_retried (received (round ck.leader_id request).response).err ≡ false
      → out ≡ some (count_command ck, some (received (round ck.leader_id request).response).config)
      → RoundIs ck request round rounds out

command_loop-RoundIs :
    (ck : Clerk) (request : CommandRequest) (round : Round) (rounds : List Round)
    → IsInRange ck
    → RoundIs ck request round rounds (command_loop ck request (round ∷ rounds))
unfolding command_loop
command_loop-RoundIs ck request round rounds h =
    let (connected, at) = get_elem?-lt ck.servers ck.leader_id h in
    elim (Bool-cases (not connected && not (round ck.leader_id request).dialled)) [
      | inl off ↦ unreachable (ground arith) (ground arith)
      | inr on ↦
          elim (Bool-cases (is_retried (received (round ck.leader_id request).response).err)) [
            | inl again ↦ retried again (ground arith)
            | inr end_now ↦ replied end_now (ground arith)
          ]
    ]

next_server-IsInRange : (ck : Clerk) → IsInRange ck → IsInRange (next_server (connect ck))
next_server-IsInRange ck h =
    let same = length-set ck.servers ck.leader_id true in
    elim (next-cases (length ck.servers) ck.leader_id h) [
      | inl (e, low) ↦ rw same (rw e low)
      | inr (e, high) ↦ rw same (rw e (omega (arith, high)))
    ]

command_loop-total :
    (ck : Clerk) (request : CommandRequest) (rounds : List Round)
    → IsInRange ck
    → (ck' : Clerk) × (config : Option Config) × (command_loop ck request rounds
        ≡ some (ck', config))
      × IsInRange ck'
      × (length ck'.servers ≡ length ck.servers)
      × (ck'.client_id ≡ ck.client_id)
      × ((ck'.command_id ≡ ck.command_id) × ((config ≡ none) ⊎ (config ≡ some default_config))
          ⊎ (ck'.command_id ≡ ck.command_id + 1) × (config ≢ none))
unfolding command_loop
command_loop-total ck request [] h = (ck, none, refl, h, refl, refl, inl (refl, inl refl))
command_loop-total ck request (round ∷ rounds) h =
    let same = length-set ck.servers ck.leader_id true in
    elim (command_loop-RoundIs ck request round rounds h) [
      | unreachable off e ↦ (ck, some default_config, e, h, refl, refl, inl (refl, inr refl))
      | retried again e ↦
          let (ck', config, ran, low, size, who, number) =
            command_loop-total (next_server (connect ck)) request rounds
              (next_server-IsInRange ck h) in
          (ck', config, e ∙ ran, low, size ∙ same, who, number)
      | replied end_now e ↦ (_, _, e, rw same h, same, refl, inr (refl, ground arith))
    ]

-- What the clerk takes as the answer of one attempt.
abbrev pub Answers : (ck ck' : Clerk) → Config → Attempt → Type 0
Answers ck ck' config attempt =
    ((response : CommandResponse) × (attempt.response ≡ some response)
      × (response.err ≡ ok)
      × (config ≡ response.config)
      × (ck'.command_id ≡ ck.command_id + 1))
    ⊎ (attempt.response ≡ none) × (config ≡ default_config) × (ck'.command_id ≡ ck.command_id + 1)
    ⊎ (attempt.dialled ≡ false) × (config ≡ default_config) × (ck'.command_id ≡ ck.command_id)

received-Answers :
    (ck ck' : Clerk) (config : Config) (attempt : Attempt)
    → is_retried (received attempt.response).err ≡ false
    → config ≡ (received attempt.response).config
    → ck'.command_id ≡ ck.command_id + 1
    → Answers ck ck' config attempt
received-Answers ck ck' config attempt h e n = elim (Option-cases attempt.response) [
  | inl failed ↦ inr (inl (failed, ground arith, n))
  | inr (response, at) ↦ inl (response, at, ground arith, ground arith, n)
]

command_loop-Answers :
    (ck : Clerk) (request : CommandRequest) (rounds : List Round) {ck' : Clerk} {config : Config}
    → IsInRange ck
    → command_loop ck request rounds ≡ some (ck', some config)
    → (j server : ℕ) × (round : Round) × (get_elem? rounds j ≡ some round)
      × Answers ck ck' config (round server request)
unfolding command_loop
command_loop-Answers ck request [] {ck'} {config} h e = absurd (ground arith)
command_loop-Answers ck request (round ∷ rounds) {ck'} {config} h e =
    elim (command_loop-RoundIs ck request round rounds h) [
      | unreachable off r ↦
          (0, ck.leader_id, round, refl, inr (inr (off, ground arith, ground arith)))
      | retried again r ↦
          let (j, server, later, at, answer) =
            command_loop-Answers (next_server (connect ck)) request rounds
              (next_server-IsInRange ck h) (sym r ∙ e) in
          (suc j, server, later, at, answer)
      | replied end_now r ↦ (
        0,
        ck.leader_id,
        round,
        refl,
        received-Answers ck ck' config (round ck.leader_id request) end_now (ground arith)
            (ground arith),
      )
    ]

-- A network in which the server k leads: it answers the request, and every other server can be
-- reached and sends the clerk on.
pub record IsLedBy (k : ℕ) (request : CommandRequest) (config : Config) (round : Round)
    : Type 0 where
  pub reached : (server : ℕ) → (round server request).dialled ≡ true
  pub answers : (round k request).response ≡ some (record { err = ok; config = config })
  pub refuses :
      (server : ℕ) → server ≢ k → is_retried (received (round server request).response).err ≡ true

command_loop-finds_leader :
    (k : ℕ) (config : Config) (ck : Clerk) (request : CommandRequest) (rounds : List Round)
    → IsInRange ck
    → k < length ck.servers
    → Near (length ck.servers) ck.leader_id k (length rounds)
    → All (IsLedBy k request config) rounds
    → (ck' : Clerk) × (command_loop ck request rounds ≡ some (ck', some config))
      × (ck'.leader_id ≡ k)
      × (ck'.command_id ≡ ck.command_id + 1)
unfolding command_loop
command_loop-finds_leader k config ck request [] h low near led = absurd (grind arith)
command_loop-finds_leader k config ck request (round ∷ rounds) h low near (led, later) =
    let same = length-set ck.servers ck.leader_id true in
    elim (command_loop-RoundIs ck request round rounds h) [
      | unreachable off e ↦ absurd (ground (arith, led.reached ck.leader_id))
      | retried again e ↦
          let apart : ck.leader_id ≢ k = λ here. absurd (ground (arith, led.answers)) in
          let (ck', ran, at, number) =
            command_loop-finds_leader k config (next_server (connect ck)) request rounds
              (next_server-IsInRange ck h) (rw same low)
              (rw same
                (Near-next (length ck.servers) ck.leader_id k (length rounds) h low apart near))
              later in
          (ck', e ∙ ran, at, number)
      | replied end_now e ↦ elim (Bool-cases (ck.leader_id == k)) [
        | inl here ↦
            let at_k : ck.leader_id ≡ k = ground arith in
            let config_k : (received (round ck.leader_id request).response).config ≡ config =
              ground (arith, led.answers) in
            (
              count_command ck,
              e
                  ∙ ap {B = Option (Clerk × Option Config)} (λ c. some (count_command ck, some c))
                      config_k,
              at_k,
              refl,
            )
        | inr apart ↦ absurd (ground (arith, led.refuses ck.leader_id (λ here. ground arith)))
      ]
    ]

pub command-total :
    (ck : Clerk) (request : CommandRequest) (rounds : List Round)
    → IsInRange ck
    → (ck' : Clerk) × (config : Option Config) × (command ck request rounds ≡ some (ck', config))
      × IsInRange ck'
      × (length ck'.servers ≡ length ck.servers)
      × (ck'.client_id ≡ ck.client_id)
      × ((ck'.command_id ≡ ck.command_id) × ((config ≡ none) ⊎ (config ≡ some default_config))
          ⊎ (ck'.command_id ≡ ck.command_id + 1) × (config ≢ none))
unfolding command
command-total ck request rounds h = command_loop-total ck (sign ck request) rounds h

-- A call that returns a configuration took it from one attempt with the signed request: from an
-- answer that says OK, as the clerk means to; or the call failed, and the empty configuration passes
-- for an answer, so that the command counts as done; or there was no connection, and the empty
-- configuration is returned without that.
pub command-Answers :
    (ck : Clerk) (request : CommandRequest) (rounds : List Round) (ck' : Clerk) (config : Config)
    → IsInRange ck
    → command ck request rounds ≡ some (ck', some config)
    → (j server : ℕ) × (round : Round) × (get_elem? rounds j ≡ some round)
      × Answers ck ck' config (round server (sign ck request))
unfolding command
command-Answers ck request rounds ck' config h e =
    command_loop-Answers ck (sign ck request) rounds h e

-- Where one server leads, answers OK, and all others can be reached and send the clerk on, a call
-- returns the leader's configuration within as many rounds as there are servers, wherever the clerk
-- begins; it then knows the leader, and its command number has gone up by one.
pub command-finds_leader :
    (k : ℕ) (config : Config) (ck : Clerk) (request : CommandRequest) (rounds : List Round)
    → IsInRange ck
    → k < length ck.servers
    → length rounds ≡ length ck.servers
    → All (IsLedBy k (sign ck request) config) rounds
    → (ck' : Clerk) × (command ck request rounds ≡ some (ck', some config))
      × (ck'.leader_id ≡ k)
      × (ck'.command_id ≡ ck.command_id + 1)
unfolding command
command-finds_leader k config ck request rounds h low size led =
    command_loop-finds_leader k config ck (sign ck request) rounds h low
      (rw size (Near-all (length ck.servers) ck.leader_id k h low)) led

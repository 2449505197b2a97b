-- ===== src/ShardKv/Clerks.antt =====
-- The call `Command` of shardkv/client.go, over the servers of a group and over configurations.
use Prim.Native.String.{String}
use raft_side.Prelude.{
  ℕ, negsuc, ◌+◌, ◌<◌, ◌≡◌, ◌≢◌, ◌⊎◌, inl, inr, refl, sym, ap, ◌∙◌, arith, Bool, Option, none, some,
  List, [], ◌∷◌, length, All, Option-cases, get_elem?-lt, length-replicate, All-get_elem?,
}
use raft_side.Prelude.Dict.{Dict, lookup, insert, lookup-insert}
use raft_side.ShardCtrler.Types.{Config, default_config, n_shards}
use raft_side.ShardCtrler.Types
use raft_side.ShardCtrler.Client
use raft_side.ShardCtrler.Retry
use raft_side.ShardKv.Strings.{Str}
use raft_side.ShardKv.Shard.{key2shard}
use raft_side.ShardKv.Total.{key2shard-lt}
use raft_side.ShardKv.Types.{CommandRequest}
use raft_side.ShardKv.Client.{
  Clerk, make_clerk, latest_config, Round, Tried, gave_up, known_leader, Turn, ask_group,
  command_loop, command, sign,
}
use raft_side.ShardKv.Tries.{Tried-cases, try_servers-total}

-- A configuration with a group for each shard's number, and no group without a server.
pub record IsManned (config : Config) : Type 0 where
  pub sized : length config.shards ≡ n_shards
  pub manned :
      (gid : ℕ) (servers : List String)
      → lookup gid config.groups ≡ some servers
      → 0 < length servers

-- A clerk that has a configuration with servers, and notes the first server of each group.
pub record IsReady (ck : Clerk) : Type 0 where
  pub ctrler : Retry.IsInRange ck.sm
  pub configured : IsManned ck.config
  pub first : (gid leader : ℕ) → lookup gid ck.leader_ids ≡ some leader → leader ≡ 0

-- Every configuration that a controller answers is manned.
abbrev pub AnswersManned : Client.Round → Type 0
AnswersManned round =
    (server : ℕ) (request : Types.CommandRequest) (response : Types.CommandResponse)
    → (round server request).response ≡ some response
    → IsManned response.config

default_config-IsManned : IsManned default_config
unfolding default_config lookup
default_config-IsManned = record {
  sized = length-replicate {A = ℕ} n_shards 0;
  manned = λ gid servers at. absurd (ground arith);
}

-- The leader of a group is its first server, noted or not.
known_leader-first :
    (ck : Clerk) (gid : ℕ)
    → IsReady ck
    → (ids : Dict ℕ) × (known_leader ck gid ≡ (record ck { leader_ids = ids }, 0))
      × ((g leader : ℕ) → lookup g ids ≡ some leader → leader ≡ 0)
known_leader-first ck gid h = elim (Option-cases (lookup gid ck.leader_ids)) [
  | inl missing ↦ (
    insert gid 0 ck.leader_ids,
    ground arith,
    λ g leader at. ground (arith, lookup-insert gid g 0 ck.leader_ids, h.first g leader),
  )
  | inr (leader, at) ↦ (ck.leader_ids, ground (arith, h.first gid leader at), h.first)
]

ask_group-total :
    (ck : Clerk) (request : CommandRequest) (rounds : List Round)
    → IsReady ck
    → (ids : Dict ℕ) × (tried : Tried) × (ask_group ck request rounds
        ≡ some (record ck { leader_ids = ids }, tried))
      × ((g leader : ℕ) → lookup g ids ≡ some leader → leader ≡ 0)
unfolding ask_group
ask_group-total ck request rounds h =
    let low : key2shard request.key < length ck.config.shards =
      rw h.configured.sized (key2shard-lt request.key) in
    let (gid, at) = get_elem?-lt ck.config.shards (key2shard request.key) low in
    elim (Option-cases (lookup gid ck.config.groups)) [
      | inl missing ↦ (ck.leader_ids, gave_up, ground arith, h.first)
      | inr (servers, named) ↦
          let (ids, known, first) = known_leader-first ck gid h in
          let (tried, ran) =
            try_servers-total servers 0 0 request rounds (h.configured.manned gid servers named) in
          (ids, tried, ground arith, first)
    ]

-- The clerk's latest configuration.
latest_config-total :
    (sm : Client.Clerk) (rounds : List Client.Round)
    → Retry.IsInRange sm
    → All AnswersManned rounds
    → (sm' : Client.Clerk) × (answer : Option Config) × (latest_config sm rounds
        ≡ some (sm', answer))
      × Retry.IsInRange sm'
      × ((config : Config) → answer ≡ some config → IsManned config)
unfolding Client.query
latest_config-total sm rounds h manned =
    let request = record (Client.empty_request Types.op_query) { num = negsuc 0 } in
    let (sm', answer, ran, low, size, who, number) = Retry.command-total sm request rounds h in
    (
      sm',
      answer,
      ran,
      low,
      λ config some_config.
          let one : Client.command sm request rounds ≡ some (sm', some config) =
            ran ∙ ap (λ c. some (sm', c)) some_config in
          let (j, server, round, at, answered) =
            Retry.command-Answers sm request rounds sm' config h one in
          let good = All-get_elem? AnswersManned rounds j manned at in
          elim answered [
            | inl (response, got, no_error, same, counted) ↦
                rw (sym same) at (good server (Client.sign sm request) response got)
            | inr (inl (failed, same, counted)) ↦ rw (sym same) at default_config-IsManned
            | inr (inr (off, same, kept)) ↦ rw (sym same) at default_config-IsManned
          ],
    )

command_loop-total :
    (ck : Clerk) (request : CommandRequest) (turns : List Turn)
    → IsReady ck
    → All (λ (turn : Turn). All AnswersManned turn.queries) turns
    → (ck' : Clerk) × (answer : Option Str) × (command_loop ck request turns ≡ some (ck', answer))
      × IsReady ck'
      × (ck'.client_id ≡ ck.client_id)
      × ((ck'.command_id ≡ ck.command_id) × (answer ≡ none)
          ⊎ (ck'.command_id ≡ ck.command_id + 1) × (answer ≢ none))
unfolding command_loop
command_loop-total ck request [] h manned = (ck, none, refl, h, refl, inl (refl, refl))
command_loop-total ck request (turn ∷ turns) h (manned, later) =
    let (ids, tried, asked, first) = ask_group-total ck request turn.tries h in
    let noted : IsReady (record ck { leader_ids = ids }) = record {
      ctrler = h.ctrler;
      configured = h.configured;
      first = first;
    } in
    elim (Tried-cases tried) [
      | inl (value, e) ↦ (
        record ck { leader_ids = ids; command_id = ck.command_id + 1 },
        some value,
        ground arith,
        record { ctrler = h.ctrler; configured = h.configured; first = first },
        refl,
        inr (refl, λ n. ground arith),
      )
      | inr (inl e) ↦
          (record ck { leader_ids = ids }, none, ground arith, noted, refl, inl (refl, refl))
      | inr (inr e) ↦
          let (sm, answer, ran, low, good) =
            latest_config-total ck.sm turn.queries h.ctrler manned in
          elim (Option-cases answer) [
            | inl n ↦ (
              record ck { leader_ids = ids; sm = sm },
              none,
              ground arith,
              record { ctrler = low; configured = h.configured; first = first },
              refl,
              inl (refl, refl),
            )
            | inr (config, c) ↦
                let ck1 = record ck { leader_ids = ids; sm = sm; config = config } in
                let (ck', out, went, ready, who, number) =
                  command_loop-total ck1 request turns
                    (record { ctrler = low; configured = good config c; first = first }) later in
                let step : command_loop ck request (turn ∷ turns) ≡ command_loop ck1 request turns =
                  ground arith in
                (ck', out, step ∙ went, ready, who, number)
          ]
    ]

-- A new clerk is ready, where its controller has a server and answers configurations with servers.
pub make_clerk-IsReady :
    (ctrlers : List Bool) (client_id : ℕ) (rounds : List Client.Round) (ck : Clerk)
    → 0 < length ctrlers
    → All AnswersManned rounds
    → make_clerk ctrlers client_id rounds ≡ some (some ck)
    → IsReady ck
unfolding make_clerk Client.make_clerk lookup
make_clerk-IsReady ctrlers client_id rounds ck h manned e =
    let (sm, answer, ran, low, good) =
      latest_config-total (Client.make_clerk ctrlers) rounds h manned in
    elim (Option-cases answer) [
      | inl n ↦ absurd (ground arith)
      | inr (config, c) ↦
          let made : Clerk = record {
            sm = sm;
            config = config;
            leader_ids = [];
            client_id = client_id;
            command_id = 0;
          } in
          let same : made ≡ ck = ground arith in
          let ready : IsReady made = record {
            ctrler = low;
            configured = good config c;
            first = λ g leader at. absurd (ground arith);
          } in
          rw same at ready
    ]

-- A get, a put or an append of a ready clerk never panics, whatever the servers answer, as long as
-- the controller answers configurations with servers; the clerk stays ready, keeps its id, and raises
-- its command number by one exactly if the call returns a value.
pub command-IsReady :
    (ck : Clerk) (request : CommandRequest) (turns : List Turn)
    → IsReady ck
    → All (λ (turn : Turn). All AnswersManned turn.queries) turns
    → (ck' : Clerk) × (answer : Option Str) × (command ck request turns ≡ some (ck', answer))
      × IsReady ck'
      × (ck'.client_id ≡ ck.client_id)
      × ((ck'.command_id ≡ ck.command_id) × (answer ≡ none)
          ⊎ (ck'.command_id ≡ ck.command_id + 1) × (answer ≢ none))
unfolding command
command-IsReady ck request turns h manned = command_loop-total ck (sign ck request) turns h manned

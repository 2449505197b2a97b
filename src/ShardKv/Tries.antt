-- ===== src/ShardKv/Tries.antt =====
-- The loop of shardkv/client.go over the servers of a group.
use Prim.Native.String.{String}
use raft_side.Prelude.{
  ℕ, suc, ◌+◌, ◌%◌, ◌≤◌, ◌<◌, ◌≡◌, ◌≢◌, ◌⊎◌, inl, inr, refl, sym, ◌∙◌, arith, Option, some, List,
  [], ◌∷◌, length, get_elem?, All, Bool-cases, Option-cases, get_elem?-lt, ◌==◌,
}
use raft_side.Prelude.Ring.{Near, Near-next, Near-all, Near-le, Ahead, Ahead-next, next-lt}
use raft_side.ShardKv.Strings.{Str}
use raft_side.ShardKv.Types.{ok, err_no_key, CommandRequest, CommandResponse}
use raft_side.ShardKv.Client.{
  Attempt, Round, Verdict, accepted, wrong_group, next_one, judge, Tried, found, gave_up, waiting,
  try_servers,
}

-- One turn of the loop.
data TurnIs (servers : List String) (old new : ℕ) (request : CommandRequest) (server : String)
    (round : Round) (rounds : List Round) (out : Option Tried) : Type 0 where
  taken :
      (value : Str)
      → judge (round server request) ≡ accepted value
      → out ≡ some (found value)
      → TurnIs servers old new request server round rounds out
  refused :
      judge (round server request) ≡ wrong_group
      → out ≡ some gave_up
      → TurnIs servers old new request server round rounds out
  all_tried :
      judge (round server request) ≡ next_one
      → (new + 1) % length servers ≡ old
      → out ≡ some gave_up
      → TurnIs servers old new request server round rounds out
  passed_on :
      judge (round server request) ≡ next_one
      → (new + 1) % length servers ≢ old
      → out ≡ try_servers servers old ((new + 1) % length servers) request rounds
      → TurnIs servers old new request server round rounds out

Verdict-cases :
    (v : Verdict) → ((value : Str) × (v ≡ accepted value)) ⊎ (v ≡ wrong_group) ⊎ (v ≡ next_one)
Verdict-cases (accepted value) = inl (value, refl)
Verdict-cases wrong_group = inr (inl refl)
Verdict-cases next_one = inr (inr refl)

try_servers-TurnIs :
    (servers : List String) (old new : ℕ) (request : CommandRequest) (server : String)
    (round : Round) (rounds : List Round)
    → get_elem? servers new ≡ some server
    → TurnIs servers old new request server round rounds
        (try_servers servers old new request (round ∷ rounds))
unfolding try_servers
try_servers-TurnIs servers old new request server round rounds at =
    elim (Verdict-cases (judge (round server request))) [
      | inl (value, v) ↦ taken value v (ground arith)
      | inr (inl v) ↦ refused v (ground arith)
      | inr (inr v) ↦ elim (Bool-cases ((new + 1) % length servers == old)) [
        | inl back ↦ all_tried v (ground arith) (ground arith)
        | inr on ↦ passed_on v (λ e. ground arith) (ground arith)
      ]
    ]

-- How an attempt was taken that the loop ended with.
judge-accepted :
    (attempt : Attempt) (value : Str)
    → judge attempt ≡ accepted value
    → (response : CommandResponse) × (attempt.response ≡ some response)
      × ((response.err ≡ ok) ⊎ (response.err ≡ err_no_key))
      × (value ≡ response.value)
unfolding judge
judge-accepted attempt value h = elim (Option-cases attempt.response) [
  | inl failed ↦ absurd (ground arith)
  | inr (response, at) ↦ (response, at, ground arith, ground arith)
]

try_servers-ends_from :
    (servers : List String) (old new : ℕ) (request : CommandRequest) (rounds : List Round)
    → old < length servers
    → new < length servers
    → Near (length servers) ((new + 1) % length servers) old (length rounds)
    → (out : Tried) × (try_servers servers old new request rounds ≡ some out) × (out ≢ waiting)
try_servers-ends_from servers old new request [] h low near = absurd (grind arith)
try_servers-ends_from servers old new request (round ∷ rounds) h low near =
    let (server, at) = get_elem?-lt servers new low in
    let next = (new + 1) % length servers in
    elim (try_servers-TurnIs servers old new request server round rounds at) [
      | taken value v e ↦ (found value, e, λ w. ground arith)
      | refused v e ↦ (gave_up, e, λ w. ground arith)
      | all_tried v back e ↦ (gave_up, e, λ w. ground arith)
      | passed_on v on e ↦
          let less = next-lt (length servers) new low in
          let (out, ran, ended) =
            try_servers-ends_from servers old next request rounds h less
              (Near-next (length servers) next old (length rounds) less h on near) in
          (out, e ∙ ran, ended)
    ]

-- The loop over the servers of a group, begun at one of them, never panics, whatever they answer, and
-- it ends within as many attempts as there are servers: with a value, or for a new configuration.
pub try_servers-ends :
    (servers : List String) (old : ℕ) (request : CommandRequest) (rounds : List Round)
    → old < length servers
    → length servers ≤ length rounds
    → (out : Tried) × (try_servers servers old old request rounds ≡ some out) × (out ≢ waiting)
try_servers-ends servers old request rounds h enough =
    let less = next-lt (length servers) old h in
    let near = Near-all (length servers) ((old + 1) % length servers) old less h in
    try_servers-ends_from servers old old request rounds h h (
      Near-le (length servers) ((old + 1) % length servers) old (length servers) (length rounds)
        enough near)

-- The server at k answers a value, and every other one is passed over.
pub record IsAnsweredAt (servers : List String) (k : ℕ) (request : CommandRequest) (value : Str)
    (round : Round) : Type 0 where
  pub answers :
      (server : String)
      → get_elem? servers k ≡ some server
      → judge (round server request) ≡ accepted value
  pub passes :
      (j : ℕ) (server : String)
      → j ≢ k
      → get_elem? servers j ≡ some server
      → judge (round server request) ≡ next_one

try_servers-finds_from :
    (servers : List String) (old new k : ℕ) (request : CommandRequest) (value : Str)
    (rounds : List Round)
    → old < length servers
    → new < length servers
    → k < length servers
    → Near (length servers) new k (length rounds)
    → Ahead old new k
    → All (IsAnsweredAt servers k request value) rounds
    → try_servers servers old new request rounds ≡ some (found value)
try_servers-finds_from servers old new k request value [] h low g near ahead led =
    absurd (grind arith)
try_servers-finds_from servers old new k request value (round ∷ rounds) h low g near ahead
      (led, later) =
    let (server, at) = get_elem?-lt servers new low in
    let next = (new + 1) % length servers in
    let n = length servers in
    elim (Bool-cases (new == k)) [
      | inl here ↦
          let at_k : get_elem? servers k ≡ some server = ground arith in
          let answer = led.answers server at_k in
          elim (try_servers-TurnIs servers old new request server round rounds at) [
            | taken w v e ↦ ground arith
            | refused v e ↦ absurd (ground arith)
            | all_tried v back e ↦ absurd (ground arith)
            | passed_on v on e ↦ absurd (ground arith)
          ]
      | inr differs ↦
          let apart : new ≢ k = λ e. ground arith in
          let pass = led.passes new server apart at in
          let (on, ahead') = Ahead-next n old new k h low g apart ahead in
          elim (try_servers-TurnIs servers old new request server round rounds at) [
            | taken w v e ↦ absurd (ground arith)
            | refused v e ↦ absurd (ground arith)
            | all_tried v back e ↦ absurd (on back)
            | passed_on v on' e ↦
                e
                ∙ try_servers-finds_from servers old next k request value rounds h
                    (next-lt n new low) g (Near-next n new k (length rounds) low g apart near)
                    ahead' later
          ]
    ]

-- Where one server of a group answers a value and all others are passed over, without a connection,
-- with a failed call or with another error, the loop returns that value within as many attempts as
-- there are servers, wherever it begins.
pub try_servers-finds :
    (servers : List String) (old k : ℕ) (request : CommandRequest) (value : Str)
    (rounds : List Round)
    → old < length servers
    → k < length servers
    → length servers ≤ length rounds
    → All (IsAnsweredAt servers k request value) rounds
    → try_servers servers old old request rounds ≡ some (found value)
try_servers-finds servers old k request value rounds h g enough led =
    try_servers-finds_from servers old old k request value rounds h h g
      (Near-le (length servers) old k (length servers) (length rounds) enough
        (Near-all (length servers) old k h g))
      (grind arith) led

-- A value that the loop ends with is one that a server answered, with OK or with no such key.
pub try_servers-answered :
    (servers : List String) (old new : ℕ) (request : CommandRequest) (rounds : List Round)
    (value : Str)
    → try_servers servers old new request rounds ≡ some (found value)
    → (j i : ℕ) × (round : Round) × (server : String) × (response : CommandResponse) × (get_elem?
          rounds j
        ≡ some round)
      × (get_elem? servers i ≡ some server)
      × ((round server request).response ≡ some response)
      × ((response.err ≡ ok) ⊎ (response.err ≡ err_no_key))
      × (value ≡ response.value)
unfolding try_servers
try_servers-answered servers old new request [] value e = absurd (ground arith)
try_servers-answered servers old new request (round ∷ rounds) value e =
    elim (Option-cases (get_elem? servers new)) [
      | inl past ↦ absurd (ground arith)
      | inr (server, at) ↦
          elim (try_servers-TurnIs servers old new request server round rounds at) [
            | taken w v r ↦
                let (response, got, good, same) = judge-accepted (round server request) w v in
                (0, new, round, server, response, refl, at, got, good, ground arith)
            | refused v r ↦ absurd (ground arith)
            | all_tried v back r ↦ absurd (ground arith)
            | passed_on v on r ↦
                let (j, i, later, asked, response, at_j, at_i, got, good, same) =
                  try_servers-answered servers old ((new + 1) % length servers) request rounds value
                    (sym r ∙ e) in
                (suc j, i, later, asked, response, at_j, at_i, got, good, same)
          ]
    ]

pub try_servers-total :
    (servers : List String) (old new : ℕ) (request : CommandRequest) (rounds : List Round)
    → new < length servers
    → (out : Tried) × (try_servers servers old new request rounds ≡ some out)
unfolding try_servers
try_servers-total servers old new request [] h = (waiting, refl)
try_servers-total servers old new request (round ∷ rounds) h =
    let (server, at) = get_elem?-lt servers new h in
    elim (try_servers-TurnIs servers old new request server round rounds at) [
      | taken value v e ↦ (found value, e)
      | refused v e ↦ (gave_up, e)
      | all_tried v back e ↦ (gave_up, e)
      | passed_on v on e ↦
          let (out, ran) =
            try_servers-total servers old ((new + 1) % length servers) request rounds
              (next-lt (length servers) new h) in
          (out, e ∙ ran)
    ]

pub Tried-cases : (t : Tried) → ((value : Str) × (t ≡ found value)) ⊎ (t ≡ waiting) ⊎ (t ≡ gave_up)
Tried-cases (found value) = inl (value, refl)
Tried-cases waiting = inr (inl refl)
Tried-cases gave_up = inr (inr refl)

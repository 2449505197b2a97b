-- ===== src/ShardKv/Refine.antt =====
-- A group does what its specification says, operation by operation.
use raft_side.Prelude.{
  ℕ, ◌≡◌, refl, sym, ap, ◌∙◌, inl, inr, arith, Bool, true, false, Option, none, some, ◌++◌,
  Option-cases, Bool-cases, ◌==◌, if◌then◌else◌,
}
use raft_side.Prelude.Dict.{lookup, insert, lookup-insert}
use raft_side.ShardKv.Strings.{Str, find, same_string, same_string-eq, find-store}
use raft_side.ShardKv.Types.{
  OperationOp, op_put, op_append, op_get, CommandRequest, CommandResponse,
}
use raft_side.ShardKv.Shard.{Shard, get, put, append, value_of, key2shard}
use raft_side.ShardKv.State.{ShardKv, can_serve, is_duplicate_request}
use raft_side.ShardKv.Apply.{run_on_shard, apply_log_to_state_machines, serve, apply_operation}
use raft_side.ShardKv.Spec.{KvSpec, spec_op, spec_step, known_answer, note}

-- The value of a key in the shard that it belongs to.
unfoldable pub view : ShardKv → Str → Option Str
view sk key = elim (lookup (key2shard key) sk.state_machines) [
  | none ↦ none
  | some shard ↦ find key shard.kv
]

pub record Refines (sk : ShardKv) (s : KvSpec) : Type 0 where
  pub stored : (key : Str) → view sk key ≡ s.store key
  pub noted : (client_id : ℕ) → lookup client_id sk.last_operations ≡ s.sessions client_id

-- An operation on one shard is the operation on its map.
run_on_shard-spec_op :
    (op : OperationOp) (shard : Shard) (request : CommandRequest) (k : Str)
    → (find k ((run_on_shard op shard request).0.kv)
        ≡ (spec_op op request.key request.value (λ j. find j shard.kv)).0 k)
      × ((run_on_shard op shard request).1
          ≡ (spec_op op request.key request.value (λ j. find j shard.kv)).1)
unfolding run_on_shard put append get
run_on_shard-spec_op op_put shard request k =
    (find-store request.key k request.value shard.kv, refl)
run_on_shard-spec_op op_append shard request k = (
  ground
      (arith, find-store request.key k (value_of request.key shard.kv ++ request.value) shard.kv),
  refl,
)
run_on_shard-spec_op op_get shard request k = (refl, ground arith)

-- An operation looks at its own key and at the one asked for.
spec_op-local :
    (op : OperationOp) (key value k : Str) (s t : Str → Option Str)
    → s key ≡ t key
    → s k ≡ t k
    → ((spec_op op key value s).0 k ≡ (spec_op op key value t).0 k)
      × ((spec_op op key value s).1 ≡ (spec_op op key value t).1)
spec_op-local op_put key value k s t h g = (ground arith, refl)
spec_op-local op_append key value k s t h g = (ground arith, refl)
spec_op-local op_get key value k s t h g = (g, ground arith)

spec_op-elsewhere :
    (op : OperationOp) (key value k : Str) (s : Str → Option Str)
    → same_string key k ≡ false
    → (spec_op op key value s).0 k ≡ s k
spec_op-elsewhere op_put key value k s h = ground arith
spec_op-elsewhere op_append key value k s h = ground arith
spec_op-elsewhere op_get key value k s h = refl

can_serve-lookup :
    (sk : ShardKv) (i : ℕ)
    → can_serve sk i ≡ some true
    → (shard : Shard) × (lookup i sk.state_machines ≡ some shard)
unfolding can_serve
can_serve-lookup sk i h = elim (Option-cases (lookup i sk.state_machines)) [
  | inl missing ↦ absurd (ground arith)
  | inr found ↦ found
]

module _ (sk : ShardKv) (request : CommandRequest) (shard : Shard) (s : KvSpec)
    (at : lookup (key2shard request.key) sk.state_machines ≡ some shard) (h : Refines sk s)
    {sk' : ShardKv} {r : CommandResponse} where
  -- The operation runs: what it leaves, and what it answers.
  serve-runs :
      serve sk request (key2shard request.key) ≡ some (sk', r)
      → known_answer request s ≡ none
      → (sk'.state_machines
          ≡ insert
              (key2shard request.key)
              ((run_on_shard request.op shard request).0)
              sk.state_machines)
        × (r ≡ (run_on_shard request.op shard request).1)
        × ((c : ℕ)
            → lookup c sk'.last_operations ≡ note request r (λ j. lookup j sk.last_operations) c)
  unfolding serve apply_log_to_state_machines is_duplicate_request
  serve-runs e new =
      let noted = h.noted request.client_id in
      (
        ground arith,
        ground arith,
        λ c. ground (
          arith,
          lookup-insert request.client_id c
              (record { max_applied_command_id = request.command_id; last_response = r })
              sk.last_operations,
        ),
      )

  -- A write that was done before is answered again.
  serve-repeats :
      serve sk request (key2shard request.key) ≡ some (sk', r)
      → {response : CommandResponse} → known_answer request s ≡ some response
      → (sk' ≡ sk) × (r ≡ response)
  unfolding serve is_duplicate_request
  serve-repeats e {response} old =
      let noted = h.noted request.client_id in (ground arith, ground arith)

-- The view of a key of a shard is the shard's.
pub view-find :
    (sk : ShardKv) (k : Str) (shard : Shard)
    → lookup (key2shard k) sk.state_machines ≡ some shard
    → view sk k ≡ find k shard.kv
unfolding view
view-find sk k shard at = ground arith

pub view-elsewhere :
    (sk sk' : ShardKv) (k : Str)
    → lookup (key2shard k) sk'.state_machines ≡ lookup (key2shard k) sk.state_machines
    → view sk' k ≡ view sk k
unfolding view
view-elsewhere sk sk' k e = ground arith

-- An operation on the shard of its key is the operation on the whole view.
view-set_shard :
    (sk sk' : ShardKv) (request : CommandRequest) (shard : Shard) (k : Str)
    → lookup (key2shard request.key) sk.state_machines ≡ some shard
    → sk'.state_machines
      ≡ insert (key2shard request.key) ((run_on_shard request.op shard request).0) sk.state_machines
    → view sk' k ≡ (spec_op request.op request.key request.value (view sk)).0 k
view-set_shard sk sk' request shard k at e =
    let i = key2shard request.key in
    let new = (run_on_shard request.op shard request).0 in
    let there : lookup (key2shard k) sk'.state_machines
        ≡ (if i == key2shard k then some new else lookup (key2shard k) sk.state_machines) =
      ap (lookup (key2shard k)) e ∙ lookup-insert i (key2shard k) new sk.state_machines in
    elim (Bool-cases (i == key2shard k)) [
      | inl same ↦
          let at_k : lookup (key2shard k) sk.state_machines ≡ some shard = ground arith in
          view-find sk' k new (ground arith)
          ∙ (run_on_shard-spec_op request.op shard request k).0
          ∙ (spec_op-local request.op request.key request.value k (λ j. find j shard.kv) (view sk)
              (sym (view-find sk request.key shard at)) (sym (view-find sk k shard at_k))).0
      | inr apart ↦
          let differs : same_string request.key k ≡ false =
            elim (Bool-cases (same_string request.key k)) [
              | inl same ↦
                  let one = ap key2shard (same_string-eq request.key k same) in
                  absurd (ground arith)
              | inr no_match ↦ no_match
            ] in
          view-elsewhere sk sk' k (ground arith)
          ∙ sym (spec_op-elsewhere request.op request.key request.value k (view sk) differs)
    ]

serve-Refines :
    (sk : ShardKv) (s : KvSpec) (request : CommandRequest) (sk' : ShardKv) (r : CommandResponse)
    → Refines sk s
    → can_serve sk (key2shard request.key) ≡ some true
    → serve sk request (key2shard request.key) ≡ some (sk', r)
    → Refines sk' ((spec_step true request s).0) × (r ≡ (spec_step true request s).1)
serve-Refines sk s request sk' r h b e =
    let (shard, at) = can_serve-lookup sk (key2shard request.key) b in
    elim (Option-cases (known_answer request s)) [
      | inr (response, old) ↦
          let (same, again) = serve-repeats sk request shard s at h e old in
          let stepped : spec_step true request s ≡ (s, response) = ground arith in
          (
            rw (ap {A = KvSpec × CommandResponse} (λ p. p.0) stepped, same) h,
            again ∙ sym (ap {A = KvSpec × CommandResponse} (λ p. p.1) stepped),
          )
      | inl new ↦
          let (machines, answer, notes) = serve-runs sk request shard s at h e new in
          let there = sym (view-find sk request.key shard at) ∙ h.stored request.key in
          let out = spec_op request.op request.key request.value s.store in
          let after : KvSpec = record { store = out.0; sessions = note request out.1 s.sessions } in
          let stepped : spec_step true request s ≡ (after, out.1) = ground arith in
          let same_answer : r ≡ out.1 =
            answer
            ∙ (run_on_shard-spec_op request.op shard request request.key).1
            ∙ (spec_op-local request.op request.key request.value request.key (λ j. find j shard.kv)
                s.store there there).1 in
          let refined : Refines sk' after = record {
            stored = λ k.
                view-set_shard sk sk' request shard k at machines
                ∙ (spec_op-local request.op request.key request.value k (view sk) s.store
                    (h.stored request.key) (h.stored k)).0;
            noted = λ c. notes c ∙ ground (arith, h.noted c);
          } in
          (
            rw (ap {A = KvSpec × CommandResponse} (λ p. p.0) stepped) refined,
            same_answer ∙ sym (ap {A = KvSpec × CommandResponse} (λ p. p.1) stepped),
          )
    ]

-- A put, an append or a read that the group applies without a panic is the step of the
-- specification, at every key, with its answer: refused where the group does not serve the key, the
-- answer of old to a write that was done before, and else the operation on the one map.
pub apply_operation-Refines :
    (sk : ShardKv) (s : KvSpec) (request : CommandRequest) (served : Bool) (sk' : ShardKv)
    (r : CommandResponse)
    → Refines sk s
    → can_serve sk (key2shard request.key) ≡ some served
    → apply_operation sk request ≡ some (sk', r)
    → Refines sk' ((spec_step served request s).0) × (r ≡ (spec_step served request s).1)
unfolding apply_operation
apply_operation-Refines sk s request false sk' r h b e =
    let same : sk' ≡ sk = ground arith in (rw same h, ground arith)
apply_operation-Refines sk s request true sk' r h b e =
    let ran : serve sk request (key2shard request.key) ≡ some (sk', r) = ground arith in
    serve-Refines sk s request sk' r h b ran

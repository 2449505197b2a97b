-- ===== src/ShardKv/Storage.antt =====
-- What a client reads back, and what a restart reads back from a snapshot.
use raft_side.Prelude.{
  ℕ, ◌<◌, ◌≡◌, ◌≢◌, refl, sym, ap, ◌∙◌, inl, inr, arith, true, false, some, List, [], ◌∷◌, ◌++◌,
  Option-cases,
}
use raft_side.Prelude.Dict.{lookup, lookup-insert}
use raft_side.Raft.Types.{Raft, Entry}
use raft_side.Raft.Persist.{RaftCodec, clone, read_snapshot, save_state_and_snapshot}
use raft_side.Raft.Log.{get_first_log}
use raft_side.Raft.Snapshot.{take_snapshot, save_snapshot}
use raft_side.ShardKv.Strings.{Str, find, find-store, same_string_refl}
use raft_side.ShardKv.Types.{
  OperationOp, op_put, op_append, op_get, is_get, CommandRequest, CommandResponse, ok, Command,
}
use raft_side.ShardKv.Shard.{Shard, get, put, append, value_of, key2shard}
use raft_side.ShardKv.State.{ShardKv, can_serve, is_duplicate_request}
use raft_side.ShardKv.Apply.{
  run_on_shard, apply_log_to_state_machines, serve, apply_operation, set_shard,
}
use raft_side.ShardKv.Server.{KvCodec, kv_state, restore_snapshot, save_kv}

-- The value of a key after a write.
abbrev pub written : OperationOp → (old value : Str) → Str
written op_put old value = value
written op_append old value = old ++ value
written op_get old value = old

run_on_shard-find :
    (op : OperationOp) (shard : Shard) (request : CommandRequest)
    → is_get op ≡ false
    → (find request.key ((run_on_shard op shard request).0.kv)
        ≡ some (written op (value_of request.key shard.kv) request.value))
      × ((run_on_shard op shard request).0.status ≡ shard.status)
unfolding run_on_shard put append
run_on_shard-find op_put shard request h = (
  ground (
    arith,
    find-store request.key request.key request.value shard.kv,
    same_string_refl request.key,
  ),
  refl,
)
run_on_shard-find op_append shard request h = (
  ground (
    arith,
    find-store request.key request.key (value_of request.key shard.kv ++ request.value) shard.kv,
    same_string_refl request.key,
  ),
  refl,
)
run_on_shard-find op_get shard request h = absurd (ground arith)

serve-stores :
    (sk : ShardKv) (request : CommandRequest) (i : ℕ) (shard : Shard) {sk' : ShardKv}
    {r : CommandResponse}
    → serve sk request i ≡ some (sk', r)
    → is_get request.op ≡ false
    → is_duplicate_request sk request.client_id request.command_id ≡ false
    → lookup i sk.state_machines ≡ some shard
    → (sk'.current_config ≡ sk.current_config)
      × (sk'.gid ≡ sk.gid)
      × (lookup i sk'.state_machines ≡ some ((run_on_shard request.op shard request).0))
unfolding serve apply_log_to_state_machines
serve-stores sk request i shard e h fresh at =
    let stored = lookup-insert i i ((run_on_shard request.op shard request).0) sk.state_machines in
    (ground arith, ground arith, ground arith)

serve-reads :
    (sk : ShardKv) (request : CommandRequest) (i : ℕ) (shard : Shard) (value : Str)
    → request.op ≡ op_get
    → lookup i sk.state_machines ≡ some shard
    → find request.key shard.kv ≡ some value
    → (sk' : ShardKv) × (serve sk request i ≡ some (sk', record { err = ok; value = value }))
unfolding serve apply_log_to_state_machines run_on_shard get
serve-reads sk request i shard value h at here = (set_shard sk i shard, ground arith)

can_serve-stays :
    (sk sk' : ShardKv) (i : ℕ) (shard new : Shard)
    → sk'.current_config ≡ sk.current_config
    → sk'.gid ≡ sk.gid
    → lookup i sk.state_machines ≡ some shard
    → lookup i sk'.state_machines ≡ some new
    → new.status ≡ shard.status
    → can_serve sk' i ≡ can_serve sk i
unfolding can_serve
can_serve-stays sk sk' i shard new config gid at at' status = ground arith

apply_operation-serve :
    (sk : ShardKv) (request : CommandRequest)
    → can_serve sk (key2shard request.key) ≡ some true
    → apply_operation sk request ≡ serve sk request (key2shard request.key)
unfolding apply_operation
apply_operation-serve sk request h = ground arith

-- A client that reads a key after a put or an append of it was applied, to a shard that the group
-- serves and not as a duplicate, gets the value that was put, or the old one (the empty string for a
-- missing key) with what was appended.
pub apply_operation-reads :
    (sk : ShardKv) (write read : CommandRequest) (shard : Shard) (sk' : ShardKv)
    (r : CommandResponse)
    → apply_operation sk write ≡ some (sk', r)
    → can_serve sk (key2shard write.key) ≡ some true
    → is_get write.op ≡ false
    → is_duplicate_request sk write.client_id write.command_id ≡ false
    → lookup (key2shard write.key) sk.state_machines ≡ some shard
    → read.op ≡ op_get
    → read.key ≡ write.key
    → (last : ShardKv) × (apply_operation sk' read
        ≡ some (
          last,
          record { err = ok; value = written write.op (value_of write.key shard.kv) write.value },
        ))
apply_operation-reads sk write read shard sk' r e served h fresh at get_op key =
    let i = key2shard write.key in
    let ran = sym (apply_operation-serve sk write served) ∙ e in
    let (config, gid, stored) = serve-stores sk write i shard ran h fresh at in
    let (found, status) = run_on_shard-find write.op shard write h in
    let new = (run_on_shard write.op shard write).0 in
    let value = written write.op (value_of write.key shard.kv) write.value in
    let (last, reads) =
      serve-reads sk' read i new value get_op stored (ap (λ k. find k new.kv) key ∙ found) in
    let same = ap key2shard key in
    let serves =
      ap (can_serve sk') same
      ∙ can_serve-stays sk sk' i shard new config gid at stored status
      ∙ served in
    (last, apply_operation-serve sk' read serves ∙ ap (λ k. serve sk' read k) same ∙ reads)

clone_eq : (bytes : List ℕ) → clone bytes ≡ bytes
unfolding clone
clone_eq [] = refl
clone_eq (b ∷ bytes) = ap (λ t. b ∷ t) (clone_eq bytes)

module _ ⦃kv_codec : KvCodec⦄ ⦃codec : RaftCodec Command⦄ where
  restore_snapshot-kv_state :
      (sk : ShardKv) (bytes : List ℕ)
      → bytes ≢ []
      → kv_state (restore_snapshot sk bytes) ≡ kv_codec.decode_kv bytes
  unfolding restore_snapshot
  restore_snapshot-kv_state sk [] h = absurd (h refl)
  restore_snapshot-kv_state sk (b ∷ bytes) h = refl

  take_snapshot-read_snapshot :
      (rf : Raft Command) (index : ℕ) (bytes : List ℕ) (first : Entry Command) {rf' : Raft Command}
      → take_snapshot rf index bytes ≡ some rf'
      → get_first_log rf.logs ≡ some first
      → first.index < index
      → read_snapshot rf'.persister ≡ bytes
  unfolding take_snapshot save_snapshot save_state_and_snapshot read_snapshot
  take_snapshot-read_snapshot rf index bytes first e f low =
      ground (arith, clone_eq bytes, clone_eq (clone bytes))

  -- A snapshot that the server saves at an index behind the one its log begins at is, read from the
  -- disk by any other server, the shards, the record of the clients' writes and the two
  -- configurations that the server had.
  pub save_kv-restore_snapshot :
      (sk other : ShardKv) (index : ℕ) (first : Entry Command) (sk' : ShardKv)
      → save_kv sk index ≡ some sk'
      → get_first_log sk.rf.logs ≡ some first
      → first.index < index
      → kv_state (restore_snapshot other (read_snapshot sk'.rf.persister)) ≡ kv_state sk
  unfolding save_kv
  save_kv-restore_snapshot sk other index first sk' e f low =
      let bytes = kv_codec.encode_kv (kv_state sk) in
      elim (Option-cases (take_snapshot sk.rf index bytes)) [
        | inl failed ↦ absurd (ground arith)
        | inr (rf, took) ↦
            let same : sk'.rf ≡ rf = ground arith in
            let read : read_snapshot sk'.rf.persister ≡ bytes =
              ap {A = Raft Command} (λ t. read_snapshot t.persister) same
              ∙ take_snapshot-read_snapshot sk.rf index bytes first took f low in
            ap (λ b. kv_state (restore_snapshot other b)) read
            ∙ restore_snapshot-kv_state other bytes (kv_codec.encode_kv-ne_nil (kv_state sk))
            ∙ kv_codec.decode-encode_kv (kv_state sk)
      ]

-- ===== src/ShardKv/Server.antt =====
-- shardkv/server.go: the applier, the snapshots, and the calls of clients and of other groups, over
-- the model of Raft. A channel has room for one response; a send to a full one blocks for ever, and
-- is `none`, as a panic is.
use raft_side.Prelude.{
  ℕ, ◌≡◌, ◌≢◌, ◌⊎◌, inl, inr, Bool, true, false, not, ◌&&◌, Option, none, some, List, [], ◌∷◌,
  ◌>>=◌, ltb, leb, ◌==◌, if◌then◌else◌,
}
use raft_side.Prelude.Dict.{Dict, lookup, insert}
use raft_side.Raft.Types.{ApplyMsg, command_msg, snapshot_msg, Persister}
use raft_side.Raft.Persist.{RaftCodec, read_snapshot}
use raft_side.Raft.Log.{get_state}
use raft_side.Raft.Snapshot.{take_snapshot, cond_install_snapshot}
use raft_side.Raft.Server.{start, make, get_raft_state_size, kill}
use raft_side.ShardCtrler.Types.{Config, default_config}
use raft_side.ShardKv.Strings.{StrMap}
use raft_side.ShardKv.Types.{
  Err, ok, err_wrong_leader, err_timeout, err_not_ready, is_get, OperationContext, copy_context,
  CommandRequest, CommandResponse, ShardOperationRequest, ShardOperationResponse, Command,
  delete_shards,
}
use raft_side.ShardKv.Shard.{Shard, deep_copy}
use raft_side.ShardKv.State.{
  ShardKv, init_state_machines, is_duplicate_request, get_notify_chan, remove_outdated_notify_chan,
}
use raft_side.ShardKv.Apply.{reply, apply_command}

-- What `takeSnapshot` writes.
pub record KvState : Type 0 where
  pub state_machines : Dict Shard
  pub last_operations : Dict OperationContext
  pub current_config : Config
  pub last_config : Config

-- labgob's encoder and decoder at the four values of `takeSnapshot`. The decoder fills four
-- variables, and the code goes on with what is in them where it fails; an encoding is not empty.
pub record KvCodec : Type 0 where
  pub encode_kv : KvState → List ℕ
  pub decode_kv : List ℕ → KvState
  pub decode-encode_kv : (s : KvState) → decode_kv (encode_kv s) ≡ s
  pub encode_kv-ne_nil : (s : KvState) → encode_kv s ≢ []

abbrev pub kv_state : ShardKv → KvState
kv_state sk = record {
  state_machines = sk.state_machines;
  last_operations = sk.last_operations;
  current_config = sk.current_config;
  last_config = sk.last_config;
}

unfoldable pub need_snapshot : ShardKv → Bool
need_snapshot sk = elim sk.max_raft_state [
  | none ↦ false
  | some bound ↦ leb bound (get_raft_state_size sk.rf)
]

-- `ch <- response`
unfoldable pub notify : ShardKv → (index : ℕ) → CommandResponse → Option ShardKv
notify sk index response =
    let (sk', chan) = get_notify_chan sk index in
    elim chan [
      | none ↦ some (record sk' { notify_chans = insert index (some response) sk'.notify_chans })
      | some waiting ↦ none
    ]

-- `Command` up to the call of `Execute`: the answer to a duplicate.
unfoldable pub answer_duplicate : ShardKv → CommandRequest → Option CommandResponse
answer_duplicate sk request =
    if not (is_get request.op) && is_duplicate_request sk request.client_id request.command_id
    then (do context ← lookup request.client_id sk.last_operations; some context.last_response)
    else none

-- The `select` of `Execute`, with the clean-up: what the channel holds, or the time-out.
unfoldable pub finish_execute : ShardKv → (index : ℕ) → ShardKv × CommandResponse
finish_execute sk index =
    let (sk', chan) = get_notify_chan sk index in
    (
      remove_outdated_notify_chan sk' index,
      elim chan [ none ↦ reply err_timeout | some response ↦ response ],
    )

unfoldable pub copy_shards : List ℕ → Dict Shard → Dict StrMap → Option (Dict StrMap)
copy_shards [] machines shards = some shards
copy_shards (shard_id ∷ shard_ids) machines shards = do
  shard ← lookup shard_id machines
  copy_shards shard_ids machines (insert shard_id (deep_copy shard) shards)

unfoldable pub copy_contexts : Dict OperationContext → Dict OperationContext
copy_contexts [] = []
copy_contexts ((client_id, context) ∷ contexts) =
    (client_id, copy_context context) ∷ copy_contexts contexts

abbrev pub refuse : Err → ShardOperationResponse
refuse e = record { err = e; config_num = 0; shards = []; last_operations = [] }

unfoldable pub get_shards_data : ShardKv → ShardOperationRequest → Option ShardOperationResponse
unfolding copy_shards copy_contexts
get_shards_data sk request =
    if not ((get_state sk.rf).1)
    then some (refuse err_wrong_leader)
    else (if ltb sk.current_config.num request.config_num then some (refuse err_not_ready) else (do
      shards ← copy_shards request.shard_ids sk.state_machines []
      some (record {
        err = ok;
        config_num = request.config_num;
        shards = shards;
        last_operations = copy_contexts sk.last_operations;
      })))

-- `DeleteShardsData` up to the call of `Execute`: its answer at once, or the command to execute.
unfoldable pub delete_shards_data : ShardKv → ShardOperationRequest → Err ⊎ Command
delete_shards_data sk request =
    if not ((get_state sk.rf).1)
    then inl err_wrong_leader
    else (if ltb request.config_num sk.current_config.num
        then inl ok
        else inr (delete_shards request))

unfoldable pub kill_server : ShardKv → ShardKv
kill_server sk = record sk { dead = true; rf = kill sk.rf }

module _ ⦃kv_codec : KvCodec⦄ where
  unfoldable pub restore_snapshot : ShardKv → List ℕ → ShardKv
  restore_snapshot sk [] = init_state_machines sk
  restore_snapshot sk (b ∷ bytes) =
      let s = kv_codec.decode_kv (b ∷ bytes) in
      record sk {
        state_machines = s.state_machines;
        last_operations = s.last_operations;
        current_config = s.current_config;
        last_config = s.last_config;
      }

  module _ ⦃codec : RaftCodec Command⦄ where
    unfoldable pub save_kv : ShardKv → (index : ℕ) → Option ShardKv
    save_kv sk index = do
      rf ← take_snapshot sk.rf index (kv_codec.encode_kv (kv_state sk))
      some (record sk { rf = rf })

    -- `StartServer`, less the goroutines that it starts.
    unfoldable pub start_server :
        (peers me : ℕ) → Persister → (max_raft_state : Option ℕ) → (gid : ℕ) → Option ShardKv
    start_server peers me persister max_raft_state gid = do
      rf ← make peers me persister
      let sk : ShardKv = record {
        rf = rf;
        dead = false;
        gid = gid;
        max_raft_state = max_raft_state;
        last_applied = 0;
        last_config = default_config;
        current_config = default_config;
        state_machines = [];
        last_operations = [];
        notify_chans = [];
      }
      some (restore_snapshot sk (read_snapshot persister))

    -- `Execute` up to its `select`: the index to wait at, or `ErrWrongLeader`.
    unfoldable pub execute : ShardKv → Command → Option (ShardKv × Option ℕ)
    execute sk command = do
      (rf, started) ← start sk.rf command
      let sk' = record sk { rf = rf }
      elim started [
        | none ↦ some (sk', none)
        | some (index, term) ↦ some ((get_notify_chan sk' index).0, some index)
      ]

    -- A command message of `applier`, from the switch on.
    unfoldable pub handle_command : ShardKv → Command → (term index : ℕ) → Option ShardKv
    handle_command sk command term index = do
      (applied, response) ← apply_command sk command
      let (current_term, is_leader) = get_state applied.rf
      notified ←
          if is_leader && term == current_term then notify applied index response else some applied
      if need_snapshot notified then save_kv notified index else some notified

    -- One message of `applier`; a nil command fails the type assertion.
    unfoldable pub apply_message : ShardKv → ApplyMsg Command → Option ShardKv
    apply_message sk (command_msg command term index) =
        if leb index sk.last_applied
        then some sk
        else (do c ← command; handle_command (record sk { last_applied = index }) c term index)
    apply_message sk (snapshot_msg snapshot term index) = do
      (rf, installed) ← cond_install_snapshot sk.rf term index snapshot
      let sk' = record sk { rf = rf }
      some (
          if installed
          then record (restore_snapshot sk' snapshot) { last_applied = index }
          else sk')

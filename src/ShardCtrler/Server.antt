-- ===== src/ShardCtrler/Server.antt =====
-- shardctrler/server.go: the applier, the call `Command` of a client, and the channels between them.
-- A channel has room for one response; a send to a full one blocks for ever, and is `none`, as a
-- panic is. `order` and `rounds` are those of `Join`.
use raft_side.Prelude.{
  ℕ, Bool, false, not, ◌&&◌, Option, none, some, List, ◌>>=◌, leb, ◌==◌, if◌then◌else◌,
}
use raft_side.Prelude.Dict.{Dict, lookup, insert, delete}
use raft_side.ShardCtrler.Types.{
  Config, default_config, OperationOp, op_join, op_leave, op_move, op_query, is_query, Err, ok,
  err_wrong_leader, err_timeout, CommandRequest, CommandResponse, OperationContext,
}
use raft_side.ShardCtrler.Machine.{MapOrder, join, leave, move, query}

pub record ShardCtrler : Type 0 where
  pub state_machine : List Config
  pub last_operations : Dict OperationContext
  pub notify_chans : Dict (Option CommandResponse)

unfoldable pub is_duplicate_request : ShardCtrler → (client_id request_id : ℕ) → Bool
is_duplicate_request sc client_id request_id = elim (lookup client_id sc.last_operations) [
  | none ↦ false
  | some context ↦ leb request_id context.max_applied_command_id
]

unfoldable pub get_notify_chan : ShardCtrler → (index : ℕ) → ShardCtrler × Option CommandResponse
get_notify_chan sc index = elim (lookup index sc.notify_chans) [
  | none ↦ (record sc { notify_chans = insert index none sc.notify_chans }, none)
  | some chan ↦ (sc, chan)
]

unfoldable pub remove_outdated_notify_chan : ShardCtrler → (index : ℕ) → ShardCtrler
remove_outdated_notify_chan sc index = record sc { notify_chans = delete index sc.notify_chans }

-- `ch <- response`
unfoldable pub notify : ShardCtrler → (index : ℕ) → CommandResponse → Option ShardCtrler
notify sc index response =
    let (sc', chan) = get_notify_chan sc index in
    elim chan [
      | none ↦ some (record sc' { notify_chans = insert index (some response) sc'.notify_chans })
      | some waiting ↦ none
    ]

-- `Config{}`, which a response holds when nothing was queried; all its shards are 0.
abbrev pub done : Err → CommandResponse
done e = record { err = e; config = default_config }

module _ (order : MapOrder) (rounds : ℕ) where
  unfoldable pub run_op :
      OperationOp → List Config → CommandRequest → Option (List Config × CommandResponse)
  run_op op_join configs command = do
    configs' ← join order rounds configs command.servers
    some (configs', done ok)
  run_op op_leave configs command = do
    configs' ← leave order configs command.gids
    some (configs', done ok)
  run_op op_move configs command = do
    configs' ← move configs command.shard command.gid
    some (configs', done ok)
  run_op op_query configs command = do
    config ← query configs command.num
    some (configs, record { err = ok; config = config })

  unfoldable pub apply_log_to_state_machine :
      ShardCtrler → CommandRequest → Option (ShardCtrler × CommandResponse)
  apply_log_to_state_machine sc command = do
    (configs, response) ← run_op command.op sc.state_machine command
    some (record sc { state_machine = configs }, response)

  -- The part of `applier` that changes the state machine.
  unfoldable pub apply_command :
      ShardCtrler → CommandRequest → Option (ShardCtrler × CommandResponse)
  apply_command sc command =
      if not (is_query command.op) && is_duplicate_request sc command.client_id command.command_id
      then (do
        context ← lookup command.client_id sc.last_operations
        some (sc, context.last_response))
      else (do
        (sc', response) ← apply_log_to_state_machine sc command
        let context : OperationContext = record {
          max_applied_command_id = command.command_id;
          last_response = response;
        }
        some (
          if is_query command.op then sc' else record sc' {
            last_operations = insert command.client_id context sc'.last_operations;
          },
          response,
        ))

  -- One command message of `applier`; `current_term` and `is_leader` are what `GetState` returns.
  unfoldable pub apply_message :
      ShardCtrler
      → CommandRequest
      → (command_term command_index current_term : ℕ) → (is_leader : Bool) → Option ShardCtrler
  apply_message sc command command_term command_index current_term is_leader = do
    (sc', response) ← apply_command sc command
    if is_leader && command_term == current_term
        then notify sc' command_index response
        else some sc'

-- `Command` up to the call of `Start`: the answer to a duplicate.
unfoldable pub answer_duplicate : ShardCtrler → CommandRequest → Option CommandResponse
answer_duplicate sc request =
    if not (is_query request.op) && is_duplicate_request sc request.client_id request.command_id
    then (do context ← lookup request.client_id sc.last_operations; some context.last_response)
    else none

-- `Command` after `Start`, which gave an index if the node is the leader: the answer, if there is
-- one at once.
unfoldable pub after_start : ShardCtrler → Option ℕ → ShardCtrler × Option CommandResponse
after_start sc none = (sc, some (done err_wrong_leader))
after_start sc (some index) = ((get_notify_chan sc index).0, none)

-- The `select` of `Command`, with the clean-up: what the channel holds, or the time-out.
unfoldable pub finish_command : ShardCtrler → (index : ℕ) → ShardCtrler × CommandResponse
finish_command sc index =
    let (sc', chan) = get_notify_chan sc index in
    (
      remove_outdated_notify_chan sc' index,
      elim chan [ none ↦ done err_timeout | some response ↦ response ],
    )

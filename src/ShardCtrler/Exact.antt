-- ===== src/ShardCtrler/Exact.antt =====
-- A command of a client changes the configurations at most once.
use raft_side.Prelude.{
  ◌>>=◌, [], ◌∷◌, ℕ, ◌≡◌, inl, inr, arith, true, some, Option-cases, List, ◌≤◌, false, Option, ◌∷◌,
}
use raft_side.Prelude.Dict.{lookup-insert}
use raft_side.ShardCtrler.Types.{CommandRequest, CommandResponse, OperationContext, is_query}
use raft_side.ShardCtrler.Machine.{MapOrder}
use raft_side.ShardCtrler.Server.{
  ShardCtrler, is_duplicate_request, apply_command, apply_log_to_state_machine,
}

-- The client's last command was at least the given one.
abbrev pub Applied : ShardCtrler → (client_id command_id : ℕ) → Type 0
Applied sc client_id command_id = is_duplicate_request sc client_id command_id ≡ true

module _ (order : MapOrder) (rounds : ℕ) where
  apply_log_to_state_machine-last_operations :
      (sc : ShardCtrler) (command : CommandRequest) {sc' : ShardCtrler} {r : CommandResponse}
      → apply_log_to_state_machine order rounds sc command ≡ some (sc', r)
      → sc'.last_operations ≡ sc.last_operations
  unfolding apply_log_to_state_machine
  apply_log_to_state_machine-last_operations sc command e = ground arith

  -- Applying a command keeps every client's record of what was applied.
  pub apply_command-Applied :
      (sc : ShardCtrler) (command : CommandRequest) (client_id command_id : ℕ) {sc' : ShardCtrler}
      {r : CommandResponse}
      → apply_command order rounds sc command ≡ some (sc', r)
      → Applied sc client_id command_id
      → Applied sc' client_id command_id
  unfolding apply_command is_duplicate_request
  apply_command-Applied sc command client_id command_id e h =
      elim (Option-cases (apply_log_to_state_machine order rounds sc command)) [
        | inl failed ↦ ground arith
        | inr ((a, r), ran) ↦
            let same = apply_log_to_state_machine-last_operations sc command ran in
            let context : OperationContext = record {
              max_applied_command_id = command.command_id;
              last_response = r;
            } in
            ground (arith, lookup-insert command.client_id client_id context a.last_operations)
      ]

  apply_command-records :
      (sc : ShardCtrler) (command : CommandRequest) {sc' : ShardCtrler} {r : CommandResponse}
      → apply_command order rounds sc command ≡ some (sc', r)
      → is_query command.op ≡ false
      → Applied sc' command.client_id command.command_id
  unfolding apply_command is_duplicate_request
  apply_command-records sc command e h =
      elim (Option-cases (apply_log_to_state_machine order rounds sc command)) [
        | inl failed ↦ ground arith
        | inr ((a, r), ran) ↦ ground (
          arith,
          lookup-insert command.client_id command.client_id
              (record { max_applied_command_id = command.command_id; last_response = r })
              a.last_operations,
        )
      ]

  apply_command-skips :
      (sc : ShardCtrler) (command : CommandRequest) {sc' : ShardCtrler} {r : CommandResponse}
      → apply_command order rounds sc command ≡ some (sc', r)
      → is_query command.op ≡ false
      → Applied sc command.client_id command.command_id
      → sc' ≡ sc
  unfolding apply_command
  apply_command-skips sc command e h dup = ground arith

  Applied-le :
      (sc : ShardCtrler) (client_id low high : ℕ)
      → Applied sc client_id high
      → low ≤ high
      → Applied sc client_id low
  unfolding is_duplicate_request
  Applied-le sc client_id low high h le = ground arith

  -- The applier over a sequence of commands, the responses dropped.
  unfoldable pub apply_commands : ShardCtrler → List CommandRequest → Option ShardCtrler
  apply_commands sc [] = some sc
  apply_commands sc (command ∷ commands) = do
    (sc', r) ← apply_command order rounds sc command
    apply_commands sc' commands

  apply_commands-Applied :
      (sc : ShardCtrler) (commands : List CommandRequest) (client_id command_id : ℕ)
      {sc' : ShardCtrler}
      → apply_commands sc commands ≡ some sc'
      → Applied sc client_id command_id
      → Applied sc' client_id command_id
  unfolding apply_commands
  apply_commands-Applied sc [] client_id command_id e h = ground arith
  apply_commands-Applied sc (command ∷ commands) client_id command_id {sc'} e h =
      elim (Option-cases (apply_command order rounds sc command)) [
        | inl failed ↦ ground arith
        | inr ((a, r), ran) ↦
            apply_commands-Applied a commands client_id command_id {sc' = sc'}
              (rw (ran, apply_commands) at e)
              (apply_command-Applied sc command client_id command_id ran h)
      ]

  -- Once a client's command that is no query was applied, then after any other commands a command of
  -- the same client that is no query, with the same number or a lower one, changes nothing.
  pub apply_command-once :
      (sc : ShardCtrler) (command again : CommandRequest) (commands : List CommandRequest)
      (after before last : ShardCtrler) (r s : CommandResponse)
      → apply_command order rounds sc command ≡ some (after, r)
      → is_query command.op ≡ false
      → apply_commands after commands ≡ some before
      → apply_command order rounds before again ≡ some (last, s)
      → is_query again.op ≡ false
      → again.client_id ≡ command.client_id
      → again.command_id ≤ command.command_id
      → last ≡ before
  apply_command-once sc command again commands after before last r s one change between two change'
        who low =
      let noted = apply_command-records sc command one change in
      let kept =
        apply_commands-Applied after commands command.client_id command.command_id between noted in
      let dup = Applied-le before command.client_id again.command_id command.command_id kept low in
      apply_command-skips before again two change' (rw who dup)

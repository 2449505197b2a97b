-- ===== src/ShardCtrler/Chain.antt =====
-- The configurations are numbered in order, and no operation changes an old one.
use raft_side.Prelude.{
  ℕ, pos, negsuc, ℤ, ◌+◌, ◌-◌, ◌<◌, ◌≡◌, inl, inr, ◌∙◌, ap, arith, some, List, [], ◌∷◌, ◌++◌,
  Option-cases, length, get_elem?, length-append, get_elem?-append_left, get_elem?-append_right,
  get_elem?-some-lt, ◌⊎◌, Bool-cases, ltb, sym, if◌then◌else◌,
}
use Prim.Native.String.{String}
use raft_side.Prelude.Dict.{Dict}
use raft_side.ShardCtrler.Types.{
  Config, CommandRequest, CommandResponse, OperationOp, op_join, op_leave, op_move, op_query,
}
use raft_side.ShardCtrler.Machine.{
  MapOrder, join, leave, move, join_config, leave_config, move_config,
}
use raft_side.ShardCtrler.Server.{run_op, ShardCtrler, apply_command, apply_log_to_state_machine}

-- The configuration at a place has that place as its number; there is one at least.
pub record IsChain (configs : List Config) : Type 0 where
  pub nonempty : 0 < length configs
  pub numbered : (i : ℕ) (c : Config) → get_elem? configs i ≡ some c → c.num ≡ i

-- The old configurations, with at most one more, whose number is the next.
abbrev pub Extends : List Config → List Config → Type 0
Extends configs configs' =
    (configs' ≡ configs)
    ⊎ ((c : Config) × (configs' ≡ configs ++ c ∷ []) × (c.num ≡ length configs))

module _ (order : MapOrder) (rounds : ℕ) where
  join_config-num :
      (configs : List Config) (joining : Dict (List String)) {c : Config}
      → join_config order rounds configs joining ≡ some c
      → c.num ≡ length configs
  unfolding join_config
  join_config-num configs joining e = ground arith

  leave_config-num :
      (configs : List Config) (gids : List ℕ) {c : Config}
      → leave_config order configs gids ≡ some c
      → c.num ≡ length configs
  unfolding leave_config
  leave_config-num configs gids e = ground arith

  move_config-num :
      (configs : List Config) (shard gid : ℕ) {c : Config}
      → move_config configs shard gid ≡ some c
      → c.num ≡ length configs
  unfolding move_config
  move_config-num configs shard gid e = ground arith

  run_op-Extends :
      (op : OperationOp) (configs : List Config) (command : CommandRequest) {configs' : List Config}
      {r : CommandResponse}
      → run_op order rounds op configs command ≡ some (configs', r)
      → Extends configs configs'
  unfolding run_op join leave move
  run_op-Extends op_join configs command e =
      elim (Option-cases (join_config order rounds configs command.servers)) [
        | inl failed ↦ absurd (ground arith)
        | inr (c, ran) ↦ inr (c, ground arith, join_config-num configs command.servers ran)
      ]
  run_op-Extends op_leave configs command e =
      elim (Option-cases (leave_config order configs command.gids)) [
        | inl failed ↦ absurd (ground arith)
        | inr (c, ran) ↦ inr (c, ground arith, leave_config-num configs command.gids ran)
      ]
  run_op-Extends op_move configs command e =
      elim (Option-cases (move_config configs command.shard command.gid)) [
        | inl failed ↦ absurd (ground arith)
        | inr (c, ran) ↦
            inr (c, ground arith, move_config-num configs command.shard command.gid ran)
      ]
  run_op-Extends op_query configs command e = inl (ground arith)

  -- A command runs its operation on the configurations, or leaves them.
  pub apply_command-run_op :
      (sc : ShardCtrler) (command : CommandRequest) {sc' : ShardCtrler} {r : CommandResponse}
      → apply_command order rounds sc command ≡ some (sc', r)
      → (sc'.state_machine ≡ sc.state_machine)
        ⊎ ((s : CommandResponse) × (run_op order rounds command.op sc.state_machine command
              ≡ some (sc'.state_machine, s)))
  unfolding apply_command apply_log_to_state_machine
  apply_command-run_op sc command {sc'} e =
      elim (Option-cases (run_op order rounds command.op sc.state_machine command)) [
        | inl failed ↦ inl (ground arith)
        | inr ((configs, r), ran) ↦
            let machine : (sc'.state_machine ≡ sc.state_machine) ⊎ (sc'.state_machine ≡ configs) =
              ground arith in
            elim machine [ inl kept ↦ inl kept | inr new ↦ inr (r, rw new ran) ]
      ]

  apply_command-Extends :
      (sc : ShardCtrler) (command : CommandRequest) {sc' : ShardCtrler} {r : CommandResponse}
      → apply_command order rounds sc command ≡ some (sc', r)
      → Extends sc.state_machine sc'.state_machine
  apply_command-Extends sc command {sc'} e = elim (apply_command-run_op sc command {sc' = sc'} e) [
    | inl kept ↦ inl kept
    | inr (s, ran) ↦ run_op-Extends command.op sc.state_machine command ran
  ]

keeps :
    (configs configs' : List Config) (i : ℕ) (c : Config)
    → Extends configs configs'
    → get_elem? configs i ≡ some c
    → get_elem? configs' i ≡ some c
keeps configs configs' i c (inl e) at = rw e at
keeps configs configs' i c (inr (d, e, n)) at =
    ap (λ l. get_elem? l i) e
    ∙ get_elem?-append_left configs (d ∷ []) i (get_elem?-some-lt configs i at)
    ∙ at

numbered-append :
    (configs : List Config) (c d : Config) (i : ℕ)
    → IsChain configs
    → c.num ≡ length configs
    → get_elem? (configs ++ c ∷ []) i ≡ some d
    → d.num ≡ i
numbered-append configs c d i h n at = elim (Bool-cases (ltb i (length configs))) [
  | inl low ↦ h.numbered i d (sym (get_elem?-append_left configs (c ∷ []) i (ground arith)) ∙ at)
  | inr high ↦
      let bound = get_elem?-some-lt (configs ++ c ∷ []) i at in
      let last : i ≡ length configs + 0 = ground (arith, bound, length-append configs (c ∷ [])) in
      let here = get_elem?-append_right configs (c ∷ []) 0 in
      let same : some c ≡ some d = sym (ap (get_elem? (configs ++ c ∷ [])) last ∙ here) ∙ at in
      ground arith
]

Extends-IsChain :
    (configs configs' : List Config) → Extends configs configs' → IsChain configs → IsChain configs'
Extends-IsChain configs configs' (inl e) h = rw e h
Extends-IsChain configs configs' (inr (c, e, n)) h = record {
  nonempty = omega (arith, ap length e ∙ length-append configs (c ∷ []));
  numbered = λ i d at. numbered-append configs c d i h n (rw e at at);
}

module _ (order : MapOrder) (rounds : ℕ) where
  -- Applying a command keeps the configurations numbered by their places, one at least, and keeps
  -- every configuration that there was at its place.
  pub apply_command-IsChain :
      (sc : ShardCtrler) (command : CommandRequest) (sc' : ShardCtrler) (r : CommandResponse)
      → IsChain sc.state_machine
      → apply_command order rounds sc command ≡ some (sc', r)
      → IsChain sc'.state_machine
        × ((i : ℕ) (c : Config)
            → get_elem? sc.state_machine i ≡ some c
            → get_elem? sc'.state_machine i ≡ some c)
  apply_command-IsChain sc command sc' r h e =
      let extended = apply_command-Extends order rounds sc command e in
      (
        Extends-IsChain sc.state_machine sc'.state_machine extended h,
        λ i c at. keeps sc.state_machine sc'.state_machine i c extended at,
      )

-- The number of the configuration that a query asks for, among so many.
abbrev pub asked : ℤ → (count : ℕ) → ℕ
asked (pos n) count = if ltb n count then n else count - 1
asked (negsuc n) count = count - 1

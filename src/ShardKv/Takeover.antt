-- ===== src/ShardKv/Takeover.antt =====
-- What `applyInsertShards` of shardkv/server.go does where every shard that it is given is being pulled.
use raft_side.Prelude.{
  ℕ, ◌≡◌, refl, ap, ◌∙◌, inl, inr, arith, true, none, some, [], ◌∷◌, ◌==◌, Bool-cases, leb,
}
use raft_side.Prelude.Dict.{Dict, lookup, insert, lookup-insert, Distinct}
use raft_side.ShardKv.Strings.{StrMap}
use raft_side.ShardKv.Types.{OperationContext, pulling, is_status}
use raft_side.ShardKv.Shard.{Shard}
use raft_side.ShardKv.Apply.{insert_all, filled, merge_operation, merge_operations}
use raft_side.ShardKv.Once.{noted, merge_operations-noted}

-- Shards that are all being pulled are all filled, and no other shard changes.
pub record AllFilled (shards : Dict StrMap) (machines machines' : Dict Shard) : Type 0 where
  pub given :
      (i : ℕ) (entries : StrMap) (shard : Shard)
      → lookup i shards ≡ some entries
      → lookup i machines ≡ some shard
      → lookup i machines' ≡ some (filled entries shard)
  pub others : (i : ℕ) → lookup i shards ≡ none → lookup i machines' ≡ lookup i machines

abbrev pub ArePulled : Dict StrMap → Dict Shard → Type 0
ArePulled shards machines =
    (i : ℕ) (entries : StrMap)
    → lookup i shards ≡ some entries
    → (shard : Shard) × (lookup i machines ≡ some shard) × (is_status shard.status pulling ≡ true)

AllFilled-cons :
    (j : ℕ) (entries : StrMap) (s : Shard) (shards : Dict StrMap) (machines machines' : Dict Shard)
    → lookup j shards ≡ none
    → lookup j machines ≡ some s
    → AllFilled shards (insert j (filled entries s) machines) machines'
    → AllFilled ((j, entries) ∷ shards) machines machines'
unfolding lookup
AllFilled-cons j entries s shards machines machines' new found all =
    let put_in = λ (i : ℕ). lookup-insert j i (filled entries s) machines in
    record {
      given = λ i es shard at there. elim (Bool-cases (j == i)) [
        | inl same ↦
            let kept = all.others i (ground arith) in
            let these : entries ≡ es = ground arith in
            let this : s ≡ shard = ground arith in
            kept
            ∙ ground (arith, put_in i)
            ∙ ap some (ap (λ t. filled t s) these ∙ ap (filled es) this)
        | inr other ↦ all.given i es shard (ground arith) (ground (arith, put_in i))
      ];
      others = λ i at. all.others i (ground arith) ∙ ground (arith, put_in i);
    }

pub insert_all-fills :
    (shards : Dict StrMap) (machines : Dict Shard)
    → Distinct shards
    → ArePulled shards machines
    → (machines' : Dict Shard) × (insert_all shards machines ≡ some machines')
      × AllFilled shards machines machines'
unfolding insert_all lookup
insert_all-fills [] machines h p = (
  machines,
  refl,
  record { given = λ i entries shard at. absurd (ground arith); others = λ i at. refl },
)
insert_all-fills ((j, entries) ∷ shards) machines (new, h) p =
    let (s, found, pulled) = p j entries (ground arith) in
    let next = insert j (filled entries s) machines in
    let later : ArePulled shards next = λ i es at.
      let (t, there, waits) = p i es (ground arith) in
      (t, ground (arith, lookup-insert j i (filled entries s) machines), waits) in
    let (machines', ran, all) = insert_all-fills shards next h later in
    (machines', ground arith, AllFilled-cons j entries s shards machines machines' new found all)

-- The records of writes that are handed over count with the receiver.
merge_operation-takes :
    (c : ℕ) (context : OperationContext) (m : Dict OperationContext) (command_id : ℕ)
    → leb command_id context.max_applied_command_id ≡ true
    → noted (merge_operation c context m) c command_id ≡ true
unfolding merge_operation noted
merge_operation-takes c context m command_id h = ground (arith, lookup-insert c c context m)

pub merge_operations-takes :
    (contexts m : Dict OperationContext) (c command_id : ℕ)
    → noted contexts c command_id ≡ true
    → noted (merge_operations contexts m) c command_id ≡ true
unfolding merge_operations noted lookup
merge_operations-takes [] m c command_id h = absurd (ground arith)
merge_operations-takes ((d, context) ∷ contexts) m c command_id h = elim (Bool-cases (d == c)) [
  | inl same ↦
      let one : d ≡ c = ground arith in
      let enough : leb command_id context.max_applied_command_id ≡ true = ground arith in
      merge_operations-noted contexts (merge_operation d context m) c command_id
        (rw one (merge_operation-takes c context m command_id enough))
  | inr other ↦
      merge_operations-takes contexts (merge_operation d context m) c command_id (ground arith)
]

-- ===== src/ShardKv/Transfer.antt =====
-- The hand-over of shards from one group to another: what `GetShardsData` of the one answers, put
-- into the log of the other and applied by `applyInsertShards`.
use raft_side.Prelude.{
  ℕ, ◌≡◌, refl, sym, ap, ◌∙◌, inl, inr, arith, true, false, none, some, List, [], ◌∷◌, ◌⊎◌,
  Option-cases, Bool-cases,
}
use raft_side.Prelude.Dict.{Dict, lookup, insert, lookup-insert, Distinct, insert-Distinct}
use raft_side.ShardKv.Strings.{Str, StrMap}
use raft_side.ShardKv.Types.{ok, ShardOperationRequest, ShardOperationResponse, pulling, g_cing}
use raft_side.ShardKv.Shard.{Shard, deep_copy, key2shard}
use raft_side.ShardKv.State.{ShardKv, is_duplicate_request}
use raft_side.ShardKv.Apply.{apply_insert_shards, filled, reply, merge_operations}
use raft_side.ShardKv.Server.{get_shards_data, copy_shards}
use raft_side.ShardKv.Once.{noted, merge_operations-noted}
use raft_side.ShardKv.Handover.{requested, get_shards_data_lem}
use raft_side.ShardKv.Filled.{IsMap, find-fill_empty}
use raft_side.ShardKv.Refine.{view, view-find, view-elsewhere}
use raft_side.ShardKv.Takeover.{AllFilled, ArePulled, insert_all-fills, merge_operations-takes}

-- The answer has each shard once, and only shards that were asked for.
copy_shards-Distinct :
    (ids : List ℕ) (machines : Dict Shard) (acc : Dict StrMap) {out : Dict StrMap}
    → copy_shards ids machines acc ≡ some out
    → Distinct acc
    → Distinct out
unfolding copy_shards
copy_shards-Distinct [] machines acc {out} e h = let same : out ≡ acc = ground arith in rw same h
copy_shards-Distinct (j ∷ ids) machines acc {out} e h = elim (Option-cases (lookup j machines)) [
  | inl missing ↦ absurd (ground arith)
  | inr (s, found) ↦
      copy_shards-Distinct ids machines (insert j (deep_copy s) acc) {out = out} (ground arith)
        (insert-Distinct j (deep_copy s) acc h)
]

copy_shards-only :
    (ids : List ℕ) (machines : Dict Shard) (acc : Dict StrMap) (i : ℕ) {out : Dict StrMap}
    → copy_shards ids machines acc ≡ some out
    → requested i ids ≡ false
    → lookup i out ≡ lookup i acc
unfolding copy_shards
copy_shards-only [] machines acc i e h = ground arith
copy_shards-only (j ∷ ids) machines acc i {out} e h = elim (Option-cases (lookup j machines)) [
  | inl missing ↦ absurd (ground arith)
  | inr (s, found) ↦
      copy_shards-only ids machines (insert j (deep_copy s) acc) i {out = out} (ground arith)
        (ground arith)
      ∙ ground (arith, lookup-insert j i (deep_copy s) acc)
]

-- What the receiver holds of the shards that it asks for: nothing, and they are being pulled.
abbrev pub IsWaiting : ShardKv → List ℕ → Type 0
IsWaiting sk ids =
    (i : ℕ)
    → requested i ids ≡ true
    → (shard : Shard) × (lookup i sk.state_machines ≡ some shard)
      × (shard.status ≡ pulling)
      × (shard.kv ≡ [])

-- What the sender holds of them.
abbrev pub Holds : ShardKv → List ℕ → Type 0
Holds sk ids =
    (i : ℕ)
    → requested i ids ≡ true
    → (shard : Shard) × (lookup i sk.state_machines ≡ some shard) × IsMap shard.kv

-- The receiver afterwards.
pub record IsHandedOver (sender receiver after : ShardKv) (ids : List ℕ) : Type 0 where
  pub moved : (key : Str) → requested (key2shard key) ids ≡ true → view after key ≡ view sender key
  pub kept :
      (key : Str) → requested (key2shard key) ids ≡ false → view after key ≡ view receiver key
  pub collects :
      (i : ℕ)
      → requested i ids ≡ true
      → (shard : Shard) × (lookup i after.state_machines ≡ some shard) × (shard.status ≡ g_cing)
  pub noted_there :
      (c command_id : ℕ)
      → is_duplicate_request sender c command_id ≡ true
      → is_duplicate_request after c command_id ≡ true
  pub noted_here :
      (c command_id : ℕ)
      → is_duplicate_request receiver c command_id ≡ true
      → is_duplicate_request after c command_id ≡ true

module _ (sender receiver : ShardKv) (request : ShardOperationRequest)
    (response : ShardOperationResponse) where
  -- Every shard of the answer waits at the receiver.
  answer-ArePulled :
      ((i : ℕ) → requested i request.shard_ids ≡ false → lookup i response.shards ≡ none)
      → IsWaiting receiver request.shard_ids
      → ArePulled response.shards receiver.state_machines
  answer-ArePulled only waits i entries at = elim (Bool-cases (requested i request.shard_ids)) [
    | inl asked ↦ let (shard, there, pulls, empty) = waits i asked in (shard, there, ground arith)
    | inr not_asked ↦ absurd (ground (arith, only i not_asked))
  ]

  moved-view :
      (machines' : Dict Shard) (after : ShardKv) (key : Str)
      → after.state_machines ≡ machines'
      → AllFilled response.shards receiver.state_machines machines'
      → ((i : ℕ) (shard : Shard)
          → requested i request.shard_ids ≡ true
          → lookup i sender.state_machines ≡ some shard
          → lookup i response.shards ≡ some shard.kv)
      → Holds sender request.shard_ids
      → IsWaiting receiver request.shard_ids
      → requested (key2shard key) request.shard_ids ≡ true
      → view after key ≡ view sender key
  moved-view machines' after key same all sent holds waits asked =
      let i = key2shard key in
      let (theirs, at_sender, distinct) = holds i asked in
      let (mine, at_receiver, pulls, empty) = waits i asked in
      let here : lookup i after.state_machines ≡ some (filled theirs.kv mine) =
        ap (lookup i) same
        ∙ all.given i theirs.kv mine (sent i theirs asked at_sender) at_receiver in
      view-find after key (filled theirs.kv mine) here
      ∙ find-fill_empty key theirs.kv mine distinct empty
      ∙ sym (view-find sender key theirs at_sender)

-- The answer has each shard once, and none that was not asked for.
get_shards_data-shards :
    (sk : ShardKv) (request : ShardOperationRequest) (response : ShardOperationResponse)
    → get_shards_data sk request ≡ some response
    → Distinct response.shards
      × ((i : ℕ) → requested i request.shard_ids ≡ false → lookup i response.shards ≡ none)
unfolding get_shards_data lookup
get_shards_data-shards sk request response e =
    elim (Option-cases (copy_shards request.shard_ids sk.state_machines [])) [
      | inl failed ↦
          let none_there : response.shards ≡ [] = ground arith in
          (rw none_there tt, λ i asked. ground arith)
      | inr (out, copied) ↦
          let cases : (response.shards ≡ []) ⊎ (response.shards ≡ out) = ground arith in
          elim cases [
            | inl none_there ↦ (rw none_there tt, λ i asked. ground arith)
            | inr same ↦ (
              rw same (copy_shards-Distinct request.shard_ids sk.state_machines [] copied tt),
              λ i asked.
                  ap (lookup i) same
                  ∙ copy_shards-only request.shard_ids sk.state_machines [] i copied asked,
            )
          ]
    ]

get_shards_data-ok :
    (sk : ShardKv) (request : ShardOperationRequest) (response : ShardOperationResponse)
    → get_shards_data sk request ≡ some response
    → response.err ≡ ok
    → (response.config_num ≡ request.config_num)
      × (response.last_operations ≡ sk.last_operations)
      × ((i : ℕ) (shard : Shard)
          → requested i request.shard_ids ≡ true
          → lookup i sk.state_machines ≡ some shard
          → lookup i response.shards ≡ some shard.kv)
get_shards_data-ok sk request response e good = elim (get_shards_data_lem sk request response e) [
  | inl (follower, refused) ↦ absurd (ground arith)
  | inr (inl (leads, old, refused)) ↦ absurd (ground arith)
  | inr (inr (leads, ready, yes_ok, config, contexts, sent)) ↦ (config, contexts, sent)
]

is_duplicate_request-noted :
    (sk : ShardKv) (c command_id : ℕ)
    → is_duplicate_request sk c command_id ≡ noted sk.last_operations c command_id
unfolding is_duplicate_request noted
is_duplicate_request-noted sk c command_id = refl

-- Where the sender answers with success, for the receiver's configuration, and the shards that were
-- asked for are at the sender and wait empty at the receiver, the receiver applies the answer
-- without panic. Afterwards every key of these shards has at the receiver the value that it had at the
-- sender, every other key the value that it had at the receiver, the shards are marked for collection
-- at the sender, and a write that either group has done before is a duplicate.
pub apply_insert_shards-IsHandedOver :
    (sender receiver : ShardKv) (request : ShardOperationRequest)
    (response : ShardOperationResponse)
    → get_shards_data sender request ≡ some response
    → response.err ≡ ok
    → request.config_num ≡ receiver.current_config.num
    → Holds sender request.shard_ids
    → IsWaiting receiver request.shard_ids
    → (after : ShardKv) × (apply_insert_shards receiver response ≡ some (after, reply ok))
      × IsHandedOver sender receiver after request.shard_ids
unfolding apply_insert_shards
apply_insert_shards-IsHandedOver sender receiver request response e good current holds waits =
    let (config, contexts, sent) = get_shards_data-ok sender request response e good in
    let (distinct, only) = get_shards_data-shards sender request response e in
    let (machines', ran, all) =
      insert_all-fills response.shards receiver.state_machines distinct
        (answer-ArePulled sender receiver request response only waits) in
    let merged = merge_operations response.last_operations receiver.last_operations in
    let after : ShardKv = record receiver {
      state_machines = machines';
      last_operations = merged;
    } in
    (
      after,
      ground arith,
      record {
        moved = λ key asked.
            moved-view sender receiver request response machines' after key refl all sent holds
              waits asked;
        kept = λ key not_asked.
            view-elsewhere receiver after key
              (all.others (key2shard key) (only (key2shard key) not_asked));
        collects = λ i asked.
            let (theirs, at_sender, one) = holds i asked in
            let (mine, at_receiver, pulls, empty) = waits i asked in
            (
              filled theirs.kv mine,
              all.given i theirs.kv mine (sent i theirs asked at_sender) at_receiver,
              refl,
            );
        noted_there = λ c command_id done.
            is_duplicate_request-noted after c command_id
            ∙ merge_operations-takes response.last_operations receiver.last_operations c command_id
                (ap (λ m. noted m c command_id) contexts
                  ∙ sym (is_duplicate_request-noted sender c command_id)
                  ∙ done);
        noted_here = λ c command_id done.
            is_duplicate_request-noted after c command_id
            ∙ merge_operations-noted response.last_operations receiver.last_operations c command_id
                (sym (is_duplicate_request-noted receiver c command_id) ∙ done);
      },
    )

-- ===== src/ShardKv/Total.antt =====
-- No operation of a client makes a server panic.
use raft_side.Prelude.{
  ℕ, ◌<◌, ◌≡◌, ap, ◌∙◌, inl, inr, arith, Bool, some, [], ◌∷◌, Option-cases, Bool-cases, length,
  get_elem?-lt,
}
use raft_side.Prelude.Dict.{lookup, lookup-insert}
use raft_side.ShardCtrler.Types.{Config, n_shards}
use raft_side.ShardKv.Strings.{Str}
use raft_side.ShardKv.Types.{CommandRequest, CommandResponse, err_wrong_group}
use raft_side.ShardKv.Shard.{Shard, key2shard}
use raft_side.ShardKv.State.{ShardKv, can_serve, is_duplicate_request}
use raft_side.ShardKv.Apply.{
  apply_operation, apply_log_to_state_machines, serve, run_on_shard, reply,
}

-- The configuration names a group for each shard, and the server holds each.
pub record IsComplete (sk : ShardKv) : Type 0 where
  pub assigned : length sk.current_config.shards ≡ n_shards
  pub held : (i : ℕ) → i < n_shards → (shard : Shard) × (lookup i sk.state_machines ≡ some shard)

pub key2shard-lt : (key : Str) → key2shard key < n_shards
unfolding key2shard
key2shard-lt [] = omega arith
key2shard-lt (b ∷ bs) = omega arith

can_serve-total :
    (sk : ShardKv) (i : ℕ) → IsComplete sk → i < n_shards → (b : Bool) × (can_serve sk i ≡ some b)
unfolding can_serve
can_serve-total sk i h low =
    let (gid, at) = get_elem?-lt sk.current_config.shards i (omega (arith, h.assigned)) in
    let (shard, here) = h.held i low in
    elim (Option-cases (can_serve sk i)) [ inl failed ↦ absurd (ground arith) | inr found ↦ found ]

serve-IsComplete :
    (sk : ShardKv) (request : CommandRequest) (i : ℕ)
    → IsComplete sk
    → i < n_shards
    → (sk' : ShardKv) × (r : CommandResponse) × (serve sk request i ≡ some (sk', r))
      × IsComplete sk'
unfolding serve is_duplicate_request apply_log_to_state_machines
serve-IsComplete sk request i h low =
    let (shard, here) = h.held i low in
    elim (Option-cases (serve sk request i)) [
      | inl failed ↦ absurd (ground arith)
      | inr ((sk', r), ran) ↦ (
        sk',
        r,
        ran,
        record {
          assigned =
              let same : sk'.current_config ≡ sk.current_config = ground arith in
              ap (λ c. length (Config.shards c)) same ∙ h.assigned;
          held = λ j p.
              let (s, at) = h.held j p in
              elim (Option-cases (lookup j sk'.state_machines)) [
                | inl gone ↦ absurd (
                    ground (
                      arith,
                      lookup-insert i j ((run_on_shard request.op shard request).0)
                          sk.state_machines,
                    ))
                | inr found ↦ found
              ];
        },
      )
    ]

-- A put, an append or a read, of any client and of any key, does not panic where the configuration
-- names a group for each of the ten shards and the server holds each; and so it stays.
pub apply_operation-IsComplete :
    (sk : ShardKv) (request : CommandRequest)
    → IsComplete sk
    → (sk' : ShardKv) × (r : CommandResponse) × (apply_operation sk request ≡ some (sk', r))
      × IsComplete sk'
unfolding apply_operation
apply_operation-IsComplete sk request h =
    let i = key2shard request.key in
    let low = key2shard-lt request.key in
    let (b, decided) = can_serve-total sk i h low in
    elim (Bool-cases b) [
      | inl serves ↦
          let (sk', r, ran, still) = serve-IsComplete sk request i h low in
          (sk', r, ground arith, still)
      | inr other ↦ (sk, reply err_wrong_group, ground arith, h)
    ]

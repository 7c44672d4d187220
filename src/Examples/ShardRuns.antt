-- ===== src/Examples/ShardRuns.antt =====
-- Shards that asyncengine/sharded.go chooses.
use pit_go.Base.{◌<◌, ◌≡◌, refl, arith}
use pit_go.Routing.{account_routing_key}
use pit_go.Sharded.{xor_bits, shard_hash, shard_index}
use pit_go.Sharded.Bounds.{shard_index_lem}

xor_10_6 : xor_bits 64 10 6 ≡ 12
unfolding xor_bits
xor_10_6 = refl

-- Lemire's reduction of 11400714819323198485 to eight shards.
account_1 : shard_index (account_routing_key 1) 8 ≡ 4
unfolding shard_index shard_hash xor_bits
account_1 = refl

shard_index_lem_example : shard_index (account_routing_key 1) 8 < 8
shard_index_lem_example = shard_index_lem (account_routing_key 1) 8 (omega arith)

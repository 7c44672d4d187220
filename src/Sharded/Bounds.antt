-- ===== src/Sharded/Bounds.antt =====
-- The bounds of the shard choice of asyncengine/sharded.go.
use pit_go.Base.{ℕ, zero, suc, ◌*◌, ◌/◌, ◌^◌, ◌<◌, subst, arith}
use native.Mathlib.Nat.{two-pow-succ, div-lt_iff_lt-mul, mul-lt-mul_of_pos_right, mul_comm}
use pit_go.Routing.{RoutingKey}
use pit_go.Sharded.{xor_bits, shard_hash, shard_index}

xor_bits-bound : (bits a b : ℕ) → xor_bits bits a b < 2 ^ bits
unfolding xor_bits
xor_bits-bound zero a b = omega arith
xor_bits-bound (suc bits) a b =
    ground (arith, two-pow-succ bits, xor_bits-bound bits (a / 2) (b / 2))

shard_hash-bound : (key : RoutingKey) → shard_hash key < 2 ^ 64
unfolding shard_hash
shard_hash-bound key = xor_bits-bound 64 _ _

scaled : (h n m : ℕ) → 0 < n → 0 < m → h < m → (h * n) / m < n
scaled h n m some_shard positive small =
    (div-lt_iff_lt-mul positive).1
      (subst (λ p. h * n < p) (mul_comm m n) (mul-lt-mul_of_pos_right small some_shard))

-- With at least one shard, the index that `shardFor` computes for any routing key is that of a shard.
pub shard_index_lem :
    (key : RoutingKey) (shard_count : ℕ)
    → 0 < shard_count
    → shard_index key shard_count < shard_count
unfolding shard_index
shard_index_lem key shard_count some_shard =
    scaled (shard_hash key) shard_count (2 ^ 64) some_shard (omega arith) (shard_hash-bound key)

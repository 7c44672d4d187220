-- ===== src/Sharded.antt =====
-- The choice of a shard in asyncengine/sharded.go.
pub mod Bounds
use pit_go.Base.{ℕ, zero, suc, ◌+◌, ◌*◌, ◌/◌, ◌%◌, ◌^◌, ◌==◌, if◌then◌else◌}
use pit_go.Routing.{RoutingKey, kind_ordinal}

-- `^` of Go on the low `bits` bits.
unfoldable pub xor_bits : ℕ → ℕ → ℕ → ℕ
xor_bits zero a b = 0
xor_bits (suc bits) a b = (if a % 2 == b % 2 then 0 else 1) + 2 * xor_bits bits (a / 2) (b / 2)

-- Multiplication of `uint64`.
abbrev pub mul64 : ℕ → ℕ → ℕ
mul64 a b = (a * b) % 2 ^ 64

abbrev pub fibonacci_hash_multiplier : ℕ
fibonacci_hash_multiplier = 11400714819323198485

abbrev pub routing_kind_hash_multiplier : ℕ
routing_kind_hash_multiplier = 15485907386658061715

-- `h` of `shardFor`.
unfoldable pub shard_hash : RoutingKey → ℕ
shard_hash key =
    xor_bits 64 (mul64 key.id fibonacci_hash_multiplier)
      (mul64 (kind_ordinal key.kind) routing_kind_hash_multiplier)

-- The index that `shardFor` reads: the high word of the 128-bit product.
unfoldable pub shard_index : RoutingKey → ℕ → ℕ
shard_index key shard_count = (shard_hash key * shard_count) / 2 ^ 64

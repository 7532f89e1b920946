-- ===== src/Broker/Fnv.antt =====
-- internal/broker/broker.go: `partitionFor`, with the FNV-1a hash of hash/fnv over 32-bit words.
-- `int(h.Sum32())` is not negative: `int` has 64 bits.
use Prim.Native.Nat.{bit_xor}
use go_kafka.Base.{ℕ, ◌*◌, ◌%◌, ◌^◌, ◌||◌, [], ◌∷◌, Bytes, leb, nat_eq, length, if◌then◌else◌}

unfoldable pub fnv_write : ℕ → Bytes → ℕ
fnv_write h [] = h
fnv_write h (c ∷ cs) = fnv_write ((bit_xor h c * 16777619) % 2 ^ 32) cs

unfoldable pub sum32 : Bytes → ℕ
unfolding fnv_write
sum32 key = fnv_write 2166136261 key

unfoldable pub partition_for : Bytes → ℕ → ℕ
unfolding sum32
partition_for key num_partitions =
    if nat_eq (length key) 0 || leb num_partitions 1 then 0 else sum32 key % num_partitions

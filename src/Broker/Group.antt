-- ===== src/Broker/Group.antt =====
-- internal/broker/broker.go: `consumerGroup`, the committed offset of each partition.
use go_kafka.Base.{ℕ, [], ltb, if◌then◌else◌, nat_key}
use go_kafka.Base.Dict.{Dict, lookup, insert, or_zero}

pub record ConsumerGroup : Type 0 where
  pub offsets : Dict ℕ ℕ

abbrev pub empty : ConsumerGroup
empty = record { offsets = [] }

-- A partition with no entry reads as 0.
unfoldable pub get_offset : ConsumerGroup → ℕ → ℕ
get_offset cg partition = or_zero 0 (lookup partition cg.offsets)

unfoldable pub commit : ConsumerGroup → ℕ → ℕ → ConsumerGroup
unfolding get_offset
commit cg partition offset =
    if ltb (get_offset cg partition) offset
    then record { offsets = insert partition offset cg.offsets }
    else cg

-- ===== src/Broker/Log.antt =====
-- internal/broker/broker.go: `Message` and the append-only log of a partition.
-- A notification channel has room for one token; it is the Boolean that says whether one waits.
-- Offsets and partition indexes are lengths of slices in memory, so int64 does not wrap on them.
use go_kafka.Base.{
  ℕ, Bool, true, false, ◌||◌, List, [], ◌∷◌, ◌++◌, map, Option, none, Bytes, length as len,
  get_elem?, if◌then◌else◌,
}
use go_kafka.Base.Int.{ℤ, pos, pos_part, ltb_ℤ, leb_ℤ}

pub record Message : Type 0 where
  pub key : Bytes
  pub value : Bytes
  pub topic : Bytes
  pub partition : ℕ
  pub offset : ℕ
  pub timestamp : ℕ
  pub attempt : ℕ

pub record Partition : Type 0 where
  pub log : List Message
  pub subs : List Bool

abbrev pub empty : Partition
empty = record { log = []; subs = [] }

-- `select { case ch <- struct{}{}: default: }` on a channel of capacity one.
abbrev pub wake : Bool → Bool
wake full = true

unfoldable pub append : Partition → Message → Partition × ℕ
append p m =
    let m' = record m { offset = len p.log } in
    (record { log = p.log ++ m' ∷ []; subs = map wake p.subs }, m'.offset)

-- The channel is named by its place in `subs`.
unfoldable pub subscribe : Partition → Partition × ℕ
subscribe p = (record p { subs = p.subs ++ false ∷ [] }, len p.subs)

unfoldable pub get : Partition → ℤ → Option Message
get p offset =
    if ltb_ℤ offset (pos 0) || leb_ℤ (pos (len p.log)) offset
    then none
    else get_elem? p.log (pos_part offset)

unfoldable pub length : Partition → ℕ
length p = len p.log

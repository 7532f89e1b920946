-- ===== src/Storage/Indices.antt =====
-- internal/storage/store.go: a secondary index, a map from a key to the set of the ids under it.
use mathlib.Core.Bool.{Bool, true, false, ◌&&◌}
use go_kafka.Base.{
  ◌≡◌, [], Option, none, some, Bytes, bytes_key, bytes_eq_iff, Option-cases, inl, inr, arith, ◌==◌,
  if◌then◌else◌,
}
use go_kafka.Base.Dict.{
  Dict, lookup, insert, remove, or_zero, Unique, Every, lookup-insert, lookup-remove, insert-Unique,
  remove-Unique, Every-insert,
}

-- `map[string]struct{}`
abbrev pub IdSet : Type 0
IdSet = Dict Bytes (Unit {0})

abbrev pub Index : Type 0
Index = Dict Bytes IdSet

abbrev pub present {ℓ} : {A : Type ℓ} → Option A → Bool
present none = false
present (some a) = true

abbrev pub ids_of : Index → Bytes → IdSet
ids_of ix k = or_zero [] (lookup k ix)

-- Whether an id stands under a key.
abbrev pub has : Index → Bytes → Bytes → Bool
has ix k id = present (lookup id (ids_of ix k))

-- `if m[k] == nil { m[k] = make(…) }; m[k][id] = struct{}{}`
unfoldable pub add_id : Index → Bytes → Bytes → Index
add_id ix k id = insert k (insert id tt (ids_of ix k)) ix

-- `delete(m[k], id)`, which does nothing on a nil map.
unfoldable pub remove_id : Index → Bytes → Bytes → Index
remove_id ix k id = elim (lookup k ix) [ none ↦ ix | some ids ↦ insert k (remove id ids) ix ]

abbrev pub IsIndex : Index → Type 0
IsIndex ix = Every (λ (k : Bytes) (ids : IdSet). Unique ids) ix

pub ids_of-Unique : (ix : Index) (k : Bytes) → IsIndex ix → Unique (ids_of ix k)
ids_of-Unique ix k v = elim (Option-cases (lookup k ix)) [
  | inl e ↦ rw e tt
  | inr (ids, e) ↦ rw e (v k ids e)
]

pub has-add_id :
    (ix : Index) (k id c j : Bytes)
    → has (add_id ix k id) c j ≡ (if (k == c) && (id == j) then true else has ix c j)
unfolding add_id
has-add_id ix k id c j = ground (
  arith,
  lookup-insert k c (insert id tt (ids_of ix k)) ix,
  lookup-insert id j tt (ids_of ix k),
  bytes_eq_iff k c,
)

pub add_id-IsIndex : (ix : Index) (k id : Bytes) → IsIndex ix → IsIndex (add_id ix k id)
unfolding add_id
add_id-IsIndex ix k id v =
    Every-insert (λ (k : Bytes) (ids : IdSet). Unique ids) k _ ix v
      (insert-Unique id tt (ids_of ix k) (ids_of-Unique ix k v))

pub has-remove_id :
    (ix : Index) (k id c j : Bytes)
    → IsIndex ix
    → has (remove_id ix k id) c j ≡ (if (k == c) && (id == j) then false else has ix c j)
unfolding remove_id lookup
has-remove_id ix k id c j v = elim (Option-cases (lookup k ix)) [
  | inl e ↦ ground (arith, bytes_eq_iff k c)
  | inr (ids, e) ↦ ground (
    arith,
    lookup-insert k c (remove id ids) ix,
    lookup-remove id j ids (v k ids e),
    bytes_eq_iff k c,
  )
]

pub remove_id-IsIndex : (ix : Index) (k id : Bytes) → IsIndex ix → IsIndex (remove_id ix k id)
unfolding remove_id
remove_id-IsIndex ix k id v = elim (Option-cases (lookup k ix)) [
  | inl e ↦ rw (e, remove_id) v
  | inr (ids, e) ↦
      rw (e, remove_id)
        (Every-insert (λ (k : Bytes) (ids : IdSet). Unique ids) k _ ix v
          (remove-Unique id ids (v k ids e)))
]

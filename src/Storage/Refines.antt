-- ===== src/Storage/Refines.antt =====
-- internal/storage/store.go: sequences of calls, and the abstract store.
use go_kafka.Base.{
  ◌≡◌, refl, List, [], ◌∷◌, Option, none, some, Bytes, bytes_key, if◌then◌else◌, ◌==◌, fun_ext, ◌∙◌,
  ap,
}
use go_kafka.Base.Text.{Unicode}
use go_kafka.Base.Time.{Time}
use go_kafka.Events.{WeekendEvent}
use go_kafka.Storage.{Store, put, get, delete, evict_expired}
use go_kafka.Storage.Invariant.{IsIndexed}
use go_kafka.Storage.Updates.{put-IsIndexed, delete-IsIndexed, get-put, delete_lem}
use go_kafka.Storage.Evict.{swept, evict_expired_lem}

-- The calls that change the store; an eviction comes with the time of its clock.
pub data Call (F : Type 0) : Type 0 where
  puts : WeekendEvent F → Call F
  deletes : Bytes → Call F
  evicts : Time → Call F

-- The abstract store, a function.
abbrev pub View : Type 0 → Type 0
View F = Bytes → Option (WeekendEvent F)

module _ {F : Type 0} (u : Unicode) where
  abbrev pub call : Call F → Store F → Store F
  call (puts e) s = put u s e
  call (deletes id) s = (delete u s id).0
  call (evicts now) s = (evict_expired u s now).0

  abbrev pub calls : List (Call F) → Store F → Store F
  calls [] s = s
  calls (c ∷ cs) s = calls cs (call c s)

  abbrev pub effect : Call F → View F → View F
  effect (puts e) m j = if e.id == j then some e else m j
  effect (deletes id) m j = if id == j then none else m j
  effect (evicts now) m j = swept u now (m j) (m j)

  abbrev pub effects : List (Call F) → View F → View F
  effects [] m = m
  effects (c ∷ cs) m = effects cs (effect c m)

  call-refines :
      (c : Call F) (s : Store F)
      → IsIndexed u s
      → IsIndexed u (call c s) × (get (call c s) ≡ effect c (get s))
  call-refines (puts e) s v = (put-IsIndexed u s v e, fun_ext (get-put u s e))
  call-refines (deletes id) s v =
      (delete-IsIndexed u s v id, fun_ext (λ j. (delete_lem u s v id j).1))
  call-refines (evicts now) s v = let h = evict_expired_lem u now s v in (h.0, fun_ext h.2)

  -- After any sequence of calls the store is well-formed, and it reads as the abstract store after the
  -- same calls.
  pub calls-refines :
      (cs : List (Call F)) (s : Store F)
      → IsIndexed u s
      → IsIndexed u (calls cs s) × (get (calls cs s) ≡ effects cs (get s))
  calls-refines [] s v = (v, refl)
  calls-refines (c ∷ cs) s v =
      let h = call-refines c s v in
      let rest = calls-refines cs (call c s) h.0 in (rest.0, rest.1 ∙ ap (effects cs) h.1)

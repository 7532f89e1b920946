-- ===== src/Broker/Consume/Arrivals.antt =====
-- internal/broker/broker.go: a goroutine of `consumePartition` that subscribes to its partition.
use mathlib.Core.Option.{some-injective}
use go_kafka.Base.{
  ℕ, ◌<◌, ◌≡◌, ◌≢◌, inl, inr, false, [], ◌∷◌, some, arith, length, length-append, get_elem?-lt,
  get_elem?-set_self, nat_eq, Bool-cases, ap, sym, ◌∙◌, subst,
}
use go_kafka.Broker.Log
use go_kafka.Broker.Log.{Message, Partition, append, wake}
use go_kafka.Broker.Consume.{looping, Worker, System, Started, started, part_at}
use go_kafka.Broker.Consume.Channels.{Safe, Inv, subscribe-Safe, with_part-Inv}

pub new_channel : (part : Partition) → (Log.subscribe part).1 < length (Log.subscribe part).0.subs
unfolding Log.subscribe
new_channel part = omega (arith, length-append part.subs (false ∷ []))

pub old_channel : (part : Partition) (ch : ℕ) → ch < length part.subs → ch ≢ (Log.subscribe part).1
unfolding Log.subscribe
old_channel part ch h e = omega arith

module _ (s : System) (i : ℕ) (part : Partition) (v : Inv s)
    (e : part_at s (s.workers i).p_idx ≡ some part) where
  abbrev pub fresh_worker : Worker
  fresh_worker = record (s.workers i) { sub = (Log.subscribe part).1; phase = looping }

  pub started-Safe :
      (found : Partition)
      → part_at (started s i part) (s.workers i).p_idx ≡ some found
      → Safe fresh_worker found
  started-Safe found h =
      let it : (Log.subscribe part).0 ≡ found = some-injective _ found (
        sym (
          get_elem?-set_self s.topic.partitions (s.workers i).p_idx (Log.subscribe part).0
            (get_elem?-lt s.topic.partitions (s.workers i).p_idx e))
        ∙ h) in
      subst (Safe fresh_worker) it (record { subscribed = new_channel part; awake = tt })

  -- The channel of any other goroutine of the partition is an older one.
  pub older :
      (k : ℕ)
      → Started (s.workers k)
      → (s.workers k).p_idx ≡ (s.workers i).p_idx
      → (s.workers k).sub ≢ (Log.subscribe part).1
  older k st same =
      old_channel part (s.workers k).sub (v.safe k part st (ap (part_at s) same ∙ e)).subscribed

  pub started_apart :
      (j k : ℕ)
      → nat_eq j k ≡ false
      → Started ((started s i part).workers j)
      → Started ((started s i part).workers k)
      → ((started s i part).workers j).p_idx ≡ ((started s i part).workers k).p_idx
      → ((started s i part).workers j).sub ≢ ((started s i part).workers k).sub
  started_apart j k ne sj sk q = elim (Bool-cases (nat_eq i j)) [
    | inl ij ↦ elim (Bool-cases (nat_eq i k)) [
      | inl ik ↦ absurd (ground arith)
      | inr nk ↦ rw (ij, nk) (λ x. older k (rw nk at sk) (sym (rw (ij, nk) at q)) (sym x))
    ]
    | inr nj ↦ elim (Bool-cases (nat_eq i k)) [
      | inl ik ↦ rw (nj, ik) (older j (rw nj at sj) (rw (nj, ik) at q))
      | inr nk ↦ rw (nj, nk) (v.apart j k ne (rw nj at sj) (rw nk at sk) (rw (nj, nk) at q))
    ]
  ]

  pub started-Inv : Inv (started s i part)
  started-Inv =
      let w =
        with_part-Inv s (s.workers i).p_idx part (Log.subscribe part).0 v e
          (λ j _ _ x. subscribe-Safe (s.workers j) part x) in
      record {
        safe = λ j found st h. elim (Bool-cases (nat_eq i j)) [
          | inl same ↦ rw same (started-Safe found (rw same at h))
          | inr other ↦ rw other (w.safe j found (rw other at st) (rw other at h))
        ];
        apart = started_apart;
      }

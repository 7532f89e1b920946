-- ===== src/Broker/Consume/Twice.antt =====
-- internal/broker/broker.go: two calls of `Subscribe` for one group.
use mathlib.Core.Path.{ap₂}
use go_kafka.Base.{List, ◌∷◌, ℕ, ◌+◌, ◌<◌, ◌≡◌, refl, false, some, arith, nat_eq, ap, ◌∙◌, le→leb}
use go_kafka.Base.Int.{pos}
use go_kafka.Broker.Log
use go_kafka.Broker.Log.{Message, Partition}
use go_kafka.Broker.Group.{get_offset}
use go_kafka.Broker.Consume.{
  Phase, looping, fetching, delivering, Event, delivered, System, run, answered, goto, move, accept,
  fetch_next, after_get, Step, works, Reach, here, later, part_at,
}
use go_kafka.Broker.Consume.Single.{times}

module _ (max : ℕ) (s : System) (i : ℕ) where
  Step-loop :
      (o : ℕ)
      → (s.workers i).phase ≡ looping
      → get_offset s.group (s.workers i).p_idx ≡ o
      → Step max s (goto s i (fetching o))
  unfolding move
  Step-loop o e off = works i run (rw e (rw off refl))

  Step-fetch :
      (o : ℕ) (part : Partition) (m : Message)
      → 0 < max
      → (s.workers i).phase ≡ fetching o
      → part_at s (s.workers i).p_idx ≡ some part
      → Log.get part (pos o) ≡ some m
      → Step max s (goto s i (delivering o (record m { attempt = 1 }) 1))
  unfolding move
  Step-fetch o part m some_try e at found =
      works i run (rw e (rw (at, fetch_next) (rw (found, after_get) (rw (le→leb 1 max some_try)))))

  Step-accept :
      (o k : ℕ) (m : Message) → (s.workers i).phase ≡ delivering o m k → Step max s (accept s i o m)
  unfolding move
  Step-accept o k m e = works i (answered false) (rw e refl)

  goto_self : (ph : Phase) → ((goto s i ph).workers i).phase ≡ ph
  goto_self ph = ground arith

  goto_other : (ph : Phase) (j : ℕ) → nat_eq i j ≡ false → (goto s i ph).workers j ≡ s.workers j
  goto_other ph j h = rw h

  goto_p_idx : (ph : Phase) (k : ℕ) → ((goto s i ph).workers k).p_idx ≡ (s.workers k).p_idx
  goto_p_idx ph k = ground arith

  accept_p_idx : (o k : ℕ) (n : Message) → ((accept s i o n).workers k).p_idx ≡ (s.workers k).p_idx
  unfolding accept
  accept_p_idx o k n = ground arith

times_two :
    (p o : ℕ) (m : Message) (h : List Event)
    → times p o (delivered p o m ∷ delivered p o m ∷ h) ≡ times p o h + 2
times_two p o m h = ground arith

module _ (max : ℕ) (s : System) (i j : ℕ) (part : Partition) (m : Message) (some_try : 0 < max)
    (apart : nat_eq i j ≡ false) (ei : (s.workers i).phase ≡ looping)
    (ej : (s.workers j).phase ≡ looping) (same : (s.workers j).p_idx ≡ (s.workers i).p_idx)
    (at : part_at s (s.workers i).p_idx ≡ some part)
    (found : Log.get part (pos (get_offset s.group (s.workers i).p_idx)) ≡ some m) where
  abbrev offset : ℕ
  offset = get_offset s.group (s.workers i).p_idx

  abbrev first : Message
  first = record m { attempt = 1 }

  abbrev in_hand : Phase
  in_hand = delivering offset first 1

  abbrev s1 : System
  s1 = goto s i (fetching offset)

  abbrev s2 : System
  s2 = goto s1 j (fetching offset)

  abbrev s3 : System
  s3 = goto s2 i in_hand

  abbrev s4 : System
  s4 = goto s3 j in_hand

  abbrev s5 : System
  s5 = accept s4 i offset first

  abbrev s6 : System
  s6 = accept s5 j offset first

  apart' : nat_eq j i ≡ false
  apart' = ground arith

  place_i : (s2.workers i).p_idx ≡ (s.workers i).p_idx
  place_i = goto_p_idx max s1 j (fetching offset) i ∙ goto_p_idx max s i (fetching offset) i

  place_j1 : (s1.workers j).p_idx ≡ (s.workers i).p_idx
  place_j1 = goto_p_idx max s i (fetching offset) j ∙ same

  place_j : (s3.workers j).p_idx ≡ (s.workers i).p_idx
  place_j = goto_p_idx max s2 i in_hand j ∙ goto_p_idx max s1 j (fetching offset) j ∙ place_j1

  both-Reach : Reach max s s6
  unfolding accept
  both-Reach =
      later
        (later
          (later
            (later
              (later (later here (Step-loop max s i offset ei refl))
                (Step-loop max s1 j offset (ground arith) (ap (get_offset s.group) place_j1)))
              (Step-fetch max s2 i offset part m some_try (ground (arith, apart'))
                (ap (part_at s) place_i ∙ at) found))
            (Step-fetch max s3 j offset part m some_try (ground (arith, apart'))
              (ap (part_at s) place_j ∙ at) found))
          (Step-accept max s4 i offset 1 (record m { attempt = 1 }) (ground (arith, apart'))))
        (Step-accept max s5 j offset 1 (record m { attempt = 1 }) (ground (arith, apart')))

  place_i4 : (s4.workers i).p_idx ≡ (s.workers i).p_idx
  place_i4 = goto_p_idx max s3 j in_hand i ∙ goto_p_idx max s2 i in_hand i ∙ place_i

  place_j5 : (s5.workers j).p_idx ≡ (s.workers i).p_idx
  place_j5 = accept_p_idx max s4 i offset j first ∙ goto_p_idx max s3 j in_hand j ∙ place_j

  history_after :
      s6.history
      ≡ delivered (s.workers i).p_idx offset first
        ∷ delivered (s.workers i).p_idx offset first
        ∷ s.history
  unfolding accept
  history_after =
      ap₂ (λ p q. delivered p offset first ∷ delivered q offset first ∷ s.history) place_j5 place_i4

  -- Two goroutines of one group that stand at the head of the loop over one partition, with a
  -- message at the committed offset, can both deliver it: then its offset is settled twice more.
  pub delivered_twice :
      (t : System) × Reach max s t
      × (times (s.workers i).p_idx offset t.history
          ≡ times (s.workers i).p_idx offset s.history + 2)
  delivered_twice = (s6, both-Reach, rw history_after (times_two _ offset first s.history))

-- ===== src/Broker/Consume/Channels.antt =====
-- internal/broker/broker.go: the channels that `notify` names in `consumePartition`.
use mathlib.Core.Option.{some-injective}
use go_kafka.Base.{
  ℕ, zero, suc, ◌≤◌, ◌<◌, ◌≡◌, ◌≢◌, ◌⊎◌, refl, inl, inr, Bool, true, false, List, [], ◌∷◌, map,
  some, arith, length, length-append, length-set, length-map, get_elem?, get_elem?-lt,
  get_elem?-set_self, get_elem?-set_ne, get_elem?-append_left, set, nat_eq, nat_eq_iff, Bool-cases,
  ap, sym, ◌∙◌, subst, ℕ_discrete,
}
use go_kafka.Broker.Log
use go_kafka.Broker.Log.{Message, Partition, append, wake}
use go_kafka.Broker.Consume.{
  Phase, looping, waiting, Worker, System, Started, received, part_at, with_part, goto,
}

-- A goroutine that waits at an offset has a token in its channel, or nothing to read there.
abbrev pub Awake : Phase → ℕ → Partition → Type 0
Awake (waiting o) ch part = (get_elem? part.subs ch ≡ some true) ⊎ (length part.log ≤ o)
Awake _ ch part = Unit

pub record Safe (w : Worker) (part : Partition) : Type 0 where
  pub subscribed : w.sub < length part.subs
  pub awake : Awake w.phase w.sub part

pub record Inv (s : System) : Type 0 where
  pub safe :
      (i : ℕ) (part : Partition)
      → Started (s.workers i)
      → part_at s (s.workers i).p_idx ≡ some part
      → Safe (s.workers i) part
  pub apart :
      (i j : ℕ)
      → nat_eq i j ≡ false
      → Started (s.workers i)
      → Started (s.workers j)
      → (s.workers i).p_idx ≡ (s.workers j).p_idx
      → (s.workers i).sub ≢ (s.workers j).sub

-- Another goroutine takes a token from, or adds, a channel that is not this one; or a message comes.
pub Awake-same :
    (ph : Phase) (ch : ℕ) (part part' : Partition)
    → get_elem? part'.subs ch ≡ get_elem? part.subs ch
    → part'.log ≡ part.log
    → Awake ph ch part
    → Awake ph ch part'
Awake-same (waiting o) ch part part' e el a = rw (e, el) a
Awake-same _ ch part part' e el a = tt

pub get-wake :
    (subs : List Bool) (ch : ℕ) → ch < length subs → get_elem? (map wake subs) ch ≡ some true
get-wake [] ch h = elim h [ ]
get-wake (b ∷ subs) zero h = refl
get-wake (b ∷ subs) (suc ch) h = get-wake subs ch (omega arith)

pub Awake-woken :
    (ph : Phase) (ch : ℕ) (part : Partition) → get_elem? part.subs ch ≡ some true → Awake ph ch part
Awake-woken (waiting o) ch part e = inl e
Awake-woken _ ch part e = tt

pub append-Safe :
    (w : Worker) (part : Partition) (m : Message) → Safe w part → Safe w (append part m).0
unfolding append
append-Safe w part m v = record {
  subscribed = rw (length-map wake part.subs) v.subscribed;
  awake = Awake-woken w.phase w.sub _ (get-wake part.subs w.sub v.subscribed);
}

pub subscribe-Safe : (w : Worker) (part : Partition) → Safe w part → Safe w (Log.subscribe part).0
unfolding Log.subscribe
subscribe-Safe w part v = record {
  subscribed = omega (arith, length-append part.subs (false ∷ []), v.subscribed);
  awake =
      Awake-same w.phase w.sub part _
        (get_elem?-append_left part.subs (false ∷ []) w.sub v.subscribed) refl v.awake;
}

pub receive-Safe :
    (w : Worker) (part : Partition) (ch : ℕ)
    → w.sub ≢ ch
    → Safe w part
    → Safe w (record part { subs = set part.subs ch false })
receive-Safe w part ch other v = record {
  subscribed = rw (length-set part.subs ch false) v.subscribed;
  awake =
      Awake-same w.phase w.sub part _
        (get_elem?-set_ne part.subs ch w.sub false (λ e. other (sym e))) refl v.awake;
}

-- A write to one partition.
pub part_at-set :
    (s : System) (p q : ℕ) (part part' found : Partition)
    → part_at s p ≡ some part
    → part_at (with_part s p part') q ≡ some found
    → ((p ≡ q) × (part' ≡ found)) ⊎ (part_at s q ≡ some found)
part_at-set s p q part part' found e h = elim (ℕ_discrete p q) [
  | yes same ↦
      let here : part_at (with_part s p part') q ≡ some part' =
        rw (← same)
          (get_elem?-set_self s.topic.partitions p part' (get_elem?-lt s.topic.partitions p e)) in
      inl (same, some-injective part' found (sym here ∙ h))
  | no other ↦ inr (sym (get_elem?-set_ne s.topic.partitions p q part' other) ∙ h)
]

pub with_part-Inv :
    (s : System) (p : ℕ) (part part' : Partition)
    → Inv s
    → part_at s p ≡ some part
    → ((i : ℕ)
        → Started (s.workers i)
        → (s.workers i).p_idx ≡ p
        → Safe (s.workers i) part
        → Safe (s.workers i) part')
    → Inv (with_part s p part')
with_part-Inv s p part part' v e keep = record {
  safe = λ i found st h. elim (part_at-set s p (s.workers i).p_idx part part' found e h) [
    | inl (same, it) ↦
        subst (Safe (s.workers i)) it
          (keep i st (sym same) (v.safe i part st (ap (part_at s) (sym same) ∙ e)))
    | inr old ↦ v.safe i found st old
  ];
  apart = v.apart;
}

module _ (s : System) (i : ℕ) (ph : Phase) (k : ℕ) where
  pub goto_sub : ((goto s i ph).workers k).sub ≡ (s.workers k).sub
  goto_sub = ground (arith, nat_eq_iff i k)

  pub goto_p_idx : ((goto s i ph).workers k).p_idx ≡ (s.workers k).p_idx
  goto_p_idx = ground (arith, nat_eq_iff i k)

  pub goto-Started :
      Started (s.workers i) → Started ((goto s i ph).workers k) → Started (s.workers k)
  goto-Started mine st = elim (Bool-cases (nat_eq i k)) [
    | inl same ↦ subst (λ x. Started (s.workers x)) ((nat_eq_iff i k).0 same) mine
    | inr other ↦ λ e. st (rw other e)
  ]

pub goto-Inv :
    (s : System) (i : ℕ) (ph : Phase)
    → Inv s
    → Started (s.workers i)
    → ((part : Partition)
        → part_at s (s.workers i).p_idx ≡ some part
        → Awake ph (s.workers i).sub part)
    → Inv (goto s i ph)
goto-Inv s i ph v mine awake = record {
  safe = λ j part st h. elim (Bool-cases (nat_eq i j)) [
    | inl same ↦
        let at : part_at s (s.workers i).p_idx ≡ some part = rw same at h in
        rw same (record { subscribed = (v.safe i part mine at).subscribed; awake = awake part at })
    | inr other ↦ rw other (v.safe j part (goto-Started s i ph j mine st) (rw other at h))
  ];
  apart = λ j k ne sj sk e.
      rw (goto_sub s i ph j, goto_sub s i ph k)
        (v.apart j k ne (goto-Started s i ph j mine sj) (goto-Started s i ph k mine sk)
          (sym (goto_p_idx s i ph j) ∙ e ∙ goto_p_idx s i ph k));
}

pub received-Inv :
    (s : System) (i : ℕ) (part : Partition)
    → Inv s
    → Started (s.workers i)
    → part_at s (s.workers i).p_idx ≡ some part
    → Inv (received s i part)
received-Inv s i part v mine e =
    with_part-Inv (goto s i looping) (s.workers i).p_idx part
      (record part { subs = set part.subs (s.workers i).sub false })
      (goto-Inv s i looping v mine (λ q h. tt)) e keep
  where
    keep :
        (j : ℕ)
        → Started ((goto s i looping).workers j)
        → ((goto s i looping).workers j).p_idx ≡ (s.workers i).p_idx
        → Safe ((goto s i looping).workers j) part
        → Safe
            ((goto s i looping).workers j)
            (record part { subs = set part.subs (s.workers i).sub false })
    keep j st same w = elim (Bool-cases (nat_eq i j)) [
      | inl it ↦
          let h : (s.workers i).sub < length part.subs = (v.safe i part mine e).subscribed in
          rw it (record {
            subscribed = rw (length-set part.subs (s.workers i).sub false) h;
            awake = tt;
          })
      | inr other ↦
          receive-Safe ((goto s i looping).workers j) part (s.workers i).sub
            (λ q.
              v.apart i j other mine (goto-Started s i looping j mine st)
                (sym same ∙ goto_p_idx s i looping j) (sym q ∙ goto_sub s i looping j))
            w
    ]

-- ===== src/Broker/Consume/Facts.antt =====
-- internal/broker/broker.go: the messages that goroutines of `consumePartition` hold, and those of the
-- history of a group.
use go_kafka.Base.{
  ℕ, ◌≡◌, refl, inl, inr, false, Bool, List, [], ◌∷◌, Option, none, some, length, get_elem?,
  get_elem?-append_last, All, leb, nat_eq, Bool-cases, ap,
}
use go_kafka.Broker.{Topic}
use go_kafka.Broker.Log.{Message, Partition, append}
use go_kafka.Broker.Logs.{in_topic}
use go_kafka.Broker.Consume.{
  Phase, committing, delivering, burying, Worker, Event, delivered, dead_lettered, System,
  next_attempt, after_get, update, goto, bury, accept,
}
use go_kafka.Broker.Consume.Grown.{Grown, Grown-refl, dlq-Grown}

-- `m` is the message at offset `o` of partition `p`, at some attempt.
abbrev pub IsAt : Topic → ℕ → ℕ → Message → Type 0
IsAt t p o m =
    (stored : Message) × (in_topic t p o ≡ some stored)
    × (m ≡ record stored { attempt = m.attempt })

-- `m` is in the DLQ, under an offset of the DLQ.
abbrev pub IsDead : Topic → Message → Type 0
IsDead t m = (j : ℕ) × (get_elem? t.dlq.log j ≡ some (record m { offset = j }))

-- The event is one of the message at its offset, and a message that was dead-lettered is in the DLQ.
abbrev pub IsTrue : Topic → Event → Type 0
IsTrue t (delivered p o m) = IsAt t p o m
IsTrue t (dead_lettered p o m) = IsAt t p o m × IsDead t m

-- The message in a goroutine's hand is that of its offset.
abbrev pub InHand : Topic → ℕ → Phase → Type 0
InHand t p (delivering o m k) = IsAt t p o m
InHand t p (burying o m) = IsAt t p o m
InHand t p _ = Unit

pub record Inv (s : System) : Type 0 where
  pub history : All (IsTrue s.topic) s.history
  pub hands : (i : ℕ) → InHand s.topic (s.workers i).p_idx (s.workers i).phase

pub IsAt-Grown : (t u : Topic) (p o : ℕ) (m : Message) → Grown t u → IsAt t p o m → IsAt u p o m
IsAt-Grown t u p o m g (stored, e, q) = (stored, g.kept p o stored e, q)

IsTrue-Grown : (t u : Topic) (e : Event) → Grown t u → IsTrue t e → IsTrue u e
IsTrue-Grown t u (delivered p o m) g h = IsAt-Grown t u p o m g h
IsTrue-Grown t u (dead_lettered p o m) g (h, (j, d)) =
    (IsAt-Grown t u p o m g h, (j, g.dead j (record m { offset = j }) d))

pub history-Grown : (t u : Topic) (h : List Event) → Grown t u → All (IsTrue t) h → All (IsTrue u) h
history-Grown t u [] g a = tt
history-Grown t u (e ∷ h) g a = (IsTrue-Grown t u e g a.0, history-Grown t u h g a.1)

InHand-Grown : (t u : Topic) (p : ℕ) (ph : Phase) → Grown t u → InHand t p ph → InHand u p ph
InHand-Grown t u p (delivering o m k) g h = IsAt-Grown t u p o m g h
InHand-Grown t u p (burying o m) g h = IsAt-Grown t u p o m g h
InHand-Grown t u p _ g h = tt

-- A move of goroutine `i` that makes it `w`, and loses no message.
pub Inv-moves :
    (s t : System) (i : ℕ) (w : Worker)
    → Inv s
    → Grown s.topic t.topic
    → t.workers ≡ update s.workers i w
    → All (IsTrue t.topic) t.history
    → InHand t.topic w.p_idx w.phase
    → Inv t
Inv-moves s t i w v g e facts mine = record {
  history = facts;
  hands = λ j. elim (Bool-cases (nat_eq i j)) [
    | inl same ↦ rw e (rw same mine)
    | inr other ↦ rw e (rw other (InHand-Grown s.topic t.topic _ _ g (v.hands j)))
  ];
}

-- A step of another.
pub Inv-grows :
    (s t : System)
    → Inv s
    → Grown s.topic t.topic
    → t.workers ≡ s.workers
    → t.history ≡ s.history
    → Inv t
Inv-grows s t v g ew eh = record {
  history = rw eh (history-Grown s.topic t.topic s.history g v.history);
  hands = λ i. rw ew (InHand-Grown s.topic t.topic _ _ g (v.hands i));
}

pub goto-Inv :
    (s : System) (i : ℕ) (ph : Phase)
    → Inv s
    → InHand s.topic (s.workers i).p_idx ph
    → Inv (goto s i ph)
goto-Inv s i ph v h =
    Inv-moves s (goto s i ph) i (record (s.workers i) { phase = ph }) v (Grown-refl s.topic) refl
      v.history h

again-IsAt :
    (t : Topic) (p o k : ℕ) (m : Message) → IsAt t p o m → IsAt t p o (record m { attempt = k })
again-IsAt t p o k m (stored, e, q) = (stored, e, ap (λ (n : Message). record n { attempt = k }) q)

pub next_attempt-InHand :
    (t : Topic) (max p o k : ℕ) (m : Message) (failed : Bool)
    → IsAt t p o m
    → InHand t p (next_attempt max o m k failed)
unfolding next_attempt
next_attempt-InHand t max p o k m failed h = elim (Bool-cases (leb k max)) [
  | inl e ↦ rw e (again-IsAt t p o k m h)
  | inr e ↦ elim (Bool-cases failed) [ inl f ↦ rw (e, f) h | inr f ↦ rw (e, f) tt ]
]

pub after_get-InHand :
    (t : Topic) (max p o : ℕ) (found : Option Message)
    → in_topic t p o ≡ found
    → InHand t p (after_get max o found)
unfolding after_get
after_get-InHand t max p o none e = tt
after_get-InHand t max p o (some m) e = next_attempt-InHand t max p o 1 m false (m, e, refl)

pub accept-Inv :
    (s : System) (i o : ℕ) (m : Message)
    → Inv s
    → IsAt s.topic (s.workers i).p_idx o m
    → Inv (accept s i o m)
unfolding accept
accept-Inv s i o m v h =
    Inv-moves s (accept s i o m) i (record (s.workers i) { phase = committing o }) v
      (Grown-refl s.topic) refl (h, v.history) tt

dead-append :
    (p : Partition) (m : Message)
    → (j : ℕ) × (get_elem? (append p m).0.log j ≡ some (record m { offset = j }))
unfolding append
dead-append p m = (length p.log, get_elem?-append_last p.log (record m { offset = length p.log }))

pub bury-Inv :
    (s : System) (i o : ℕ) (m : Message)
    → Inv s
    → IsAt s.topic (s.workers i).p_idx o m
    → Inv (bury s i o m)
unfolding bury
bury-Inv s i o m v h =
    let g = dlq-Grown s.topic m in
    let u : Topic = record s.topic { dlq = (append s.topic.dlq m).0 } in
    Inv-moves s (bury s i o m) i (record (s.workers i) { phase = committing o }) v g refl
      (
        (IsAt-Grown s.topic u (s.workers i).p_idx o m g h, dead-append s.topic.dlq m),
        history-Grown s.topic u s.history g v.history,
      )
      tt

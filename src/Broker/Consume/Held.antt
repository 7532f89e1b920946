-- ===== src/Broker/Consume/Held.antt =====
-- internal/broker/broker.go: what a goroutine of `consumePartition` holds, and the invariant of a group.
use go_kafka.Base.{
  ℕ, ◌+◌, ◌≤◌, ◌<◌, ◌≡◌, refl, ◌⊎◌, inl, inr, true, false, List, [], ◌∷◌, Option, none, some, arith,
  leb, leb→le, nat_eq, nat_key, Bool-cases, sym, subst,
}
use go_kafka.Base.Dict.{lookup-insert}
use go_kafka.Broker.Log
use go_kafka.Broker.Log.{Message, Partition}
use go_kafka.Broker.Group.{ConsumerGroup, get_offset, commit}
use go_kafka.Base.Int.{pos}
use go_kafka.Broker.Consume.Moves.{start_lem, fetch_next_lem, receive_lem}
use go_kafka.Broker.Consume.{
  after_get, Phase, looping, fetching, committing, delivering, burying, Worker, Event, delivered,
  dead_lettered, System, next_attempt, update, start, fetch_next, receive,
}

-- The history has an event of the offset.
abbrev pub Noted : List Event → ℕ → ℕ → Type 0
Noted [] p o = ⊥
Noted (delivered q k m ∷ h) p o = ((q ≡ p) × (k ≡ o)) ⊎ Noted h p o
Noted (dead_lettered q k m ∷ h) p o = ((q ≡ p) × (k ≡ o)) ⊎ Noted h p o

pub commit_le : (cg : ConsumerGroup) (p o q : ℕ) → get_offset cg q ≤ get_offset (commit cg p o) q
unfolding commit get_offset
commit_le cg p o q = ground (arith, lookup-insert p q o cg.offsets)

pub commit_below :
    (cg : ConsumerGroup) (p o q x : ℕ)
    → x < get_offset (commit cg p o) q
    → (x < get_offset cg q) ⊎ ((p ≡ q) × (x < o))
unfolding commit get_offset
commit_below cg p o q x h = ground (arith, lookup-insert p q o cg.offsets)

-- What a goroutine knows of the message that it holds.
abbrev pub Held : ℕ → (ℕ → ℕ) → List Event → ℕ → Phase → Type 0
Held max off h p (fetching o) = o ≤ off p
Held max off h p (delivering o m k) = (o ≤ off p) × (0 < k) × (k ≤ max) × (m.attempt ≡ k)
Held max off h p (burying o m) = (o ≤ off p) × (m.attempt ≡ max)
Held max off h p (committing o) = (o ≤ off p) × Noted h p o
Held max off h p _ = Unit

pub Held-mono :
    (max p : ℕ) (off off' : ℕ → ℕ) (h h' : List Event) (ph : Phase)
    → off p ≤ off' p
    → ((o : ℕ) → Noted h p o → Noted h' p o)
    → Held max off h p ph
    → Held max off' h' p ph
Held-mono max p off off' h h' (fetching o) le keep x = omega arith
Held-mono max p off off' h h' (delivering o m k) le keep x = (omega arith, x.1, x.2, x.3)
Held-mono max p off off' h h' (burying o m) le keep x = (omega arith, x.1)
Held-mono max p off off' h h' (committing o) le keep x = (omega arith, keep o x.1)
Held-mono max p off off' h h' _ le keep x = tt

-- Every offset below the committed one is settled, and so is one that is about to be committed.
pub record Inv (max : ℕ) (s : System) : Type 0 where
  pub below : (p o : ℕ) → o < get_offset s.group p → Noted s.history p o
  pub held :
      (i : ℕ) → Held max (get_offset s.group) s.history (s.workers i).p_idx (s.workers i).phase

-- A move of goroutine `i` to the phase `ph`, with the group and the history grown.
pub Inv-goto :
    (max : ℕ) (s t : System) (i : ℕ) (w : Worker)
    → Inv max s
    → t.workers ≡ update s.workers i w
    → ((p : ℕ) → get_offset s.group p ≤ get_offset t.group p)
    → ((p o : ℕ) → Noted s.history p o → Noted t.history p o)
    → ((p o : ℕ) → o < get_offset t.group p → Noted t.history p o)
    → Held max (get_offset t.group) t.history w.p_idx w.phase
    → Inv max t
Inv-goto max s t i w v e grow keep below mine = record {
  below = below;
  held = λ j. elim (Bool-cases (nat_eq i j)) [
    | inl same ↦ rw e (rw same mine)
    | inr other ↦ rw e (
        rw other (
          Held-mono max _ (get_offset s.group) (get_offset t.group) s.history t.history _ (grow _)
            (keep _) (v.held j)))
  ];
}

-- A step of another goroutine leaves the workers, the group and the history alone.
pub Inv-same :
    (max : ℕ) (s t : System)
    → Inv max s
    → t.workers ≡ s.workers
    → t.group ≡ s.group
    → t.history ≡ s.history
    → Inv max t
Inv-same max s t v ew eg eh = record { below = rw (eg, eh) v.below; held = rw (ew, eg, eh) v.held }

-- Of a move that changes one worker only in its place in the code, and no other shared state that
-- the invariant reads.
pub record Quiet (s t : System) (i : ℕ) (w : Worker) : Type 0 where
  pub workers : t.workers ≡ update s.workers i w
  pub group : t.group ≡ s.group
  pub history : t.history ≡ s.history
  pub same_part : w.p_idx ≡ (s.workers i).p_idx

pub Inv-Quiet :
    (max : ℕ) (s t : System) (i : ℕ) (w : Worker)
    → Inv max s
    → Quiet s t i w
    → Held max (get_offset s.group) s.history (s.workers i).p_idx w.phase
    → Inv max t
Inv-Quiet max s t i w v q mine =
    Inv-goto max s t i w v q.workers (λ p. rw q.group (omega arith)) (λ p o. rw q.history (λ x. x))
      (rw (q.group, q.history) v.below) (rw (q.group, q.history, q.same_part) mine)

pub start-Quiet :
    (s t : System) (i : ℕ)
    → start s i ≡ some t
    → (ch : ℕ) × Quiet s t i (record (s.workers i) { sub = ch; phase = looping })
start-Quiet s t i h =
    let (part, _, e) = start_lem s t i h in
    (
      (Log.subscribe part).1,
      subst
          (λ u.
            Quiet s u i (record (s.workers i) { sub = (Log.subscribe part).1; phase = looping }))
          (sym e) (record { workers = refl; group = refl; history = refl; same_part = refl }),
    )

pub fetch_next-Quiet :
    (max : ℕ) (s t : System) (i o : ℕ)
    → fetch_next max s i o ≡ some t
    → (found : Option Message) × Quiet s t i
        (record (s.workers i) { phase = after_get max o found })
fetch_next-Quiet max s t i o h =
    let (part, _, e) = fetch_next_lem max s t i o h in
    (
      Log.get part (pos o),
      subst
          (λ u.
            Quiet s u i (record (s.workers i) { phase = after_get max o (Log.get part (pos o)) }))
          (sym e) (record { workers = refl; group = refl; history = refl; same_part = refl }),
    )

pub receive-Quiet :
    (s t : System) (i : ℕ)
    → receive s i ≡ some t
    → Quiet s t i (record (s.workers i) { phase = looping })
receive-Quiet s t i h =
    let (part, _, _, e) = receive_lem s t i h in
    subst (λ u. Quiet s u i (record (s.workers i) { phase = looping })) (sym e)
      (record { workers = refl; group = refl; history = refl; same_part = refl })

first_Held :
    (max : ℕ) (off : ℕ → ℕ) (h : List Event) (p o : ℕ) (m : Message)
    → 0 < max
    → o ≤ off p
    → Held max off h p (next_attempt max o m 1 false)
unfolding next_attempt
first_Held max off h p o m some_try le = elim (Bool-cases (leb 1 max)) [
  | inl e ↦ rw e (omega arith)
  | inr e ↦ absurd (ground arith)
]

pub retry_Held :
    (max : ℕ) (off : ℕ → ℕ) (h : List Event) (p o k : ℕ) (m : Message)
    → Held max off h p (delivering o m k)
    → Held max off h p (next_attempt max o m (k + 1) true)
unfolding next_attempt
retry_Held max off h p o k m x = elim (Bool-cases (leb (k + 1) max)) [
  | inl e ↦ rw e (omega (arith, leb→le (k + 1) max e))
  | inr e ↦ rw e (x.0, ground arith)
]

pub after_get-Held :
    (max : ℕ) (off : ℕ → ℕ) (h : List Event) (p o : ℕ) (found : Option Message)
    → 0 < max
    → o ≤ off p
    → Held max off h p (after_get max o found)
unfolding after_get
after_get-Held max off h p o none some_try le = tt
after_get-Held max off h p o (some m) some_try le = first_Held max off h p o m some_try le

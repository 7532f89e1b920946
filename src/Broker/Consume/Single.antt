-- ===== src/Broker/Consume/Single.antt =====
-- internal/broker/broker.go: one goroutine of a group for each partition of `consumePartition`.
use go_kafka.Base.{
  ℕ, suc, ◌+◌, ◌≤◌, ◌<◌, ◌≡◌, refl, inl, inr, Bool, false, List, [], ◌∷◌, Option, none, some, arith,
  ltb, leb, nat_eq, nat_eq_iff, nat_key, if◌then◌else◌, Bool-cases, ◌&&◌, ap, sym, ◌∙◌, subst,
}
use go_kafka.Base.Dict.{lookup-insert}
use go_kafka.Broker.Log.{Message}
use go_kafka.Broker.Group.{ConsumerGroup, get_offset, commit}
use go_kafka.Broker.Consume.{
  after_get, Phase, looping, fetching, committing, delivering, burying, Worker, Event, delivered,
  dead_lettered, System, next_attempt, update, goto, bury, accept, commit_next,
}
use go_kafka.Broker.Consume.Held.{Quiet}

-- How often an offset of a partition was settled.
abbrev pub times : ℕ → ℕ → List Event → ℕ
times p o [] = 0
times p o (delivered q k m ∷ h) = (if nat_eq q p && nat_eq k o then 1 else 0) + times p o h
times p o (dead_lettered q k m ∷ h) = (if nat_eq q p && nat_eq k o then 1 else 0) + times p o h

-- The goroutine of a partition works at the committed offset.
abbrev pub At : ℕ → Phase → Type 0
At n (fetching o) = o ≡ n
At n (delivering o m k) = o ≡ n
At n (burying o m) = o ≡ n
At n (committing o) = o ≡ n
At n _ = Unit

-- The first offset that is not settled.
abbrev pub bound : ℕ → Phase → ℕ
bound n (committing o) = suc n
bound n _ = n

abbrev pub once_below : ℕ → ℕ → ℕ
once_below n x = if ltb x n then 1 else 0

pub record Inv (s : System) : Type 0 where
  pub own : (i : ℕ) → (s.workers i).p_idx ≡ i
  pub at : (i : ℕ) → At (get_offset s.group i) (s.workers i).phase
  pub counts :
      (i x : ℕ)
      → times i x s.history ≡ once_below (bound (get_offset s.group i) (s.workers i).phase) x

pub Inv-goto :
    (s t : System) (i : ℕ) (w : Worker)
    → Inv s
    → t.workers ≡ update s.workers i w
    → w.p_idx ≡ i
    → ((j : ℕ) → nat_eq i j ≡ false → get_offset t.group j ≡ get_offset s.group j)
    → ((j x : ℕ) → nat_eq i j ≡ false → times j x t.history ≡ times j x s.history)
    → At (get_offset t.group i) w.phase
    → ((x : ℕ) → times i x t.history ≡ once_below (bound (get_offset t.group i) w.phase) x)
    → Inv t
Inv-goto s t i w v e mine off_other times_other here_at here_counts = record {
  own = λ j. elim (Bool-cases (nat_eq i j)) [
    | inl same ↦ rw e (rw same (mine ∙ (nat_eq_iff i j).0 same))
    | inr other ↦ rw e (rw other (v.own j))
  ];
  at = λ j. elim (Bool-cases (nat_eq i j)) [
    | inl same ↦
        rw e (
          rw same
            (subst (λ k. At (get_offset t.group k) w.phase) ((nat_eq_iff i j).0 same) here_at))
    | inr other ↦ rw e (rw (other, off_other j other) (v.at j))
  ];
  counts = λ j x. elim (Bool-cases (nat_eq i j)) [
    | inl same ↦ rw e (
        rw same (
          subst (λ k. times k x t.history ≡ once_below (bound (get_offset t.group k) w.phase) x)
            ((nat_eq_iff i j).0 same) (here_counts x)))
    | inr other ↦ rw e (rw (other, off_other j other, times_other j x other) (v.counts j x))
  ];
}

pub Inv-same :
    (s t : System)
    → Inv s
    → t.workers ≡ s.workers
    → t.group ≡ s.group
    → t.history ≡ s.history
    → Inv t
Inv-same s t v ew eg eh = record {
  own = rw ew v.own;
  at = rw (ew, eg) v.at;
  counts = rw (ew, eg, eh) v.counts;
}

-- A move that settles and commits nothing.
pub Inv-Quiet :
    (s t : System) (i : ℕ) (w : Worker)
    → Inv s
    → Quiet s t i w
    → At (get_offset s.group i) w.phase
    → bound (get_offset s.group i) w.phase ≡ bound (get_offset s.group i) (s.workers i).phase
    → Inv t
Inv-Quiet s t i w v q a b =
    Inv-goto s t i w v q.workers (q.same_part ∙ v.own i) (λ j _. rw q.group) (λ j x _. rw q.history)
      (rw q.group a) (λ x. rw (q.group, q.history, b) (v.counts i x))

pub next_attempt-At :
    (max n o k : ℕ) (m : Message) (failed : Bool)
    → o ≡ n
    → (failed ≡ false → k ≤ max)
    → At n (next_attempt max o m k failed) × (bound n (next_attempt max o m k failed) ≡ n)
unfolding next_attempt
next_attempt-At max n o k m failed e few = elim (Bool-cases (leb k max)) [
  | inl go ↦ rw go (e, refl)
  | inr over ↦ elim (Bool-cases failed) [
    | inl bad ↦ rw (over, bad) (e, refl)
    | inr good ↦ let le = few good in absurd (ground arith)
  ]
]

pub after_get-At :
    (max n o : ℕ) (found : Option Message)
    → 0 < max
    → o ≡ n
    → At n (after_get max o found) × (bound n (after_get max o found) ≡ n)
unfolding after_get
after_get-At max n o none some_try e = (tt, refl)
after_get-At max n o (some m) some_try e = next_attempt-At max n o 1 m false e (λ _. some_try)

pub commit_self :
    (cg : ConsumerGroup) (p o : ℕ)
    → get_offset cg p ≡ o
    → get_offset (commit cg p (o + 1)) p ≡ o + 1
unfolding commit get_offset
commit_self cg p o h = ground (arith, lookup-insert p p (o + 1) cg.offsets)

pub commit_other :
    (cg : ConsumerGroup) (p q o : ℕ)
    → nat_eq p q ≡ false
    → get_offset (commit cg p o) q ≡ get_offset cg q
unfolding commit get_offset
commit_other cg p q o h = ground (arith, lookup-insert p q o cg.offsets)

pub le-bound : (n : ℕ) (ph : Phase) → n ≤ bound n ph
le-bound n (committing o) = omega arith
le-bound n _ = omega arith

pub below-once : (n x : ℕ) → x < n → once_below n x ≡ 1
below-once n x h = ground arith

module _ (s : System) (i : ℕ) (v : Inv s) where
  pub goto-Inv :
      (ph : Phase)
      → At (get_offset s.group i) ph
      → bound (get_offset s.group i) ph ≡ bound (get_offset s.group i) (s.workers i).phase
      → Inv (goto s i ph)
  goto-Inv ph a b =
      Inv-Quiet s (goto s i ph) i (record (s.workers i) { phase = ph }) v
        (record { workers = refl; group = refl; history = refl; same_part = refl }) a b

  -- `e` is the event of the offset `o` in the partition of goroutine `i`.
  pub settle-Inv :
      (t : System) (o : ℕ) (e : Event)
      → get_offset s.group i ≡ o
      → bound (get_offset s.group i) (s.workers i).phase ≡ o
      → ((j x : ℕ)
          → times j x (e ∷ s.history)
            ≡ (if nat_eq i j && nat_eq o x then 1 else 0) + times j x s.history)
      → t.workers ≡ update s.workers i (record (s.workers i) { phase = committing o })
      → t.group ≡ s.group
      → t.history ≡ e ∷ s.history
      → Inv t
  settle-Inv t o e off b one ew eg eh =
      Inv-goto s t i (record (s.workers i) { phase = committing o }) v ew (v.own i) (λ j _. rw eg)
        (λ j x other. rw eh (one j x ∙ rw other (omega arith))) (rw eg (sym off))
        (λ x. rw (eh, eg) (one i x ∙ ground (arith, v.counts i x)))

  pub commit_next-Inv :
      (o : ℕ)
      → (s.workers i).phase ≡ committing o
      → o ≡ get_offset s.group i
      → Inv (commit_next s i o)
  unfolding commit_next
  commit_next-Inv o e off =
      Inv-goto s (commit_next s i o) i (record (s.workers i) { phase = looping }) v refl (v.own i)
        (λ j other. commit_other s.group _ j (o + 1) (rw (v.own i) other)) (λ j x _. refl) tt
        (λ x.
          rw (v.own i, commit_self s.group i o (sym off))
            ((rw e at (v.counts i x)) ∙ ap (λ n. once_below n x) (omega arith)))

  pub accept-Inv :
      (o : ℕ) (m : Message)
      → get_offset s.group i ≡ o
      → bound (get_offset s.group i) (s.workers i).phase ≡ o
      → Inv (accept s i o m)
  unfolding accept
  accept-Inv o m off b =
      settle-Inv (accept s i o m) o (delivered (s.workers i).p_idx o m) off b (λ j x. rw (v.own i))
        refl refl refl

  pub bury-Inv :
      (o : ℕ) (m : Message)
      → get_offset s.group i ≡ o
      → bound (get_offset s.group i) (s.workers i).phase ≡ o
      → Inv (bury s i o m)
  unfolding bury
  bury-Inv o m off b =
      settle-Inv (bury s i o m) o (dead_lettered (s.workers i).p_idx o m) off b
        (λ j x. rw (v.own i)) refl refl refl

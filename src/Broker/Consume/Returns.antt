-- ===== src/Broker/Consume/Returns.antt =====
-- internal/broker/broker.go: the loop of the attempts in `consumePartition`.
use mathlib.Core.Option.{some-injective}
use go_kafka.Base.{
  ℕ, suc, ◌+◌, ◌-◌, ◌≤◌, ◌<◌, ◌≡◌, ◌≢◌, ◌⊎◌, inl, inr, refl, Bool, true, false, some, arith,
  nat_key, leb, Bool-cases, ◌∙◌, ap, subst,
}
use go_kafka.Base.Dict.{lookup-insert}
use go_kafka.Broker.Log.{Message}
use go_kafka.Broker.Group.{ConsumerGroup, get_offset, commit}
use go_kafka.Broker.Consume.{
  Phase, starting, looping, stopped, fetching, waiting, committing, delivering, burying, Worker,
  System, Act, run, answered, next_attempt, goto, move, bury, accept, commit_next, Step,
}
use go_kafka.Broker.Consume.Grows.{Step-grows}

-- A run with `n` moves of goroutine `i` that it makes away from the head of the loop, and any steps in
-- between that leave goroutine `i` where it is.
pub data Run (max i : ℕ) (s : System) : ℕ → System → Type 0 where
  stay : Run max i s 0 s
  own :
      {n : ℕ} {t u : System} (a : Act)
      → Run max i s n t
      → (t.workers i).phase ≢ looping
      → move max t i (t.workers i).phase a ≡ some u
      → Run max i s (suc n) u
  other :
      {n : ℕ} {t u : System}
      → Run max i s n t
      → Step max t u
      → u.workers i ≡ t.workers i
      → Run max i s n u

-- The moves of its own that a goroutine needs at most to come to the head of the loop.
abbrev pub left : ℕ → Phase → ℕ
left max (delivering o m k) = (max - k) + 3
left max (burying o m) = 2
left max (committing o) = 1
left max _ = 0

-- Between the first attempt at offset `o` and the head of the loop, with the offset committed there.
abbrev OnWay : (ℕ → ℕ) → ℕ → ℕ → Phase → Type 0
OnWay off p o (delivering q m k) = q ≡ o
OnWay off p o (burying q m) = q ≡ o
OnWay off p o (committing q) = q ≡ o
OnWay off p o looping = o < off p
OnWay off p o _ = ⊥

commit-covers : (cg : ConsumerGroup) (p o : ℕ) → o < get_offset (commit cg p (o + 1)) p
unfolding commit get_offset
commit-covers cg p o = ground (arith, lookup-insert p p (o + 1) cg.offsets)

module _ (max i : ℕ) (s : System) (p o bound : ℕ) where
  record Within (n : ℕ) (t : System) : Type 0 where
    pub place : (t.workers i).p_idx ≡ p
    pub few : n + left max (t.workers i).phase ≤ bound
    pub way : OnWay (get_offset t.group) p o (t.workers i).phase

  OnWay-grows :
      (off off' : ℕ → ℕ) (ph : Phase) → off p ≤ off' p → OnWay off p o ph → OnWay off' p o ph
  OnWay-grows off off' (delivering q m k) le w = w
  OnWay-grows off off' (burying q m) le w = w
  OnWay-grows off off' (committing q) le w = w
  OnWay-grows off off' looping le w = omega (arith, w, le)
  OnWay-grows off off' starting le w = w
  OnWay-grows off off' stopped le w = w
  OnWay-grows off off' (fetching q) le w = w
  OnWay-grows off off' (waiting q) le w = w

  phase-goto : (t : System) (ph : Phase) → ((goto t i ph).workers i).phase ≡ ph
  phase-goto t ph = ground arith

  p_idx-goto : (t : System) (ph : Phase) → ((goto t i ph).workers i).p_idx ≡ (t.workers i).p_idx
  p_idx-goto t ph = ground arith

  -- A move of goroutine `i` to the phase `ph`, one move nearer to the head of the loop.
  nearer :
      (n : ℕ) (t u : System) (before ph : Phase)
      → (t.workers i).p_idx ≡ p
      → n + left max before ≤ bound
      → (u.workers i).phase ≡ ph
      → (u.workers i).p_idx ≡ (t.workers i).p_idx
      → suc (left max ph) ≤ left max before
      → OnWay (get_offset u.group) p o ph
      → Within (suc n) u
  nearer n t u before ph place few e same le w = record {
    place = same ∙ place;
    few = rw e (omega (arith, few, le));
    way = rw e w;
  }

  next_attempt-nearer :
      (off : ℕ → ℕ) (q k : ℕ) (m : Message)
      → q ≡ o
      → (suc (left max (next_attempt max q m (k + 1) true)) ≤ left max (delivering q m k))
        × OnWay off p o (next_attempt max q m (k + 1) true)
  unfolding next_attempt
  next_attempt-nearer off q k m e = elim (Bool-cases (leb (k + 1) max)) [
    | inl again ↦ rw again (ground arith, e)
    | inr over ↦ rw over (omega arith, e)
  ]

  own-Within :
      (n : ℕ) (t u : System) (ph : Phase) (a : Act)
      → ph ≢ looping
      → (t.workers i).p_idx ≡ p
      → n + left max ph ≤ bound
      → OnWay (get_offset t.group) p o ph
      → move max t i ph a ≡ some u
      → Within (suc n) u
  unfolding move accept bury commit_next
  own-Within n t u (delivering q m k) (answered true) away place few way h =
      let (le, w) = next_attempt-nearer (get_offset t.group) q k m way in
      subst (Within (suc n)) (some-injective _ u h) (
        nearer n t (goto t i (next_attempt max q m (k + 1) true)) (delivering q m k)
          (next_attempt max q m (k + 1) true) place few
          (phase-goto t (next_attempt max q m (k + 1) true))
          (p_idx-goto t (next_attempt max q m (k + 1) true)) le w)
  own-Within n t u (delivering q m k) (answered false) away place few way h =
      subst (Within (suc n)) (some-injective _ u h) (
        nearer n t (accept t i q m) (delivering q m k) (committing q) place few
          (phase-goto t (committing q)) (p_idx-goto t (committing q)) (omega arith) way)
  own-Within n t u (burying q m) run away place few way h =
      subst (Within (suc n)) (some-injective _ u h) (
        nearer n t (bury t i q m) (burying q m) (committing q) place few
          (phase-goto t (committing q)) (p_idx-goto t (committing q)) (omega arith) way)
  own-Within n t u (committing q) run away place few way h =
      subst (Within (suc n)) (some-injective _ u h) (
        nearer n t (commit_next t i q) (committing q) looping place few (phase-goto t looping)
          (p_idx-goto t looping) (omega arith)
          (subst (λ x. x < get_offset (commit t.group (t.workers i).p_idx (q + 1)) p) way
            (rw place (commit-covers t.group p q))))
  own-Within n t u looping a away place few way h = absurd (away refl)
  own-Within n t u starting a away place few way h = elim way [ ]
  own-Within n t u stopped a away place few way h = elim way [ ]
  own-Within n t u (fetching q) a away place few way h = elim way [ ]
  own-Within n t u (waiting q) a away place few way h = elim way [ ]
  own-Within n t u _ _ away place few way h = cc

  Run-Within : {n : ℕ} {t : System} → Within 0 s → Run max i s n t → Within n t
  Run-Within v stay = v
  Run-Within v (own {n} {t} {u} a r away h) =
      let w = Run-Within v r in own-Within n t u (t.workers i).phase a away w.place w.few w.way h
  Run-Within v (other {n} {t} {u} r st same) =
      let w = Run-Within v r in
      record {
        place = ap (λ (x : Worker). x.p_idx) same ∙ w.place;
        few = rw same w.few;
        way = rw same (
            OnWay-grows (get_offset t.group) (get_offset u.group) (t.workers i).phase
              (Step-grows st p) w.way);
      }

-- The handler's answer, in a call of it; true is an error.
abbrev pub act_of : Bool → Phase → Act
act_of failed (delivering o m attempt) = answered failed
act_of failed _ = run

-- Goroutine `i` is at the head of the loop, with offset `o` of partition `p` committed, or it has made
-- fewer than `bound` moves and can make one, whatever the handler answers.
abbrev pub Returns : (max i p o bound n : ℕ) → System → Type 0
Returns max i p o bound n t =
    (((t.workers i).phase ≡ looping) × (o < get_offset t.group p))
    ⊎ ((n < bound)
        × ((failed : Bool)
            → (u : System) × (move max t i (t.workers i).phase (act_of failed (t.workers i).phase)
                ≡ some u)))

goes_on :
    (max i p o bound n : ℕ) (t : System) (ph : Phase)
    → (t.workers i).phase ≡ ph
    → n + left max ph ≤ bound
    → OnWay (get_offset t.group) p o ph
    → Returns max i p o bound n t
unfolding move
goes_on max i p o bound n t (delivering q m k) e few way = inr (
  omega (arith, few),
  λ failed. elim (Bool-cases failed) [
    | inl f ↦ (goto t i (next_attempt max q m (k + 1) true), rw (e, f) refl)
    | inr f ↦ (accept t i q m, rw (e, f) refl)
  ],
)
goes_on max i p o bound n t (burying q m) e few way =
    inr (omega (arith, few), λ failed. (bury t i q m, rw e refl))
goes_on max i p o bound n t (committing q) e few way =
    inr (omega (arith, few), λ failed. (commit_next t i q, rw e refl))
goes_on max i p o bound n t looping e few way = inl (e, way)
goes_on max i p o bound n t starting e few way = elim way [ ]
goes_on max i p o bound n t stopped e few way = elim way [ ]
goes_on max i p o bound n t (fetching q) e few way = elim way [ ]
goes_on max i p o bound n t (waiting q) e few way = elim way [ ]

-- A goroutine is about to call the handler for attempt k of the message at offset o, and makes n moves
-- that do not start at the head of the loop, with any steps of the others in between. Then it is at the
-- head of the loop and its group's offset is past o, or n is below max - k + 3 and it can move, whatever
-- the handler answers.
pub delivering-Returns :
    (max i n : ℕ) (s t : System) (o : ℕ) (m : Message) (k : ℕ)
    → (s.workers i).phase ≡ delivering o m k
    → Run max i s n t
    → Returns max i (s.workers i).p_idx o ((max - k) + 3) n t
delivering-Returns max i n s t o m k e r =
    let p = (s.workers i).p_idx in
    let v : Within max i s p o ((max - k) + 3) 0 s = record {
      place = refl;
      few = rw e (omega arith);
      way = rw e refl;
    } in
    let w = Run-Within max i s p o ((max - k) + 3) v r in
    goes_on max i p o ((max - k) + 3) n t (t.workers i).phase refl w.few w.way

-- ===== src/Broker/Publishing/Reached.antt =====
-- internal/broker/broker.go: calls of `Publish` that interleave.
use mathlib.Core.Option.{some-injective}
use go_kafka.Base.{
  ℕ, ◌≤◌, ◌≡◌, ◌⊎◌, refl, inl, inr, List, [], ◌∷◌, ◌++◌, none, some, Bytes, arith, length,
  get_elem?, set, get_elem?-set_self, get_elem?-set_ne, get_elem?-lt, get_elem?-append_left,
  get_elem?-append_last, length-append, get_elem?-none, sum_of, sum_of-set, sum_of-append,
  Option-cases, ap, ◌∙◌, sym, subst, ℕ_discrete, dec_lt, bytes_key,
}
use go_kafka.Base.Dict.{lookup}
use go_kafka.Broker.{Broker, Topic}
use go_kafka.Broker.Log.{Message, append}
use go_kafka.Broker.Invariant.{IsBroker}
use go_kafka.Broker.Invariant.Settling.{dead_letter, commit_group}
use go_kafka.Broker.Logs.{fetch, Extends, replace-Extends}
use go_kafka.Broker.Publishing.{
  Call, Caller, Phase, entering, appending, counting, returned, System, message_of, advance, moved,
  move, Step, begins, moves, buries, commits, Reach, here, later,
}
use go_kafka.Broker.Publishing.Moves.{
  Owes, Owes-IsBroker, IsBroker-Owes, Owes-ext, dead_letter-Owes, commit_group-Owes,
}
use go_kafka.Broker.Publishing.Calls.{Holds, Holds-Extends, debt, Running, Advanced, advanced}

-- The messages of a topic that are stored and not yet counted.
abbrev pub owed : List Caller → Bytes → ℕ
owed callers j = sum_of (λ (x : Caller). debt x.call x.phase j) callers

pub record Inv (s : System) : Type 0 where
  pub owes : Owes s.broker (owed s.callers)
  pub held : (i : ℕ) (x : Caller) → get_elem? s.callers i ≡ some x → Holds s.broker x.call x.phase

-- A change of the broker by another goroutine.
other-Inv :
    (s : System) (b : Broker)
    → Extends s.broker b
    → Owes b (owed s.callers)
    → Inv s
    → Inv (record s { broker = b })
other-Inv s b e w v = record {
  owes = w;
  held = λ i x q. Holds-Extends s.broker b x.call x.phase e (v.held i x q);
}

begins-Inv :
    (s : System) (c : Call)
    → Inv s
    → Inv (record s { callers = s.callers ++ record { call = c; phase = entering } ∷ [] })
begins-Inv s c v = record {
  owes =
      Owes-ext
        (λ j.
          sum_of-append (λ (x : Caller). debt x.call x.phase j) s.callers
            (record { call = c; phase = entering })
          ∙ omega arith)
        v.owes;
  held = λ i x q. elim (dec_lt i (length s.callers)) [
    | yes old ↦ v.held i x (sym (get_elem?-append_left s.callers _ i old) ∙ q)
    | no new ↦ elim (ℕ_discrete i (length s.callers)) [
      | yes last ↦
          let y : Caller = record { call = c; phase = entering } in
          let h : get_elem? (s.callers ++ y ∷ []) i ≡ some y =
            ap (get_elem? (s.callers ++ y ∷ [])) last ∙ get_elem?-append_last s.callers y in
          subst (λ (z : Caller). Holds s.broker z.call z.phase) (some-injective y x (sym h ∙ q)) tt
      | no beyond ↦
          let y : Caller = record { call = c; phase = entering } in
          let far : length (s.callers ++ y ∷ []) ≤ i =
            omega (arith, length-append s.callers (y ∷ [])) in
          let z : none ≡ some x = sym (get_elem?-none (s.callers ++ y ∷ []) i far) ∙ q in cc
    ]
  ];
}

module _ (s : System) (v : Inv s) (i : ℕ) (x : Caller) (q : get_elem? s.callers i ≡ some x) where
  moved-Inv : (a : Advanced s.broker (owed s.callers) x.call x.phase) → Inv (moved s i x a.result)
  moved-Inv a =
      let y : Caller = record x { phase = a.result.1 } in
      record {
        owes =
            a.owes (owed (set s.callers i y))
              (λ j. sum_of-set (λ (z : Caller). debt z.call z.phase j) s.callers i x y q);
        held = λ j z e. elim (ℕ_discrete i j) [
          | yes same ↦
              let h : get_elem? (set s.callers i y) j ≡ some y =
                subst (λ k. get_elem? (set s.callers i y) k ≡ some y) same
                  (get_elem?-set_self s.callers i y (get_elem?-lt s.callers i q)) in
              subst (λ (w : Caller). Holds a.result.0 w.call w.phase)
                (some-injective y z (sym h ∙ e)) a.holds
          | no other ↦
              Holds-Extends s.broker a.result.0 z.call z.phase a.extends
                (v.held j z (sym (get_elem?-set_ne s.callers i j y other) ∙ e))
        ];
      }

  move-moved :
      (a : Advanced s.broker (owed s.callers) x.call x.phase)
      → move s i ≡ some (moved s i x a.result)
  unfolding move
  move-moved a = rw (q, a.moves) refl

  running : Running x.phase → Advanced s.broker (owed s.callers) x.call x.phase
  running r = advanced s.broker (owed s.callers) v.owes x.call x.phase r (v.held i x q)

Running-cases : (ph : Phase) → Running ph ⊎ ((p : ℕ) × (o : ℕ) × (ph ≡ returned p o))
Running-cases entering = inl tt
Running-cases (appending p) = inl tt
Running-cases (counting p o) = inl tt
Running-cases (returned p o) = inr (p, o, refl)

advance_stops :
    (b : Broker) (c : Call) (ph : Phase) (p o : ℕ) → ph ≡ returned p o → advance b c ph ≡ none
unfolding advance
advance_stops b c ph p o e = ap (advance b c) e

move_stops :
    (s : System) (i : ℕ) (x : Caller) (p o : ℕ)
    → get_elem? s.callers i ≡ some x
    → x.phase ≡ returned p o
    → move s i ≡ none
unfolding move
move_stops s i x p o q e = rw (q, advance_stops s.broker x.call x.phase p o e) refl

move_nobody : (s : System) (i : ℕ) → get_elem? s.callers i ≡ none → move s i ≡ none
unfolding move
move_nobody s i q = rw q refl

moves-Inv : (s t : System) (i : ℕ) → move s i ≡ some t → Inv s → Inv t
moves-Inv s t i e v = elim (Option-cases (get_elem? s.callers i)) [
  | inl q ↦ let z : none ≡ some t = sym (move_nobody s i q) ∙ e in cc
  | inr (x, q) ↦ elim (Running-cases x.phase) [
    | inl r ↦
        let a = running s v i x q r in
        subst Inv (some-injective (moved s i x a.result) t (sym (move-moved s v i x q a) ∙ e))
          (moved-Inv s v i x q a)
    | inr (p, o, stop) ↦ let z : none ≡ some t = sym (move_stops s i x p o q stop) ∙ e in cc
  ]
]

dead_letter-Extends :
    (b : Broker) (name : Bytes) (t : Topic) (m : Message)
    → lookup name b.topics ≡ some t
    → Extends b (dead_letter b name t m)
dead_letter-Extends b name t m e =
    replace-Extends b (dead_letter b name t m) name t (record t { dlq = (append t.dlq m).0 }) e refl
      refl (λ i o old h. h)

Step-Inv : {s t : System} → Step s t → Inv s → Inv t
Step-Inv {s} (begins c) v = begins-Inv s c v
Step-Inv {s} {t} (moves i e) v = moves-Inv s t i e v
Step-Inv {s} (buries name t m e) v =
    other-Inv s (dead_letter s.broker name t m) (dead_letter-Extends s.broker name t m e)
      (dead_letter-Owes s.broker (owed s.callers) v.owes name t m e) v
Step-Inv {s} (commits name gs group_id cg p_idx offset) v =
    other-Inv s (commit_group s.broker name gs group_id cg p_idx offset)
      (record { kept = λ j i o m h. h; same_width = λ j t h. (t, h, refl) })
      (commit_group-Owes s.broker (owed s.callers) v.owes name gs group_id cg p_idx offset) v

pub Reach-Inv : {s t : System} → Reach s t → Inv s → Inv t
Reach-Inv here v = v
Reach-Inv (later r st) v = Step-Inv st (Reach-Inv r v)

pub start-Inv : (b : Broker) → IsBroker b → Inv (record { broker = b; callers = [] })
unfolding sum_of
start-Inv b v = record {
  owes = IsBroker-Owes b (owed []) (λ j. refl) v;
  held = λ i x q. ground arith;
}

-- No call panics, each that has returned has its message where it says, and the broker is well-formed
-- whenever no call is between its append and its count.
pub record IsSound (s : System) : Type 0 where
  pub goes_on :
      (i : ℕ) (x : Caller)
      → get_elem? s.callers i ≡ some x
      → Running x.phase
      → (t : System) × (move s i ≡ some t)
  pub placed :
      (i : ℕ) (x : Caller) (p offset : ℕ)
      → get_elem? s.callers i ≡ some x
      → x.phase ≡ returned p offset
      → fetch s.broker x.call.topic p offset
        ≡ some (record (message_of x.call p) { offset = offset })
  pub quiet : ((j : Bytes) → owed s.callers j ≡ 0) → IsBroker s.broker

-- From a well-formed broker without calls, however calls of Publish interleave at their critical
-- sections, with each other and with dead-lettering and committing consumers: no call panics, each call
-- that has returned has its message at its partition and offset, and the broker is well-formed whenever
-- no message is stored and not yet counted.
pub Reach-IsSound :
    {b : Broker} {t : System}
    → IsBroker b
    → Reach (record { broker = b; callers = [] }) t
    → IsSound t
Reach-IsSound {b} {t} v r =
    let w = Reach-Inv r (start-Inv b v) in
    record {
      goes_on = λ i x q run.
          let a = running t w i x q run in (moved t i x a.result, move-moved t w i x q a);
      placed = λ i x p offset q e. subst (Holds t.broker x.call) e (w.held i x q);
      quiet = λ none_owed. Owes-IsBroker t.broker (owed t.callers) none_owed w.owes;
    }

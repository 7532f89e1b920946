-- ===== src/Broker/Consume/Grows.antt =====
-- internal/broker/broker.go: no step of `consumePartition` lowers a committed offset.
use mathlib.Core.Option.{some-injective}
use go_kafka.Base.{ℕ, ◌+◌, ◌≤◌, ◌≡◌, true, false, some, arith, nat_key, subst}
use go_kafka.Broker.Group.{get_offset}
use go_kafka.Broker.Consume.{
  Phase, starting, looping, fetching, waiting, committing, delivering, burying, System, Act, run,
  notified, cancelled, answered, move, bury, accept, commit_next, Step, publishes, works,
  other_subscribes, other_receives, other_buries,
}
use go_kafka.Broker.Consume.Held.{commit_le, start-Quiet, fetch_next-Quiet, receive-Quiet}

move_grows :
    (max : ℕ) (s t : System) (i : ℕ) (ph : Phase) (a : Act)
    → move max s i ph a ≡ some t
    → (p : ℕ) → get_offset s.group p ≤ get_offset t.group p
unfolding move accept bury commit_next
move_grows max s t i starting run h p =
    let (ch, q) = start-Quiet s t i h in rw q.group (omega arith)
move_grows max s t i looping run h p =
    subst (λ u. get_offset s.group p ≤ get_offset u.group p) (some-injective _ t h) (omega arith)
move_grows max s t i (fetching o) run h p =
    let (found, q) = fetch_next-Quiet max s t i o h in rw q.group (omega arith)
move_grows max s t i (waiting o) cancelled h p =
    subst (λ u. get_offset s.group p ≤ get_offset u.group p) (some-injective _ t h) (omega arith)
move_grows max s t i (waiting o) notified h p =
    let q = receive-Quiet s t i h in rw q.group (omega arith)
move_grows max s t i (delivering o m k) (answered true) h p =
    subst (λ u. get_offset s.group p ≤ get_offset u.group p) (some-injective _ t h) (omega arith)
move_grows max s t i (delivering o m k) (answered false) h p =
    subst (λ u. get_offset s.group p ≤ get_offset u.group p) (some-injective _ t h) (omega arith)
move_grows max s t i (burying o m) run h p =
    subst (λ u. get_offset s.group p ≤ get_offset u.group p) (some-injective _ t h) (omega arith)
move_grows max s t i (committing o) run h p =
    subst (λ u. get_offset s.group p ≤ get_offset u.group p) (some-injective _ t h)
      (commit_le s.group (s.workers i).p_idx (o + 1) p)
move_grows max s t i _ _ h p = cc

pub Step-grows :
    {max : ℕ} {s t : System} → Step max s t → (p : ℕ) → get_offset s.group p ≤ get_offset t.group p
Step-grows (publishes q o m u h e) p = rw e (omega arith)
Step-grows {max} {s} {t} (works i a h) p = move_grows max s t i (s.workers i).phase a h p
Step-grows (other_subscribes q part at e) p = rw e (omega arith)
Step-grows (other_receives q ch part at foreign e) p = rw e (omega arith)
Step-grows (other_buries m e) p = rw e (omega arith)

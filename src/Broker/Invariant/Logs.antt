-- ===== src/Broker/Invariant/Logs.antt =====
-- internal/broker/broker.go: the log of one partition and its offsets.
use go_kafka.Base.{
  ℕ, suc, ◌+◌, ◌-◌, ◌≤◌, ◌≡◌, refl, List, [], ◌∷◌, ◌++◌, some, arith, length, get_elem?, drop,
  drop-nil, zero, sym, dec_le,
}
use go_kafka.Base.Int.{pos, negsuc}
use go_kafka.Broker.{select_from}
use go_kafka.Broker.Log.{Message}

abbrev pub Numbered : ℕ → List Message → Type 0
Numbered n [] = Unit
Numbered n (m ∷ ms) = (m.offset ≡ n) × Numbered (suc n) ms

pub Numbered-append :
    (n : ℕ) (ms : List Message) (m : Message)
    → Numbered n ms
    → m.offset ≡ n + length ms
    → Numbered n (ms ++ m ∷ [])
Numbered-append n [] m h e = omega arith
Numbered-append n (x ∷ ms) m h e = (h.0, Numbered-append (suc n) ms m h.1 (omega arith))

pub Numbered-get :
    (n : ℕ) (ms : List Message) (i : ℕ) {m : Message}
    → Numbered n ms
    → get_elem? ms i ≡ some m
    → m.offset ≡ n + i
Numbered-get n [] i h e = absurd (ground arith)
Numbered-get n (x ∷ ms) zero h e = ground arith
Numbered-get n (x ∷ ms) (suc i) h e = omega (arith, Numbered-get (suc n) ms i h.1 e)

select_all : (n k : ℕ) (ms : List Message) → Numbered n ms → k ≤ n → select_from (pos k) ms ≡ ms
unfolding select_from
select_all n k [] h le = refl
select_all n k (m ∷ ms) h le = ground (arith, select_all (suc n) k ms h.1)

-- On a numbered log the scan of `Replay` is a slice.
pub select_from-drop :
    (n k : ℕ) (ms : List Message) → Numbered n ms → select_from (pos k) ms ≡ drop (k - n) ms
unfolding select_from
select_from-drop n k [] h = sym (drop-nil (k - n))
select_from-drop n k (m ∷ ms) h = elim (dec_le k n) [
  | yes le ↦
      let all = select_all n k (m ∷ ms) h le in
      let z : k - n ≡ 0 = omega arith in rw z (ground (arith, all))
  | no gt ↦
      let z : k - n ≡ suc (k - suc n) = omega arith in
      rw z (ground (arith, select_from-drop (suc n) k ms h.1))
]

pub select_from-negative : (k : ℕ) (ms : List Message) → select_from (negsuc k) ms ≡ ms
unfolding select_from
select_from-negative k [] = refl
select_from-negative k (m ∷ ms) = ground (arith, select_from-negative k ms)

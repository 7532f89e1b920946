-- ===== src/Base/Sums.antt =====
-- Sums over a list, and what a change of one element does to them.
use Prim.Native.Nat.{ℕ, zero, suc, ◌+◌, ◌≤◌}
use mathlib.Core.Path.{◌≡◌, refl}
use mathlib.Core.Option.{some}
use mathlib.Core.List.{List, [], ◌∷◌, ◌++◌}
use native.Mathlib.Omega.{arith}
use go_kafka.Base.Lists.{get_elem?, set, All}

module _ {A : Type 0} (f : A → ℕ) where
  unfoldable pub sum_of : List A → ℕ
  sum_of [] = 0
  sum_of (x ∷ xs) = f x + sum_of xs

  pub sum_of-set :
      (xs : List A) (i : ℕ) (x x' : A)
      → get_elem? xs i ≡ some x
      → sum_of (set xs i x') + f x ≡ sum_of xs + f x'
  unfolding sum_of
  sum_of-set [] i x x' e = ground arith
  sum_of-set (y ∷ ys) zero x x' e = ground arith
  sum_of-set (y ∷ ys) (suc i) x x' e = omega (arith, sum_of-set ys i x x' e)

  pub sum_of-append : (xs : List A) (x : A) → sum_of (xs ++ x ∷ []) ≡ sum_of xs + f x
  unfolding sum_of
  sum_of-append [] x = omega arith
  sum_of-append (y ∷ ys) x = omega (arith, sum_of-append ys x)

  pub le-sum_of : (xs : List A) (i : ℕ) (x : A) → get_elem? xs i ≡ some x → f x ≤ sum_of xs
  unfolding sum_of
  le-sum_of [] i x e = ground arith
  le-sum_of (y ∷ ys) zero x e = ground arith
  le-sum_of (y ∷ ys) (suc i) x e = omega (arith, le-sum_of ys i x e)

  pub sum_of-zero : (xs : List A) → All (λ x. f x ≡ 0) xs → sum_of xs ≡ 0
  unfolding sum_of
  sum_of-zero [] h = refl
  sum_of-zero (x ∷ xs) h = omega (arith, h.0, sum_of-zero xs h.1)

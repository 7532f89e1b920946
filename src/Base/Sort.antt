-- ===== src/Base/Sort.antt =====
-- Go's `sort.Slice` by insertion. Go leaves the order of equal elements open; here it is that of
-- the input.
use mathlib.Core.Path.{◌≡◌}
use mathlib.Core.Bool.{Bool, true, false}
use mathlib.Core.List.{List, [], ◌∷◌, Perm}
use mathlib.Core.List.Perm
use go_kafka.Base.Tests.{if◌then◌else◌, Bool-cases}
use mathlib.Core.Logic.{◌⊎◌, inl, inr}

module _ {ℓ} {A : Type ℓ} (less : A → A → Bool) where
  -- Behind the elements that `a` is not before.
  unfoldable pub insert_sorted : A → List A → List A
  insert_sorted a [] = a ∷ []
  insert_sorted a (x ∷ xs) = if less a x then a ∷ x ∷ xs else x ∷ insert_sorted a xs

  unfoldable pub sort_slice : List A → List A
  sort_slice [] = []
  sort_slice (x ∷ xs) = insert_sorted x (sort_slice xs)

  insert_sorted-perm : (a : A) (xs : List A) → Perm (insert_sorted a xs) (a ∷ xs)
  unfolding insert_sorted
  insert_sorted-perm a [] = Perm.refl (a ∷ [])
  insert_sorted-perm a (x ∷ xs) = elim (Bool-cases (less a x)) [
    | inl e ↦ rw e (Perm.refl (a ∷ x ∷ xs))
    | inr e ↦ rw e (Perm.trans (Perm.cons x (insert_sorted-perm a xs)) (Perm.swap a x xs))
  ]

  -- Sorting loses and adds nothing.
  pub sort_slice-perm : (xs : List A) → Perm (sort_slice xs) xs
  unfolding sort_slice
  sort_slice-perm [] = Perm.nil
  sort_slice-perm (x ∷ xs) =
      Perm.trans (insert_sorted-perm x (sort_slice xs)) (Perm.cons x (sort_slice-perm xs))

  -- No element is before the one in front of it.
  abbrev pub IsSorted : List A → Type 0
  IsSorted [] = Unit
  IsSorted (x ∷ []) = Unit
  IsSorted (x ∷ y ∷ xs) = (less y x ≡ false) × IsSorted (y ∷ xs)

  -- `x` in front of a sorted list that begins with `a` or `y`.
  behind :
      (a x y : A) (xs : List A)
      → less a x ≡ false
      → less y x ≡ false
      → (less a y ≡ true) ⊎ (less a y ≡ false)
      → IsSorted (insert_sorted a (y ∷ xs))
      → IsSorted (x ∷ insert_sorted a (y ∷ xs))
  unfolding insert_sorted
  behind a x y xs e g (inl f) = rw f (λ h. (e, h))
  behind a x y xs e g (inr f) = rw f (λ h. (g, h))

  module _ (asym : (a b : A) → less a b ≡ true → less b a ≡ false) where
    insert_sorted-IsSorted : (a : A) (xs : List A) → IsSorted xs → IsSorted (insert_sorted a xs)
    unfolding insert_sorted
    insert_sorted-IsSorted a [] h = tt
    insert_sorted-IsSorted a (x ∷ []) h = elim (Bool-cases (less a x)) [
      | inl e ↦ rw e (asym a x e, tt)
      | inr e ↦ rw e (e, tt)
    ]
    insert_sorted-IsSorted a (x ∷ y ∷ xs) h =
        let ih = insert_sorted-IsSorted a (y ∷ xs) h.1 in
        elim (Bool-cases (less a x)) [
          | inl e ↦ rw e (asym a x e, h)
          | inr e ↦ rw e (behind a x y xs e h.0 (Bool-cases (less a y)) ih)
        ]

    pub sort_slice-IsSorted : (xs : List A) → IsSorted (sort_slice xs)
    unfolding sort_slice
    sort_slice-IsSorted [] = tt
    sort_slice-IsSorted (x ∷ xs) = insert_sorted-IsSorted x (sort_slice xs) (sort_slice-IsSorted xs)

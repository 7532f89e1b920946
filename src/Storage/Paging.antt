-- ===== src/Storage/Paging.antt =====
-- internal/storage/store.go: the page that `List` cuts out of the sorted candidates.
use go_kafka.Base.{
  ℕ, zero, suc, ◌+◌, ◌-◌, ◌*◌, ◌%◌, ◌^◌, ◌≤◌, ◌<◌, ◌≡◌, refl, List, [], ◌∷◌, none, some, arith,
  length, take, drop, ltb, leb, if◌then◌else◌, Bool-cases, inl, inr, length-drop, drop-nil, ap, ◌∙◌,
  sym,
}
use go_kafka.Base.Int.{ℤ, pos, negsuc}
use go_kafka.Base.Text.{Unicode}
use go_kafka.Base.Sort.{sort_slice, sort_slice-perm, IsSorted, sort_slice-IsSorted}
use mathlib.Core.List.{Perm}
use go_kafka.Events.{WeekendEvent, Filter}
use go_kafka.Storage.{
  Store, ListResult, page_at, list, candidates, newest_first, page_of, limit_of, wrap64,
}

wrap64-small : (n : ℕ) → n < 2 ^ 63 → wrap64 n ≡ pos n
wrap64-small n h = ground arith

wrap64-negative : (n : ℕ) → 2 ^ 63 ≤ n % 2 ^ 64 → wrap64 n ≡ negsuc (2 ^ 64 - n % 2 ^ 64 - 1)
wrap64-negative n h = ground arith

module _ {A : Type 0} where
  drop-past : (n : ℕ) (xs : List A) → length xs ≤ n → drop n xs ≡ []
  drop-past n [] h = drop-nil n
  drop-past zero (x ∷ xs) h = absurd (omega arith)
  drop-past (suc n) (x ∷ xs) h = drop-past n xs (omega arith)

  take-past : (n : ℕ) (xs : List A) → length xs ≤ n → take n xs ≡ xs
  take-past zero [] h = refl
  take-past (suc n) [] h = refl
  take-past zero (x ∷ xs) h = absurd (omega arith)
  take-past (suc n) (x ∷ xs) h = ap (◌∷◌ x) (take-past n xs (omega arith))

  take-nil : (n : ℕ) → take {A = A} n [] ≡ []
  take-nil zero = refl
  take-nil (suc n) = refl

  take-clipped :
      (n k : ℕ) (xs : List A)
      → take ((if ltb (length xs) (n + k) then length xs else n + k) - n) (drop n xs)
        ≡ take k (drop n xs)
  take-clipped n k xs = elim (Bool-cases (ltb (length xs) (n + k))) [
    | inl past ↦ rw past (
        take-past (length xs - n) (drop n xs) (omega (arith, length-drop n xs))
        ∙ sym (take-past k (drop n xs) (ground (arith, length-drop n xs))))
    | inr within ↦ rw within (ap (λ m. take m (drop n xs)) (omega arith))
  ]

module _ {F : Type 0} (c : List (WeekendEvent F)) (page limit : ℕ) where
  -- The page as the documentation of `List` means it.
  abbrev pub page_spec : ListResult F
  page_spec = record {
    events = take limit (drop ((page - 1) * limit) c);
    total = length c;
    page = page;
    limit = limit;
  }

  abbrev with_events : List (WeekendEvent F) → ListResult F
  with_events es = record { events = es; total = length c; page = page; limit = limit }

  pub page_at-small : (page - 1) * limit < 2 ^ 63 → page_at c page limit ≡ some page_spec
  unfolding page_at
  page_at-small h =
      rw (wrap64-small ((page - 1) * limit) h)
        (elim (Bool-cases (leb (length c + 0) ((page - 1) * limit + 0))) [
          | inl past ↦ rw past (
              ap (λ es. some (with_events es))
                (sym (
                  ap (take limit) (drop-past ((page - 1) * limit) c (ground arith))
                  ∙ take-nil limit)))
          | inr within ↦
              rw within
                (ap (λ es. some (with_events es)) (take-clipped ((page - 1) * limit) limit c))
        ])

  pub page_at-panics : 2 ^ 63 ≤ ((page - 1) * limit) % 2 ^ 64 → page_at c page limit ≡ none
  unfolding page_at
  page_at-panics h = rw (wrap64-negative ((page - 1) * limit) h) (ground arith)

module _ {F : Type 0} where
  -- The times of creation descend.
  abbrev pub NewestFirst : List (WeekendEvent F) → Type 0
  NewestFirst [] = Unit
  NewestFirst (x ∷ []) = Unit
  NewestFirst (x ∷ y ∷ es) = (y.created_at ≤ x.created_at) × NewestFirst (y ∷ es)

  IsSorted-NewestFirst : (es : List (WeekendEvent F)) → IsSorted newest_first es → NewestFirst es
  IsSorted-NewestFirst [] h = tt
  IsSorted-NewestFirst (x ∷ []) h = tt
  IsSorted-NewestFirst (x ∷ y ∷ es) h = (ground arith, IsSorted-NewestFirst (y ∷ es) h.1)

module _ {F : Type 0} (u : Unicode) (zero_score : F) (s : Store F) (f : Filter)
    (page limit : ℤ) where
  abbrev pub sorted : List (WeekendEvent F)
  sorted = sort_slice newest_first (candidates u zero_score s f)

  abbrev pub start_of : ℕ
  start_of = (page_of page - 1) * limit_of limit

  -- Where the page's first index fits an int64, `List` does not panic and returns the events from that
  -- index on, at most a page of them, with the number of all the candidates.
  pub list_page :
      start_of < 2 ^ 63
      → list u zero_score s f page limit ≡ some (page_spec sorted (page_of page) (limit_of limit))
  unfolding list
  list_page h = page_at-small sorted (page_of page) (limit_of limit) h

  -- Where the page's first index wraps to a negative int64, `List` panics.
  pub list_panics : 2 ^ 63 ≤ start_of % 2 ^ 64 → list u zero_score s f page limit ≡ none
  unfolding list
  list_panics h = page_at-panics sorted (page_of page) (limit_of limit) h

  -- Where the page's first index fits an int64, the page that `List` returns is cut from a rearrangement
  -- of the collected candidates in which no event was created before the one behind it.
  pub list_order :
      start_of < 2 ^ 63
      → (ordered : List (WeekendEvent F)) × (list u zero_score s f page limit
          ≡ some (page_spec ordered (page_of page) (limit_of limit)))
        × Perm ordered (candidates u zero_score s f)
        × NewestFirst ordered
  list_order h = (
    sorted,
    list_page h,
    sort_slice-perm newest_first (candidates u zero_score s f),
    IsSorted-NewestFirst sorted
        (sort_slice-IsSorted newest_first (λ a b q. ground arith) (candidates u zero_score s f)),
  )

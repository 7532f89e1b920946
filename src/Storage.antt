-- ===== src/Storage.antt =====
-- internal/storage/store.go: the store's state and its operations, each under the store's lock.
-- Lengths are those of slices in memory. `start` of `List` is an int64 and wraps.
pub mod Indices
pub mod Invariant
pub mod Updates
pub mod Evict
pub mod Paging
pub mod Refines
pub mod Scans
pub mod Candidates
pub mod Search
pub mod Stats
use mathlib.Core.Bool.{Bool, true, false, ◌&&◌, ◌||◌, not}
use go_kafka.Base.{
  ℕ, zero, suc, ◌+◌, ◌-◌, ◌*◌, ◌%◌, ◌^◌, List, [], ◌∷◌, map, Option, none, some, Bytes, lit,
  bytes_key, length, take, drop, ltb, leb, if◌then◌else◌, ◌>>=◌,
}
use go_kafka.Base.Int.{ℤ, pos, negsuc, pos_part, ltb_ℤ, leb_ℤ}
use go_kafka.Base.Float.{Float64}
use go_kafka.Base.Time.{Time, before, is_zero}
use go_kafka.Base.Text.{Unicode, to_lower, contains}
use go_kafka.Base.Sort.{sort_slice}
use go_kafka.Base.Dict.{Dict, lookup, insert, remove, or_zero, values, keys}
use go_kafka.Events.{WeekendEvent, Filter, matches_filter, is_empty, zero_event}
use Indices.{Index, add_id, remove_id, ids_of}

pub record Store (F : Type 0) : Type 0 where
  pub primary : Dict Bytes (WeekendEvent F)
  pub by_category : Index
  pub by_priority : Index

pub record ListResult (F : Type 0) : Type 0 where
  pub events : List (WeekendEvent F)
  pub total : ℕ
  pub page : ℕ
  pub limit : ℕ

-- The value of an int64 sum or product of non-negative numbers.
abbrev pub wrap64 : ℕ → ℤ
wrap64 n = let w = n % 2 ^ 64 in if ltb w (2 ^ 63) then pos w else negsuc (2 ^ 64 - w - 1)

-- `page < 1` and `limit < 1 || limit > 100` take the defaults.
abbrev pub page_of : ℤ → ℕ
page_of page = if ltb_ℤ page (pos 1) then 1 else pos_part page

abbrev pub limit_of : ℤ → ℕ
limit_of limit = if ltb_ℤ limit (pos 1) || ltb_ℤ (pos 100) limit then 20 else pos_part limit

module _ {F : Type 0} where
  abbrev pub new : Store F
  new = record { primary = []; by_category = []; by_priority = [] }

  unfoldable pub get : Store F → Bytes → Option (WeekendEvent F)
  get s id = lookup id s.primary

  unfoldable pub size : Store F → ℕ
  size s = length s.primary

  -- `candidates[start:end]`; `none` is the panic of a negative bound.
  unfoldable pub page_at : List (WeekendEvent F) → ℕ → ℕ → Option (ListResult F)
  page_at candidates page limit =
      let total = length candidates in
      let start = wrap64 ((page - 1) * limit) in
      if leb_ℤ (pos total) start
      then some (record { events = []; total = total; page = page; limit = limit })
      else (elim start [
        | negsuc n ↦ none
        | pos n ↦
            let end = if ltb total (n + limit) then total else n + limit in
            some (record {
              events = take (end - n) (drop n candidates);
              total = total;
              page = page;
              limit = limit;
            })
      ])

  abbrev pub newest_first : WeekendEvent F → WeekendEvent F → Bool
  newest_first a b = before b.created_at a.created_at

  module _ (u : Unicode) where
    unfoldable pub add_index : Store F → WeekendEvent F → Store F
    add_index s e =
        let pri = to_lower u e.priority in
        record s {
          by_category = add_id s.by_category (to_lower u e.category) e.id;
          by_priority = if is_empty pri then s.by_priority else add_id s.by_priority pri e.id;
        }

    unfoldable pub remove_index : Store F → WeekendEvent F → Store F
    remove_index s e =
        let pri = to_lower u e.priority in
        record s {
          by_category = remove_id s.by_category (to_lower u e.category) e.id;
          by_priority = if is_empty pri then s.by_priority else remove_id s.by_priority pri e.id;
        }

    -- The index entries of the event that an update replaces.
    abbrev pub unindexed : Store F → Option (WeekendEvent F) → Store F
    unindexed s none = s
    unindexed s (some old) = remove_index s old

    unfoldable pub put : Store F → WeekendEvent F → Store F
    unfolding add_index remove_index
    put s e =
        let s' = unindexed s (lookup e.id s.primary) in
        add_index (record s' { primary = insert e.id e s'.primary }) e

    abbrev pub removed : Store F → Bytes → WeekendEvent F → Store F
    removed s id e = let s' = remove_index s e in record s' { primary = remove id s'.primary }

    unfoldable pub delete : Store F → Bytes → Store F × Bool
    unfolding remove_index
    delete s id = elim (lookup id s.primary) [ none ↦ (s, false) | some e ↦ (removed s id e, true) ]

    abbrev pub expired : Time → WeekendEvent F → Bool
    expired now e = not (is_zero e.expires_at) && before e.expires_at now

    -- One round of the loop of `EvictExpired`.
    abbrev pub evicted : Time → Bytes → WeekendEvent F → Store F → ℕ → Store F × ℕ
    evicted now id e s removed_count =
        if expired now e then (removed s id e, removed_count + 1) else (s, removed_count)

    -- The loop of `EvictExpired` over the entries; it deletes none but the one that it visits.
    unfoldable pub evict_loop : Time → Dict Bytes (WeekendEvent F) → Store F → ℕ → Store F × ℕ
    unfolding remove_index
    evict_loop now [] s removed_count = (s, removed_count)
    evict_loop now ((id, e) ∷ rest) s removed_count =
        let (s', n) = evicted now id e s removed_count in evict_loop now rest s' n

    unfoldable pub evict_expired : Store F → Time → Store F × ℕ
    unfolding evict_loop
    evict_expired s now = evict_loop now s.primary s 0

    unfoldable pub passing : Filter → List (WeekendEvent F) → List (WeekendEvent F)
    passing f [] = []
    passing f (e ∷ es) = let rest = passing f es in if matches_filter u e f then e ∷ rest else rest

    -- An id with no event reads as the zero event.
    unfoldable pub candidates : F → Store F → Filter → List (WeekendEvent F)
    unfolding passing
    candidates zero_score s f =
        if not (is_empty f.category)
        then passing f (
            map (λ id. or_zero (zero_event zero_score) (lookup id s.primary))
              (keys (ids_of s.by_category (to_lower u f.category))))
        else passing f (values s.primary)

    unfoldable pub list : F → Store F → Filter → ℤ → ℤ → Option (ListResult F)
    unfolding candidates page_at
    list zero_score s f page limit =
        page_at (sort_slice newest_first (candidates zero_score s f)) (page_of page)
          (limit_of limit)

module _ (fl : Float64) (u : Unicode) where
  open fl use {F, lt}

  unfoldable pub found_by : Bytes → List (WeekendEvent F) → List (WeekendEvent F)
  found_by q [] = []
  found_by q (e ∷ es) =
      let rest = found_by q es in
      if contains (to_lower u e.name) q || contains (to_lower u e.category) q
      then e ∷ rest
      else rest

  unfoldable pub search : Store F → Bytes → List (WeekendEvent F)
  unfolding found_by
  search s query =
      sort_slice (λ a b. lt b.fun_score a.fun_score)
        (found_by (to_lower u query) (values s.primary))

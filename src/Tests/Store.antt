-- ===== src/Tests/Store.antt =====
-- The store on concrete inputs.
use go_kafka.Base.{
  List, ℕ, true, ◌≡◌, ◌+◌, ◌^◌, refl, [], ◌∷◌, none, some, Bytes, lit, bytes_eq, bytes_key, arith,
}
use go_kafka.Base.Int.{pos, negsuc}
use go_kafka.Base.Dict.{Every-insert, lookup, insert, remove, values}
use go_kafka.Base.Sort.{IsSorted}
use mathlib.Core.List.{Perm}
use go_kafka.Base.Text.{to_lower, is_ascii, equal_fold}
use go_kafka.Events.{WeekendEvent, Filter, matches_filter}
use go_kafka.Storage.{
  search, Store, candidates, new, put, get, size, evict_expired, evict_loop, list, add_index,
  remove_index,
}
use go_kafka.Storage.Indices.{add_id, remove_id}
use go_kafka.Storage.Invariant.{IsIndexed}
use go_kafka.Storage.Updates.{new-IsIndexed, put-IsIndexed}
use go_kafka.Storage.Evict.{swept, evict_expired_lem}
use go_kafka.Storage.Scans.{with_id, picked_by}
use go_kafka.Storage.Search.{hit, higher, search_lem}
use go_kafka.Storage.Candidates.{picked, candidates-picked}
use go_kafka.Storage.Paging.{NewestFirst, list_order, list_page, list_panics, sorted, page_spec}
use go_kafka.Storage.Stats.{stats, score_range}
use go_kafka.Storage.Stats.Counts.{count_at, labelled, stats-counts}
use go_kafka.Metrics
use go_kafka.Metrics.{microseconds}
use go_kafka.Metrics.Ring.{record_all, samples, record_all-last}
use go_kafka.Tests.Events.{plain, whole, hike}

-- `hike` again, in another category and with an expiry time.
abbrev late : WeekendEvent ℕ
late = record hike { category = lit "Social"; priority = lit "high"; expires_at = 5 }

abbrev one : Store ℕ
one = put plain new hike

one-IsIndexed : IsIndexed plain one
one-IsIndexed = put-IsIndexed plain new (new-IsIndexed plain) hike

put-IsIndexed_example : IsIndexed plain (put plain one late)
put-IsIndexed_example = put-IsIndexed plain one one-IsIndexed late

two-IsIndexed : IsIndexed plain (put plain one late)
two-IsIndexed = put-IsIndexed plain one one-IsIndexed late

abbrev two : Store ℕ
two = put plain one late

evict_expired_lem_example :
    IsIndexed plain (evict_expired plain two 9).0
    × (size (evict_expired plain two 9).0 + (evict_expired plain two 9).1 ≡ size two)
    × ((j : Bytes) → get (evict_expired plain two 9).0 j ≡ swept plain 9 (get two j) (get two j))
evict_expired_lem_example = evict_expired_lem plain 9 two two-IsIndexed

evict_run : (evict_expired plain two 9).1 ≡ 1
unfolding evict_expired evict_loop put add_index remove_index add_id remove_id lookup insert remove
    to_lower bytes_eq
evict_run = refl

abbrev all : Filter
all = record { category = []; priority = []; query = [] }

list_page_example :
    list plain 0 two all (pos 1) (pos 0)
    ≡ some (page_spec (sorted plain 0 two all (pos 1) (pos 0)) 1 20)
list_page_example = list_page plain 0 two all (pos 1) (pos 0) (omega arith)

list_panics_example : list plain 0 two all (pos (2 ^ 62 + 1)) (pos 2) ≡ none
list_panics_example = list_panics plain 0 two all (pos (2 ^ 62 + 1)) (pos 2) (omega arith)

record_all-last_example :
    samples
      (record_all Metrics.new (lit "http.latency") (pos 2500 ∷ negsuc 1 ∷ []))
      (lit "http.latency")
    ≡ pos 2 ∷ pos 0 ∷ []
unfolding Metrics.new lookup
record_all-last_example =
    record_all-last Metrics.new (lit "http.latency") (pos 2500 ∷ negsuc 1 ∷ []) refl

stats-counts_example :
    (count_at (lit "Social") (stats whole two).by_category
      ≡ labelled (λ (e : WeekendEvent ℕ). e.category) (lit "Social") (values two.primary))
    × (count_at (lit "Social") (stats whole two).by_priority
        ≡ labelled (λ (e : WeekendEvent ℕ). e.priority) (lit "Social") (values two.primary))
    × (count_at (lit "Social") (stats whole two).score_distrib
        ≡ labelled
            (λ (e : WeekendEvent ℕ). score_range whole e.fun_score)
            (lit "Social")
            (values two.primary))
stats-counts_example = stats-counts whole two (lit "Social")

abbrev outdoors : Filter
outdoors = record { category = lit "OUTDOORS"; priority = []; query = [] }

one_ascii : (id : Bytes) (e : WeekendEvent ℕ) → get one id ≡ some e → is_ascii e.category ≡ true
unfolding get put lookup
one_ascii id e q =
    Every-insert (λ (id : Bytes) (x : WeekendEvent ℕ). is_ascii x.category ≡ true) (lit "e1") hike
      [] (λ k x h. absurd (ground arith)) refl id e q

candidates-picked_example :
    with_id (lit "e1") (candidates plain 0 one outdoors)
    ≡ picked plain outdoors (get one (lit "e1"))
candidates-picked_example =
    candidates-picked plain outdoors one one-IsIndexed 0 refl one_ascii (lit "e1")

picked_run : picked plain outdoors (get one (lit "e1")) ≡ hike ∷ []
unfolding matches_filter get put add_index remove_index add_id remove_id lookup insert to_lower
    bytes_eq equal_fold
picked_run = refl

list_order_example :
    (ordered : List (WeekendEvent ℕ)) × (list plain 0 two all (pos 1) (pos 0)
      ≡ some (page_spec ordered 1 20))
    × Perm ordered (candidates plain 0 two all)
    × NewestFirst ordered
list_order_example = list_order plain 0 two all (pos 1) (pos 0) (omega arith)

search_lem_example :
    (found : List (WeekendEvent ℕ)) × Perm (search whole plain one (lit "hi")) found
    × ((j : Bytes) → with_id j found ≡ picked_by (hit whole plain (lit "hi")) (get one j))
    × IsSorted (higher whole plain) (search whole plain one (lit "hi"))
search_lem_example = search_lem whole plain one (lit "hi") one-IsIndexed (λ a b h. ground arith)

-- ===== src/Storage/Updates.antt =====
-- internal/storage/store.go: `Put` and `Delete` and the indices.
use go_kafka.Base.{
  ◌≡◌, refl, Option, none, some, Bytes, bytes_key, bytes_eq_iff, arith, ◌==◌, if◌then◌else◌,
  Option-cases, Bool-cases, inl, inr, ap,
}
use go_kafka.Base.Dict.{
  lookup, insert, remove, lookup-insert, lookup-remove, insert-Unique, remove-Unique, Every-insert,
}
use go_kafka.Base.Text.{Unicode, to_lower}
use go_kafka.Events.{WeekendEvent, is_empty}
use go_kafka.Storage.{Store, new, put, get, delete, add_index, remove_index, unindexed, removed}
use go_kafka.Storage.Indices.{present, IsIndex, has-add_id, add_id-IsIndex}
use go_kafka.Storage.Invariant.{IsIndexed, Without, Without-unindexed, Without-remove_index}

module _ {F : Type 0} (u : Unicode) where
  pub new-IsIndexed : IsIndexed u (new {F = F})
  unfolding lookup
  new-IsIndexed = record {
    one_each = tt;
    own_id = λ id e q. absurd (ground arith);
    categories = λ k ids q. absurd (ground arith);
    priorities = λ k ids q. absurd (ground arith);
    category = λ c id. refl;
    priority = λ p id. refl;
  }

  module _ (s t : Store F) (e : WeekendEvent F) (v : IsIndexed u s) (w : Without u e.id s t) where
    abbrev stored : Store F
    stored = record t { primary = insert e.id e t.primary }

    add_priorities : IsIndex (add_index u stored e).by_priority
    unfolding add_index
    add_priorities = elim (Bool-cases (is_empty (to_lower u e.priority))) [
      | inl blank ↦ rw blank w.priorities
      | inr pri ↦ rw pri (add_id-IsIndex t.by_priority (to_lower u e.priority) e.id w.priorities)
    ]

    add-IsIndexed : IsIndexed u (add_index u stored e)
    unfolding add_index
    add-IsIndexed = record {
      one_each = insert-Unique e.id e t.primary (rw w.primary v.one_each);
      own_id =
          Every-insert (λ (id : Bytes) (x : WeekendEvent F). x.id ≡ id) e.id e t.primary
            (rw w.primary v.own_id) refl;
      categories = add_id-IsIndex t.by_category (to_lower u e.category) e.id w.categories;
      priorities = add_priorities;
      category = λ c j. ground (
        arith,
        has-add_id t.by_category (to_lower u e.category) e.id c j,
        w.category c j,
        v.category c j,
        lookup-insert e.id j e t.primary,
        w.primary,
      );
      priority = λ p j. ground (
        arith,
        has-add_id t.by_priority (to_lower u e.priority) e.id p j,
        w.priority p j,
        v.priority p j,
        lookup-insert e.id j e t.primary,
        w.primary,
      );
    }

  module _ (s t : Store F) (id : Bytes) (v : IsIndexed u s) (w : Without u id s t) where
    lookup-dropped :
        (j : Bytes)
        → lookup j (remove id t.primary) ≡ (if id == j then none else lookup j s.primary)
    lookup-dropped j = rw w.primary (lookup-remove id j s.primary v.one_each)

    dropped-IsIndexed : IsIndexed u (record t { primary = remove id t.primary })
    dropped-IsIndexed = record {
      one_each = remove-Unique id t.primary (rw w.primary v.one_each);
      own_id = λ j e q. v.own_id j e (ground (arith, lookup-dropped j));
      categories = w.categories;
      priorities = w.priorities;
      category = λ c j. ground (arith, lookup-dropped j, w.category c j, v.category c j);
      priority = λ p j. ground (arith, lookup-dropped j, w.priority p j, v.priority p j);
    }

  module _ (s : Store F) (v : IsIndexed u s) where
    -- `Put` keeps the indices right, also when it replaces an event by one of another category or
    -- priority.
    pub put-IsIndexed : (e : WeekendEvent F) → IsIndexed u (put u s e)
    unfolding put
    put-IsIndexed e =
        add-IsIndexed s (unindexed u s (lookup e.id s.primary)) e v (Without-unindexed u s v e.id)

    pub removed-IsIndexed :
        (id : Bytes) (e : WeekendEvent F)
        → lookup id s.primary ≡ some e
        → IsIndexed u (removed u s id e)
    removed-IsIndexed id e q =
        dropped-IsIndexed s (remove_index u s e) id v (Without-remove_index u s v id e q)

    pub lookup-removed :
        (id : Bytes) (e : WeekendEvent F) (j : Bytes)
        → lookup j (removed u s id e).primary ≡ (if id == j then none else lookup j s.primary)
    unfolding remove_index
    lookup-removed id e j = lookup-remove id j s.primary v.one_each

    -- `Delete` keeps the indices right, whether or not the id is there.
    pub delete-IsIndexed : (id : Bytes) → IsIndexed u (delete u s id).0
    unfolding delete
    delete-IsIndexed id = elim (Option-cases (lookup id s.primary)) [
      | inl q ↦ rw (q, delete) v
      | inr (e, q) ↦ rw (q, delete) (removed-IsIndexed id e q)
    ]

    -- `Delete` says whether the id was there, and takes it away alone.
    pub delete_lem :
        (id j : Bytes)
        → ((delete u s id).1 ≡ present (get s id))
          × (get (delete u s id).0 j ≡ (if id == j then none else get s j))
    unfolding delete get
    delete_lem id j = elim (Option-cases (lookup id s.primary)) [
      | inl q ↦ rw (q, delete) (refl, ground (arith, bytes_eq_iff id j))
      | inr (e, q) ↦ rw (q, delete) (refl, lookup-removed id e j)
    ]

  module _ (s : Store F) (e : WeekendEvent F) where
    primary-unindexed : (o : Option (WeekendEvent F)) → (unindexed u s o).primary ≡ s.primary
    unfolding remove_index
    primary-unindexed none = refl
    primary-unindexed (some old) = refl

    primary-put : (put u s e).primary ≡ insert e.id e s.primary
    unfolding put
    primary-put = ap (insert e.id e) (primary-unindexed (lookup e.id s.primary))

    -- After `Put` its event is read back, and every other id is as before.
    pub get-put : (j : Bytes) → get (put u s e) j ≡ (if e.id == j then some e else get s j)
    unfolding get
    get-put j = rw primary-put (lookup-insert e.id j e s.primary)

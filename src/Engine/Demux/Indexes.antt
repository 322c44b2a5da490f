-- ===== src/Engine/Demux/Indexes.antt =====
-- engine.go: the index that `Index` of an `Engine` finds or creates for an event.
use ekanite.Prelude.{ℕ, ◌<◌, ◌≡◌, refl, sym, subst, true, Option, none, some}
use ekanite.System.{System, Result, ok, err, panic}
use ekanite.Index.{Index, contains}
use ekanite.Engine.{Engine, Sort, index_for_reference_time, create_index_for_reference_time}
use ekanite.Engine.Lookup.{index_for-eq-some}
use ekanite.Engine.Creation.{Permutes, create-HasCreated}
use ekanite.Engine.Demux.{or_panic, find_or_create, unlocked, index_of}

module _ (sys : System) (sort : Sort (sys.Db))
    (others : Engine (sys.Db) → sys.Disk → Engine (sys.Db) × sys.Disk) where
  open sys use {Disk, Db}

  -- Where it returns an index, that contains the reference time.
  abbrev pub Indexed : ℕ → Result (Index Db × Engine Db) × Disk → Type 0
  Indexed rt (ok (i, e), d) = (contains i rt ≡ true) × (0 < e.index_duration)
  Indexed rt (err, d) = Unit
  Indexed rt (panic, d) = Unit

  unlocked-Indexed :
      (rt : ℕ) (x : Result (Index Db × Engine Db) × Disk)
      → ((e : Engine Db) (d : Disk)
          → 0 < e.index_duration
          → let (e', _) = others e d in 0 < e'.index_duration)
      → Indexed rt x
      → Indexed rt (unlocked sys sort others x)
  unlocked-Indexed rt (ok (i, e), d) keeps (c, set) = (c, keeps e d set)
  unlocked-Indexed rt (err, d) keeps h = h
  unlocked-Indexed rt (panic, d) keeps h = h

  module _ (permutes : Permutes Db sort) where
    or_panic-Indexed :
        (rt : ℕ) (x : Result (Index Db × Engine Db) × Disk)
        → ((i : Index Db) (e : Engine Db)
            → x.0 ≡ ok (i, e)
            → (contains i rt ≡ true) × (0 < e.index_duration))
        → Indexed rt (or_panic sys sort others x)
    or_panic-Indexed rt (ok (i, e), d) h = h i e refl
    or_panic-Indexed rt (err, d) h = tt
    or_panic-Indexed rt (panic, d) h = tt

    created-Indexed :
        (e : Engine Db) (rt : ℕ) (d : Disk)
        → 0 < e.index_duration
        → index_for_reference_time e.indexes rt ≡ none
        → Indexed rt (or_panic sys sort others (create_index_for_reference_time sys sort e rt d))
    created-Indexed e rt d pos absent =
        or_panic-Indexed rt (create_index_for_reference_time sys sort e rt d) λ i e' made.
          let h = create-HasCreated sys sort e rt d permutes pos absent made in
          (h.covers, subst (λ (x : Engine Db). 0 < x.index_duration) (sym h.rest) pos)

    find_or_create-Indexed :
        (e : Engine Db) (rt : ℕ) (d : Disk)
        → 0 < e.index_duration
        → Indexed rt (find_or_create sys sort others e rt d)
    unfolding find_or_create
    find_or_create-Indexed e rt d set = go (index_for_reference_time e.indexes rt) refl
      where
        go :
            (o : Option (Index Db))
            → index_for_reference_time e.indexes rt ≡ o
            → Indexed rt (elim o [
              | some i ↦ (ok (i, e), d)
              | none ↦ or_panic sys sort others (create_index_for_reference_time sys sort e rt d)
            ])
        go (some i) h = ((index_for-eq-some e.indexes rt h).1, set)
        go none h = created-Indexed e rt d set h

    pub index_of-Indexed :
        (e : Engine Db) (rt : ℕ) (d : Disk)
        → ((x : Engine Db) (y : Disk)
            → 0 < x.index_duration
            → let (x', _) = others x y in 0 < x'.index_duration)
        → 0 < e.index_duration
        → Indexed rt (index_of sys sort others e rt d)
    unfolding index_of
    index_of-Indexed e rt d keeps set = go (index_for_reference_time e.indexes rt) refl
      where
        go :
            (o : Option (Index Db))
            → index_for_reference_time e.indexes rt ≡ o
            → Indexed rt (elim o [
              | some i ↦ (ok (i, e), d)
              | none ↦
                  let (e', d') = others e d in
                  unlocked sys sort others (find_or_create sys sort others e' rt d')
            ])
        go (some i) h = ((index_for-eq-some e.indexes rt h).1, set)
        go none h =
            let (e', d') = others e d in
            unlocked-Indexed rt _ keeps (find_or_create-Indexed e' rt d' (keeps e d set))

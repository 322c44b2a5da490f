-- ===== src/Engine/Demux.antt =====
-- engine.go: the loop of `Index` of an `Engine` that divides a batch of events between the indexes.
-- `same` compares two pointers to an index, and `others` is what other goroutines do to the engine
-- while the loop does not hold its lock. What `Index` of each index does with its events is in
-- Index/Routing.
pub mod Indexes
pub mod Batches
pub mod Tests
use ekanite.Prelude.{ℕ, Bool, true, false, List, [], ◌∷◌, ◌++◌, Option, none, some, if◌then◌else◌}
use ekanite.System.{System, Result, ok, err, panic, M, pure, ◌>>=◌}
use ekanite.Index.{Index}
use ekanite.Engine.{Engine, Sort, index_for_reference_time, create_index_for_reference_time}

abbrev pub SubBatches : Type 0 → Type 0 → Type 0
SubBatches Db E = List (Index Db × List E)

module _ {Db E : Type 0} (same : Index Db → Index Db → Bool) where
  -- `subBatches[index] = append(subBatches[index], ev)`
  unfoldable pub add_event : Index Db → E → SubBatches Db E → SubBatches Db E
  add_event i ev [] = (i, ev ∷ []) ∷ []
  add_event i ev ((j, evs) ∷ rest) =
      let others = add_event i ev rest in
      if same i j then (j, evs ++ ev ∷ []) ∷ rest else (j, evs) ∷ others

module _ (sys : System) (sort : Sort (sys.Db))
    (others : Engine (sys.Db) → sys.Disk → Engine (sys.Db) × sys.Disk) where
  open sys use {Disk, Db}

  -- `if err != nil || index == nil { panic(…) }`
  abbrev pub or_panic : {A : Type 0} → Result A × Disk → Result A × Disk
  or_panic (ok a, d) = (ok a, d)
  or_panic (err, d) = (panic, d)
  or_panic (panic, d) = (panic, d)

  -- With the lock for writing.
  unfoldable pub find_or_create : Engine Db → ℕ → M Disk (Index Db × Engine Db)
  unfolding index_for_reference_time create_index_for_reference_time
  find_or_create e rt d = elim (index_for_reference_time e.indexes rt) [
    | some i ↦ (ok (i, e), d)
    | none ↦ or_panic (create_index_for_reference_time sys sort e rt d)
  ]

  -- The lock is free before it is taken for writing, and behind that.
  abbrev pub unlocked : Result (Index Db × Engine Db) × Disk → Result (Index Db × Engine Db) × Disk
  unlocked (ok (i, e), d) = let (e', d') = others e d in (ok (i, e'), d')
  unlocked (err, d) = (err, d)
  unlocked (panic, d) = (panic, d)

  -- The index of an event, with its reference time.
  unfoldable pub index_of : Engine Db → ℕ → M Disk (Index Db × Engine Db)
  unfolding find_or_create
  index_of e rt d = elim (index_for_reference_time e.indexes rt) [
    | some i ↦ (ok (i, e), d)
    | none ↦ let (e', d') = others e d in unlocked (find_or_create e' rt d')
  ]

  module _ {E : Type 0} (same : Index Db → Index Db → Bool) (reference_time : E → ℕ) where
    -- The loop, from the batches so far.
    unfoldable pub sub_batches :
        Engine Db → SubBatches Db E → List E → M Disk (SubBatches Db E × Engine Db)
    unfolding index_of add_event
    sub_batches e batches [] = pure (batches, e)
    sub_batches e batches (ev ∷ evs) = index_of e (reference_time ev) >>= λ (i, e').
        sub_batches e' (add_event same i ev batches) evs

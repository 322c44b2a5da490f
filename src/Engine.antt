-- ===== src/Engine.antt =====
-- engine.go: the indexes that an `Engine` keeps, how it finds, creates and expires them. `sort` is
-- `sort.Sort` of `Indexes`; what is asked of it is `Permutes` in Engine/Creation.
pub mod Lookup
pub mod Creation
pub mod Slots
pub mod Retention
pub mod Success
pub mod Search
pub mod Demux
pub mod Closing
pub mod Opening
pub mod Ingest
pub mod Enforcement
pub mod Tests
use ekanite.Prelude.{
  ℕ, ◌+◌, ◌-◌, ◌%◌, ◌≡◌, Bool, true, false, List, [], ◌∷◌, ◌++◌, Option, none, some, ◌==◌,
  if◌then◌else◌, not,
}
use ekanite.System.{System, FilePath, Result, ok, err, panic, M, pure, ◌>>=◌, ◌>>◌}
use ekanite.Index.{Index, after, contains, expired, new_index, delete_index}

pub record Engine (Db : Type 0) : Type 0 where
  pub path : FilePath
  pub num_shards : ℕ
  pub index_duration : ℕ
  pub retention_period : ℕ
  pub indexes : List (Index Db)
  pub deletions : ℕ

abbrev pub Sort : Type 0 → Type 0
Sort Db = List (Index Db) → List (Index Db)

-- `t.Truncate(d)`: `t` itself if `d` is 0.
unfoldable pub truncate : ℕ → ℕ → ℕ
truncate t d = if d == 0 then t else t - t % d

module _ {Db : Type 0} where
  -- `indexForReferenceTime`: the first index that contains the time.
  unfoldable pub index_for_reference_time : List (Index Db) → ℕ → Option (Index Db)
  index_for_reference_time [] t = none
  index_for_reference_time (i ∷ is) t =
      if contains i t then some i else index_for_reference_time is t

  -- The first loop of `createIndex`.
  unfoldable pub index_with_start : List (Index Db) → ℕ → Option (Index Db)
  index_with_start [] t = none
  index_with_start (i ∷ is) t = if i.start_time == t then some i else index_with_start is t

  -- The start time that `createIndex` uses: the end of the index that has the requested one.
  unfoldable pub adjusted_start : List (Index Db) → ℕ → ℕ
  unfolding index_with_start
  adjusted_start is start = elim (index_with_start is start) [ none ↦ start | some i ↦ i.end_time ]

module _ (sys : System) (sort : Sort (sys.Db)) where
  open sys use {Disk, Db}

  -- `assert`
  abbrev pub assert : Bool → M Disk (Unit {0})
  assert condition d = (elim condition [ true ↦ ok tt | false ↦ panic ], d)

  -- `createIndex`, with the new index in front of the engine that holds it. The assertion is made
  -- only where an index has the requested start time.
  unfoldable pub create_index : Engine Db → (start end : ℕ) → M Disk (Index Db × Engine Db)
  unfolding adjusted_start
  create_index e start end =
      let start' = adjusted_start e.indexes start in
      let found = index_with_start e.indexes start in
      do
        assert (elim found [ none ↦ true | some _ ↦ not (after start' end) ])
        i ← new_index sys e.path start' end e.num_shards
        pure (i, record e { indexes = sort (e.indexes ++ i ∷ []) })

  unfoldable pub create_index_for_reference_time : Engine Db → ℕ → M Disk (Index Db × Engine Db)
  unfolding create_index
  create_index_for_reference_time e rt =
      let start = truncate rt e.index_duration in create_index e start (start + e.index_duration)

module _ (sys : System) where
  open sys use {Disk, Db, now}

  -- Behind `DeleteIndex` the loop goes on, and counts a deletion that succeeded.
  abbrev pub after_deletion :
      Result (Unit {0}) → (ℕ → M Disk (List (Index Db) × ℕ)) → ℕ → M Disk (List (Index Db) × ℕ)
  after_deletion (ok _) rest n d = rest (n + 1) d
  after_deletion err rest n d = rest n d
  after_deletion panic rest n d = (panic, d)

  abbrev pub with_kept : Index Db → M Disk (List (Index Db) × ℕ) → M Disk (List (Index Db) × ℕ)
  with_kept i rest = do (is, n) ← rest; pure (i ∷ is, n)

  -- The loop of `enforceRetention` over the indexes, with the number of deletions so far: an index
  -- that has aged out is dropped also where it could not be deleted.
  unfoldable pub retained : ℕ → List (Index Db) → ℕ → M Disk (List (Index Db) × ℕ)
  retained period [] n d = (ok ([], n), d)
  retained period (i ∷ is) n d =
      let (t, d') = now d in
      elim (expired i t period) [
        | true ↦
            let (deleted, d'') = delete_index sys i d' in
            after_deletion deleted (λ k. retained period is k) n d''
        | false ↦ with_kept i (retained period is n) d'
      ]

  unfoldable pub enforce_retention : Engine Db → M Disk (Engine Db)
  unfolding retained
  enforce_retention e = do
    (filtered, n) ← retained e.retention_period e.indexes e.deletions
    pure (record e { indexes = filtered; deletions = n })

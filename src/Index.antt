-- ===== src/Index.antt =====
-- index.go: `Shard` and `Index`, the time range of an index, and how one is created and deleted.
-- The documents in a shard are not modelled here.
pub mod Create
pub mod Routing
pub mod Documents
pub mod Opening
pub mod Writing
use ekanite.Prelude.{
  ℕ, zero, suc, ◌+◌, ◌/◌, ◌%◌, ◌≡◌, Bool, true, false, ◌&&◌, ◌||◌, List, [], ◌∷◌, ◌++◌, Option,
  none, some, Bytes, codes, ltb, leb, ◌==◌, if◌then◌else◌, not,
}
use ekanite.System.{
  System, FilePath, StatError, is_nil, is_not_exist, Result, ok, err, panic, M, pure, fail, try,
  guard, try_some, ◌>>=◌, ◌>>◌,
}

-- `b` is nil until the shard is opened.
pub record Shard (Db : Type 0) : Type 0 where
  pub path : FilePath
  pub b : Option Db

-- `start_time` is inclusive and `end_time` exclusive.
pub record Index (Db : Type 0) : Type 0 where
  pub path : FilePath
  pub start_time : ℕ
  pub end_time : ℕ
  pub shards : List (Shard Db)

abbrev pub max_shard_count : ℕ
max_shard_count = 9999

abbrev pub end_time_file_name : Bytes
end_time_file_name = codes "endtime"

-- `t.After(u)`, `t.Before(u)` and `t.Equal(u)`
abbrev pub after : ℕ → ℕ → Bool
after t u = ltb u t

abbrev pub before : ℕ → ℕ → Bool
before t u = ltb t u

module _ {Db : Type 0} where
  -- `Indexes.Less`, of the two indexes.
  unfoldable pub less : Index Db → Index Db → Bool
  less u v = if after u.end_time v.end_time then true else after u.start_time v.start_time

  unfoldable pub expired : Index Db → ℕ → ℕ → Bool
  expired i t r = before (i.end_time + r) t

  unfoldable pub contains : Index Db → ℕ → Bool
  contains i t = (t == i.start_time || after t i.start_time) && before t i.end_time

  abbrev pub new_shard : FilePath → Shard Db
  new_shard path = record { path = path; b = none }

-- `%04d` of a number below 10000.
abbrev pub four_digits : ℕ → Bytes
four_digits n =
    (b'0' + n / 1000 % 10) ∷ (b'0' + n / 100 % 10) ∷ (b'0' + n / 10 % 10) ∷ (b'0' + n % 10) ∷ []

module _ (sys : System) where
  open sys use {
    Disk, Db, stat, mkdir_all, create, write_string, remove_all, format_time, build_index_mapping,
    bleve_new, bleve_open, bleve_close,
  }

  -- `Shard.Open`
  unfoldable pub open_shard : Shard Db → M Disk (Shard Db)
  open_shard s d =
      let e = stat s.path d in
      let created : M Disk (Shard Db) = (do
        try build_index_mapping
        b ← try_some (bleve_new s.path)
        pure (record s { b = some b })) in
      let opened : M Disk (Shard Db) = (do
        b ← try_some (bleve_open s.path)
        pure (record s { b = some b })) in
      if not (is_nil e) && not (is_not_exist e)
      then (err, d)
      else if is_not_exist e
      then created d
      else opened d

  -- `Shard.Close`: a nil `b` is dereferenced.
  unfoldable pub close_shard : Shard Db → M Disk (Unit {0})
  close_shard s = elim (s.b) [ none ↦ λ d. (panic, d) | some b ↦ try (bleve_close b) ]

  -- The loop that creates the shards, from number `n` on, `left` of them.
  unfoldable pub create_shards : FilePath → ℕ → ℕ → M Disk (List (Shard Db))
  create_shards path n zero = pure []
  create_shards path n (suc left) = do
    s ← open_shard (new_shard (path ++ four_digits n ∷ []))
    rest ← create_shards path (suc n) left
    pure (s ∷ rest)

  -- The test in front of `MkdirAll` in `NewIndex`.
  abbrev pub refuses_path : StatError → Bool
  refuses_path e = is_nil e && is_not_exist e

  unfoldable pub new_index : FilePath → (start_time end_time num_shards : ℕ) → M Disk (Index Db)
  unfolding create_shards
  new_index path start_time end_time num_shards =
      let index_path = path ++ format_time start_time ∷ [] in
      let duration_path = index_path ++ end_time_file_name ∷ [] in
      do
        guard (leb num_shards max_shard_count)
        (λ d. guard (not (refuses_path (stat index_path d))) d)
        try (mkdir_all index_path)
        try (create duration_path)
        try (write_string duration_path (format_time end_time))
        shards ← create_shards index_path 0 num_shards
        pure (record {
          path = index_path;
          start_time = start_time;
          end_time = end_time;
          shards = shards;
        })

  -- `Index.Close` stops at the first shard that does not close.
  unfoldable pub close_shards : List (Shard Db) → M Disk (Unit {0})
  unfolding close_shard
  close_shards [] = pure tt
  close_shards (s ∷ ss) = do close_shard s; close_shards ss

  abbrev pub close_index : Index Db → M Disk (Unit {0})
  close_index i = close_shards i.shards

  -- `DeleteIndex`: an error of `Close` is dropped, a panic is not.
  unfoldable pub delete_index : Index Db → M Disk (Unit {0})
  unfolding close_shards
  delete_index i d =
      let (closed, d') = close_index i d in
      elim closed [ panic ↦ (panic, d') | _ ↦ try (remove_all i.path) d' ]

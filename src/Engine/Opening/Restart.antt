-- ===== src/Engine/Opening/Restart.antt =====
-- `Open` of an engine whose path holds the indexes of an earlier one.
use mathlib.Core.List.{Perm, perm_middle}
use mathlib.Core.List.Perm
use ekanite.Prelude.{
  ℕ, ◌≡◌, refl, subst, true, false, List, [], ◌∷◌, ◌++◌, some, Bytes, length, map, All, arith,
}
use ekanite.System.{System, FilePath, Result, ok}
use ekanite.Index.{Index}
use ekanite.Index.Opening.{FileInfo, Files, skipped, open_index}
use ekanite.Index.Opening.Order.{Sorts, shard_names}
use ekanite.Index.Opening.Reopening.{
  IsFormatted, IsStored, OpensClosed, Reopens, paths, paths_of, open_index-Reopens,
}
use ekanite.Engine.{Sort}
use ekanite.Engine.Creation.{Permutes, perm-snoc}
use ekanite.Engine.Closing.{Running}
use ekanite.Engine.Opening.{with_index, open_indexes, open_engine}

module _ (sys : System) (fs : Files (sys.Disk)) where
  open sys use {Disk, Db, format_time, mkdir_all}

  -- What an index is for its clients: where it lies, its times, and its shards in order.
  abbrev pub Summary : Type 0
  Summary = FilePath × ℕ × ℕ × List FilePath

  abbrev pub summary : Index Db → Summary
  summary i = (i.path, i.start_time, i.end_time, paths sys fs i.shards)

  -- The directory of an index, under the path of its engine.
  abbrev pub directory : Index Db → FileInfo
  directory i = record { name = format_time i.start_time; is_dir = true }

  -- A listing of an engine's directory, with the indexes of its directories one by one: what else is
  -- there is hidden or no directory.
  pub data Entries : List FileInfo → List (Index Db) → Type 0 where
    nil : Entries [] []
    other :
        {fi : FileInfo} {fis : List FileInfo} {is : List (Index Db)}
        → skipped fi ≡ true
        → Entries fis is
        → Entries (fi ∷ fis) is
    index :
        {fis : List FileInfo} {is : List (Index Db)} (i : Index Db)
        → skipped (directory i) ≡ false
        → Entries fis is
        → Entries (directory i ∷ fis) (i ∷ is)

  -- An index as `NewIndex` leaves it, in the directory of its engine.
  pub record IsPlaced (path : FilePath) (i : Index Db) : Type 0 where
    pub placed : i.path ≡ path ++ format_time i.start_time ∷ []
    pub named : paths sys fs i.shards ≡ paths_of sys fs i.path (shard_names 0 (length i.shards))

  -- The paths of all the shards.
  unfoldable pub shard_paths : List (Index Db) → List FilePath
  shard_paths [] = []
  shard_paths (i ∷ is) = paths sys fs i.shards ++ shard_paths is

  -- The disk's answers about the indexes of an engine are right while `Holds ps`, where `ps` are the
  -- paths of the shards that are not open yet. The directory of the engine can be made again, which
  -- changes nothing; a shard that is not open can be opened, which leaves the others as they are.
  pub record IsPersistent (path : FilePath) (fis : List FileInfo) (is : List (Index Db))
      (Holds : List FilePath → Disk → Type 0) : Type 0 where
    pub listed : (ps : List FilePath) (d : Disk) → Holds ps d → fs.readdir path d ≡ some fis
    pub entries : Entries fis is
    pub stored :
        (ps : List FilePath) (d : Disk)
        → Holds ps d
        → All (λ i. IsStored sys fs i d × IsPlaced path i) is
    pub makes :
        (ps : List FilePath) (d : Disk)
        → Holds ps d
        → ((mkdir_all path d).0 ≡ false) × Holds ps (mkdir_all path d).1
    pub opens : OpensClosed sys fs Holds

  -- Times that the layout of the names of indexes, which is exact to the minute, gives back.
  abbrev pub HasFormattedTimes : List (Index Db) → Type 0
  HasFormattedTimes = All (λ i. IsFormatted sys fs i.start_time × IsFormatted sys fs i.end_time)

  abbrev pub summaries : List (Index Db) → List Summary
  summaries = map summary

  module _ (sort_strings : List Bytes → List Bytes) (sort : Sort Db) where
    Reopens-summary : (i j : Index Db) → Reopens sys fs sort_strings i j → summary j ≡ summary i
    Reopens-summary i j r = ground (arith, r.same_path, r.same_start, r.same_end, r.same_shards)

    abbrev with_indexes : Running Db → List (Index Db) → Running Db
    with_indexes e is = record e { engine = record (e.engine) { indexes = is } }

    -- The engine has the indexes too, up to order, and is otherwise as it was.
    abbrev Restored :
        List (Index Db) → Running Db → Result (Unit {0}) × (Running Db × Disk) → Type 0
    Restored is e (r, (e', d')) =
        (r ≡ ok tt)
        × Perm (summaries (e'.engine.indexes)) (summaries is ++ summaries e.engine.indexes)
        × (e' ≡ with_indexes e e'.engine.indexes)

    Restored-step :
        (is : List (Index Db)) (i j : Index Db) (e : Running Db)
        (x : Result (Unit {0}) × (Running Db × Disk))
        → Permutes Db sort
        → summary j ≡ summary i
        → Restored is (with_index sys fs sort_strings sort e j) x
        → Restored (i ∷ is) e x
    Restored-step is i j e (r, (e', d')) permutes same (done, perm, rest) =
        let js = e.engine.indexes in
        let added : Perm (summaries (sort (js ++ j ∷ []))) (summary i ∷ summaries js) =
          subst (λ x. Perm (summaries (sort (js ++ j ∷ []))) (x ∷ summaries js)) same
            (Perm.map summary (perm-snoc sys sort js j permutes)) in
        (
          done,
          Perm.trans perm (
              Perm.trans (Perm.append_left (summaries is) added)
                (perm_middle {a = summary i} (summaries is) (summaries js))),
          rest,
        )

    module _ (path : FilePath) (Holds : List FilePath → Disk → Type 0)
        (opens : OpensClosed sys fs Holds) (sorts : Sorts sort_strings)
        (permutes : Permutes Db sort) where
      open_indexes-Restored :
          (fis : List FileInfo) (is : List (Index Db)) (entries : Entries fis is)
          → ((ps : List FilePath) (d : Disk)
              → Holds ps d
              → All (λ i. IsStored sys fs i d × IsPlaced path i) is)
          → HasFormattedTimes is
          → (e : Running Db) (d : Disk) → Holds (shard_paths is) d
          → Restored is e (open_indexes sys fs sort_strings sort path fis (e, d))
      unfolding open_indexes shard_paths
      open_indexes-Restored [] [] Entries.nil stored times e d h = (refl, Perm.rfl, refl)
      open_indexes-Restored [] (_ ∷ _) entries stored times e d h = elim entries [ ]
      open_indexes-Restored (fi ∷ fis) is (Entries.other skip entries) stored times e d h =
          rw (skip) (open_indexes-Restored fis is entries stored times e d h)
      open_indexes-Restored (_ ∷ fis) (_ ∷ is) (Entries.index i keep entries) stored
            ((start, end), times) e d h =
          let here = (stored (shard_paths (i ∷ is)) d h).0 in
          let (j, opened, reopened, left) =
            open_index-Reopens sys fs sort_strings i d Holds (shard_paths is) opens sorts here.0
              start end here.1.named h in
          let p = path ++ format_time i.start_time ∷ [] in
          let at_name =
            subst (λ p. (open_index sys fs sort_strings p d).0 ≡ ok j) here.1.placed opened in
          let left_at_name =
            subst (λ p. Holds (shard_paths is) (open_index sys fs sort_strings p d).1) here.1.placed
              left in
          let later =
            open_indexes-Restored fis is entries (λ ps x k. (stored ps x k).1) times
              (with_index sys fs sort_strings sort e j) (open_index sys fs sort_strings p d).1
              left_at_name in
          rw (keep, at_name)
            (Restored-step is i j e
              (open_indexes sys fs sort_strings sort path fis
                (with_index sys fs sort_strings sort e j, (open_index sys fs sort_strings p d).1))
              permutes (Reopens-summary i j reopened) later)

    -- `Open` of an engine whose path holds the indexes of an earlier engine, in whatever order they
    -- are listed and whatever hidden entries and plain files lie beside them, succeeds: the engine is
    -- open and has, besides its own, those of the earlier one, up to order and with the same paths,
    -- times and shards. This is so if the times of the indexes are times that the layout of their
    -- names gives back, which are whole minutes; if what is on the disk is what `NewIndex` writes, with
    -- no shard open; if the directory can be made again; and if bleve opens an index that is stored and
    -- not open, and leaves the others as they are.
    pub open_engine-Restored :
        (earlier : List (Index Db)) (fis : List FileInfo) (is : List (Index Db))
        (Holds : List FilePath → Disk → Type 0) (e : Running Db) (d : Disk)
        → Sorts sort_strings
        → Permutes Db sort
        → Perm is earlier
        → HasFormattedTimes is
        → IsPersistent e.engine.path fis is Holds
        → Holds (shard_paths is) d
        → let (r, (e', _)) = open_engine sys fs sort_strings sort (e, d) in
          (r ≡ ok tt)
          × (e'.is_open ≡ true)
          × Perm (summaries (e'.engine.indexes)) (summaries earlier ++ summaries e.engine.indexes)
    unfolding open_engine
    open_engine-Restored earlier fis is Holds e d sorts permutes listed times p h =
        let path = e.engine.path in
        let d' = (mkdir_all path d).1 in
        let (made, h') = p.makes (shard_paths is) d h in
        let (done, perm, _) =
          open_indexes-Restored path Holds p.opens sorts permutes fis is p.entries p.stored times e
            d' h' in
        rw (made, p.listed (shard_paths is) d' h', done)
          (refl, refl, Perm.trans perm (Perm.append_right _ (Perm.map summary listed)))

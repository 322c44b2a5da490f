-- ===== src/Index/Opening/Reopening.antt =====
-- `OpenIndex` of a directory that holds what `NewIndex` writes.
use ekanite.Prelude.{
  ℕ, ◌≤◌, ◌≡◌, refl, ap, ◌∙◌, sym, subst, true, false, List, [], ◌∷◌, ◌++◌, some, Bytes, ◌==◌,
  arith, none_of, length, map,
}
use ekanite.System.{System, FilePath, StatError, ok}
use ekanite.Index.{Shard, Index, new_shard, end_time_file_name, open_shard}
use ekanite.Index.Create.{all_open}
use ekanite.Index.Opening.{FileInfo, Files, first_line, open_shards, open_index}
use ekanite.Index.Opening.Order.{Sorts, shard_names}
use ekanite.Index.Opening.Listing.{Lists, sorted_names}

pub one_line : (s : Bytes) → none_of (λ c. c == b'\n') s ≡ true → first_line s ≡ (s, false)
unfolding first_line
one_line [] h = refl
one_line (c ∷ s) h = ground (arith, one_line s)

module _ (sys : System) (fs : Files (sys.Disk)) where
  open sys use {Disk, Db, format_time}

  -- A time that the layout of the names of indexes gives back.
  pub record IsFormatted (t : ℕ) : Type 0 where
    pub no_newline : none_of (λ c. c == b'\n') (format_time t) ≡ true
    pub parses : fs.parse_time (format_time t) ≡ some t

  -- The disk holds what `NewIndex` writes for the index: a directory with the name of its start
  -- time, the file with its end time, and the directories of its shards.
  pub record IsStored (i : Index Db) (d : Disk) : Type 0 where
    pub stat_is :
        fs.stat_info i.path d ≡ some (record { name = format_time i.start_time; is_dir = true })
    pub file_is :
        fs.open_file (i.path ++ end_time_file_name ∷ []) d ≡ some (format_time i.end_time, false)
    pub entries : List FileInfo
    pub readdir_is : fs.readdir i.path d ≡ some entries
    pub listed : Lists entries (length i.shards)
    pub few : length i.shards ≤ 9999

  abbrev pub paths : List (Shard Db) → List FilePath
  paths = map (λ (s : Shard Db). s.path)

  abbrev pub paths_of : FilePath → List Bytes → List FilePath
  paths_of path = map (λ name. path ++ name ∷ [])

  open_shard-eq :
      (p : FilePath) (d : Disk) (b : Db)
      → sys.stat p d ≡ StatError.nil
      → (sys.bleve_open p d).0 ≡ some b
      → open_shard sys (new_shard p) d
        ≡ (ok (record { path = p; b = some b }), (sys.bleve_open p d).1)
  unfolding open_shard
  open_shard-eq p d b there opened = rw (there, opened) refl

  -- `Holds ps` says that at each of the paths `ps` a bleve index is stored that is not open: it is
  -- there, `bleve.Open` opens it, and leaves those at the other paths so.
  abbrev pub OpensClosed : (List FilePath → Disk → Type 0) → Type 0
  OpensClosed Holds =
      (p : FilePath) (ps : List FilePath) (d : Disk)
      → Holds (p ∷ ps) d
      → (sys.stat p d ≡ StatError.nil)
        × ((b : Db) × ((sys.bleve_open p d).0 ≡ some b))
        × Holds ps (sys.bleve_open p d).1

  module _ (Holds : List FilePath → Disk → Type 0) (opens : OpensClosed Holds) where
    open_shards-opens :
        (path : FilePath) (names : List Bytes) (others : List FilePath) (d : Disk)
        → Holds (paths_of path names ++ others) d
        → (l : List (Shard Db)) × ((open_shards sys path names d).0 ≡ ok l)
          × (paths l ≡ paths_of path names)
          × (all_open sys l ≡ true)
          × Holds others (open_shards sys path names d).1
    unfolding open_shards all_open
    open_shards-opens path [] others d h = ([], refl, refl, refl, h)
    open_shards-opens path (name ∷ names) others d h =
        let p = path ++ name ∷ [] in
        let (there, (b, opened), h') = opens p (paths_of path names ++ others) d h in
        let eq = open_shard-eq p d b there opened in
        let (l, made, same, all, left) =
          open_shards-opens path names others (sys.bleve_open p d).1 h' in
        (
          record { path = p; b = some b } ∷ l,
          rw (eq, made) refl,
          ap (◌∷◌ p) same,
          all,
          rw (eq, made) left,
        )

  module _ (sort_strings : List Bytes → List Bytes) where
    -- The index is opened again: its path and times are as they were, and so are its shards and
    -- their order; each of them has an open bleve index.
    pub record Reopens (i j : Index Db) : Type 0 where
      pub same_path : j.path ≡ i.path
      pub same_start : j.start_time ≡ i.start_time
      pub same_end : j.end_time ≡ i.end_time
      pub same_shards : paths j.shards ≡ paths i.shards
      pub opened : all_open sys j.shards ≡ true

    -- Up to the shards, `OpenIndex` does what the disk makes it do.
    open_index-eq :
        (i : Index Db) (d : Disk)
        → Sorts sort_strings
        → IsStored i d
        → IsFormatted i.start_time
        → IsFormatted i.end_time
        → {l : List (Shard Db)}
        → (open_shards sys i.path (shard_names 0 (length i.shards)) d).0 ≡ ok l
        → open_index sys fs sort_strings i.path d ≡ (
          ok (record {
            path = i.path;
            start_time = i.start_time;
            end_time = i.end_time;
            shards = l;
          }),
          (open_shards sys i.path (shard_names 0 (length i.shards)) d).1,
        )
    unfolding open_index
    open_index-eq i d sorts st start end h =
        let names = sorted_names sort_strings st.entries (length i.shards) sorts st.listed st.few in
        let line = one_line (format_time i.end_time) end.no_newline in
        rw (st.stat_is, start.parses, st.file_is) (ground (arith, names, line, end.parses, h))

    -- An index that is stored on the disk, with its shards closed, is opened again.
    pub open_index-Reopens :
        (i : Index Db) (d : Disk) (Holds : List FilePath → Disk → Type 0) (others : List FilePath)
        → OpensClosed Holds
        → Sorts sort_strings
        → IsStored i d
        → IsFormatted i.start_time
        → IsFormatted i.end_time
        → paths i.shards ≡ paths_of i.path (shard_names 0 (length i.shards))
        → Holds (paths i.shards ++ others) d
        → (j : Index Db) × ((open_index sys fs sort_strings i.path d).0 ≡ ok j)
          × Reopens i j
          × Holds others (open_index sys fs sort_strings i.path d).1
    open_index-Reopens i d Holds others opens sorts st start end named h =
        let names = shard_names 0 (length i.shards) in
        let (l, made, same, opened, left) =
          open_shards-opens Holds opens i.path names others d
            (subst (λ ps. Holds (ps ++ others) d) named h) in
        let j : Index Db = record i { shards = l } in
        let eq = open_index-eq i d sorts st start end made in
        (
          j,
          ap (λ r. r.0) eq,
          record {
            same_path = refl;
            same_start = refl;
            same_end = refl;
            same_shards = same ∙ sym named;
            opened = opened;
          },
          subst (λ r. Holds others r.1) (sym eq) left,
        )

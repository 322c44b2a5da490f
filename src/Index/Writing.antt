-- ===== src/Index/Writing.antt =====
-- index.go: what `NewIndex` leaves on the disk, over a file system that keeps what is written.
mod Tests
use ekanite.Prelude.{ℕ, ◌≡◌, ◌≢◌, Bool, true, false, List, [], ◌∷◌, ◌++◌, append_assoc, some, Bytes}
use ekanite.System.{System, FilePath, Result, ok, err, panic}
use ekanite.Index.{Shard, Index, end_time_file_name, open_shard}
use ekanite.Index.Opening.{FileInfo, Files, read_end_time}

-- The path is the other one, or lies below it.
abbrev pub IsBelow : FilePath → FilePath → Type 0
IsBelow p q = (rest : FilePath) × (q ≡ p ++ rest)

module _ (sys : System) (fs : Files (sys.Disk)) where
  open sys use {Disk, Db, format_time, mkdir_all, create, write_string}

  -- What the file system promises: a directory that was made is there, a file that was created and
  -- written holds the text, and what is done at a path changes nothing but that path, and what is
  -- below it where it is a bleve index.
  pub record KeepsFiles : Type 0 where
    pub makes :
        (p : FilePath) (name : Bytes) (d : Disk)
        → (mkdir_all (p ++ name ∷ []) d).0 ≡ false
        → fs.stat_info (p ++ name ∷ []) (mkdir_all (p ++ name ∷ []) d).1
          ≡ some (record { name = name; is_dir = true })
    pub writes :
        (p : FilePath) (text : Bytes) (d : Disk)
        → (create p d).0 ≡ false
        → (write_string p text (create p d).1).0 ≡ false
        → fs.open_file p (write_string p text (create p d).1).1 ≡ some (text, false)
    pub create_apart :
        (p q : FilePath) (d : Disk) → q ≢ p → fs.stat_info q (create p d).1 ≡ fs.stat_info q d
    pub write_apart :
        (p q : FilePath) (text : Bytes) (d : Disk)
        → q ≢ p
        → fs.stat_info q (write_string p text d).1 ≡ fs.stat_info q d
    pub shard_apart :
        (s : Shard Db) (q : FilePath) (d : Disk)
        → ¬ IsBelow s.path q
        → (fs.stat_info q (open_shard sys s d).1 ≡ fs.stat_info q d)
          × (fs.open_file q (open_shard sys s d).1 ≡ fs.open_file q d)

  -- What `OpenIndex` reads in front of the shards: the directory of the index is there, and its name is
  -- that of the start time; the file in it has the end time.
  pub record IsRead (i : Index Db) (d : Disk) : Type 0 where
    pub info : FileInfo
    pub stat_is : fs.stat_info i.path d ≡ some info
    pub is_dir : info.is_dir ≡ true
    pub start_is : fs.parse_time info.name ≡ some i.start_time
    pub content : Bytes × Bool
    pub file_is : fs.open_file (i.path ++ end_time_file_name ∷ []) d ≡ some content
    pub text : Bytes
    pub text_is : read_end_time content ≡ some text
    pub end_is : fs.parse_time text ≡ some i.end_time

  module _ (keeps : KeepsFiles) (path : FilePath) (start end : ℕ) where
    abbrev at : FilePath
    at = path ++ format_time start ∷ []

    abbrev Holds : Disk → Type 0
    Holds d =
        (fs.stat_info at d ≡ some (record { name = format_time start; is_dir = true }))
        × (fs.open_file (at ++ end_time_file_name ∷ []) d ≡ some (format_time end, false))

    abbrev Leaves : Result (Index Db) × Disk → Type 0
    Leaves (ok i, d) = Holds d
    Leaves _ = Unit

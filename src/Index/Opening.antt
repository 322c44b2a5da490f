-- ===== src/Index/Opening.antt =====
-- index.go: `OpenIndex` and `listShards`. What the operating system says of files and directories
-- is the interface `Files`; `sort_strings` is `sort.Strings`.
pub mod Order
pub mod Listing
pub mod Reopening
pub mod Tests
use mathlib.Core.List.{filter_map}
use ekanite.Prelude.{
  ℕ, ◌==◌, Bool, true, false, ◌||◌, not, List, [], ◌∷◌, ◌++◌, Option, none, some, Bytes,
  if◌then◌else◌,
}
use ekanite.System.{System, FilePath, Result, M, pure, guard, try_some, ◌>>=◌, ◌>>◌}
use ekanite.Index.{Shard, Index, new_shard, end_time_file_name, open_shard}

-- `Name()` and `IsDir()` of an `os.FileInfo`.
pub record FileInfo : Type 0 where
  pub name : Bytes
  pub is_dir : Bool

-- Each is `none` for an error. `stat_info` is `os.Stat`; `readdir` is `os.Open` and `Readdir(0)`;
-- `open_file` gives the bytes of a file, and whether a read behind them fails with another error
-- than the end of the file; `parse_time` is `time.Parse` with the layout of the names of indexes.
pub record Files (Disk : Type 0) : Type 0 where
  pub stat_info : FilePath → Disk → Option FileInfo
  pub readdir : FilePath → Disk → Option (List FileInfo)
  pub open_file : FilePath → Disk → Option (Bytes × Bool)
  pub parse_time : Bytes → Option ℕ

-- `strings.HasPrefix(s, ".")`
abbrev pub hidden : Bytes → Bool
hidden [] = false
hidden (c ∷ s) = c == b'.'

-- The test of the loops over a directory, of the entries that they skip.
abbrev pub skipped : FileInfo → Bool
skipped fi = not fi.is_dir || hidden fi.name

abbrev pub kept_name : FileInfo → Option Bytes
kept_name fi = if skipped fi then none else some fi.name

-- `ReadString('\n')`: the line, and whether the delimiter was found.
unfoldable pub first_line : Bytes → Bytes × Bool
first_line [] = ([], false)
first_line (c ∷ s) =
    let (rest, found) = first_line s in if c == b'\n' then (c ∷ [], true) else (c ∷ rest, found)

-- An error of `ReadString` that is not `io.EOF` is returned.
unfoldable pub read_end_time : Bytes × Bool → Option Bytes
unfolding first_line
read_end_time (content, fails) =
    let (s, found) = first_line content in
    if not found then (if fails then none else some s) else some s

module _ (sys : System) where
  open sys use {Disk, Db}

  -- `if err != nil { return nil, err }` behind a call that leaves the disk as it is.
  abbrev pub look : {A : Type 0} → (Disk → Option A) → M Disk A
  look op = try_some (λ d. (op d, d))

  -- The loop of `OpenIndex` over the names.
  unfoldable pub open_shards : FilePath → List Bytes → M Disk (List (Shard Db))
  unfolding open_shard
  open_shards path [] = pure []
  open_shards path (name ∷ names) = do
    s ← open_shard sys (new_shard (path ++ name ∷ []))
    rest ← open_shards path names
    pure (s ∷ rest)

module _ (sys : System) (fs : Files (sys.Disk)) (sort_strings : List Bytes → List Bytes) where
  open sys use {Disk, Db}

  unfoldable pub list_shards : FilePath → M Disk (List Bytes)
  unfolding filter_map
  list_shards path = do
    fis ← look sys (fs.readdir path)
    pure (sort_strings (filter_map kept_name fis))

  -- `OpenIndex`
  unfoldable pub open_index : FilePath → M Disk (Index Db)
  unfolding read_end_time list_shards open_shards
  open_index path = do
    fi ← look sys (fs.stat_info path)
    guard fi.is_dir
    start_time ← look sys (λ d. fs.parse_time fi.name)
    f ← look sys (fs.open_file (path ++ end_time_file_name ∷ []))
    s ← look sys (λ d. read_end_time f)
    end_time ← look sys (λ d. fs.parse_time s)
    names ← list_shards path
    shards ← open_shards sys path names
    pure (record { path = path; start_time = start_time; end_time = end_time; shards = shards })

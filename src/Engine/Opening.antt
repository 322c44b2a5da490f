-- ===== src/Engine/Opening.antt =====
-- engine.go: `NewEngine` and `Open`. The goroutine that `Open` starts for the enforcement of
-- retention is in Engine/Enforcement.
pub mod Restart
pub mod Failure
mod Tests
use ekanite.Prelude.{ℕ, ◌*◌, Bool, true, false, List, [], ◌∷◌, ◌++◌, Bytes, if◌then◌else◌}
use ekanite.System.{System, FilePath, Result, M, pure, try, ◌>>=◌, ◌>>◌}
use ekanite.Index.{Index}
use ekanite.Index.Opening.{FileInfo, Files, skipped, look, open_index}
use ekanite.Engine.{Engine, Sort}
use ekanite.Engine.Closing.{Running}

abbrev hour : ℕ
hour = 3600 * 1000000000

-- `NewEngine`, with the defaults of the package.
abbrev pub new_engine : {Db : Type 0} → FilePath → Running Db
new_engine path = record {
  engine = record {
    path = path;
    num_shards = 16;
    index_duration = 24 * hour;
    retention_period = 24 * hour;
    indexes = [];
    deletions = 0;
  };
  is_open = false;
  done = false;
}

module _ (sys : System) (fs : Files (sys.Disk)) (sort_strings : List Bytes → List Bytes)
    (sort : Sort (sys.Db)) where
  open sys use {Disk, Db, mkdir_all}

  -- The engine, which keeps what `Open` has done to it also where it fails, and the disk.
  abbrev pub State : Type 0
  State = Running Db × Disk

  abbrev pub on_disk : {A : Type 0} → M Disk A → M State A
  on_disk m (e, d) = let (r, d') = m d in (r, (e, d'))

  abbrev pub with_index : Running Db → Index Db → Running Db
  with_index e i = record e {
    engine = record (e.engine) { indexes = sort (e.engine.indexes ++ i ∷ []) };
  }

  abbrev pub add_index : Index Db → M State (Unit {0})
  add_index i (e, d) = pure tt (with_index e i, d)

  abbrev pub set_open : M State (Unit {0})
  set_open (e, d) = pure tt (record e { is_open = true }, d)

  -- The loop over the entries of the directory.
  unfoldable pub open_indexes : FilePath → List FileInfo → M State (Unit {0})
  open_indexes path [] = pure tt
  open_indexes path (fi ∷ fis) =
      let rest : M State (Unit {0}) = open_indexes path fis in
      let opened : M State (Unit {0}) = (do
        i ← on_disk (open_index sys fs sort_strings (path ++ fi.name ∷ []))
        add_index i
        rest) in
      if skipped fi then rest else opened

  -- `Open`
  unfoldable pub open_engine : M State (Unit {0})
  unfolding open_indexes
  open_engine (e, d) =
      let path = e.engine.path in
      let opening : M State (Unit {0}) = (do
        on_disk (try (mkdir_all path))
        fis ← on_disk (look sys (fs.readdir path))
        open_indexes path fis
        set_open) in
      opening (e, d)

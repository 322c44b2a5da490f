-- ===== src/Engine/Opening/Tests.antt =====
-- A machine with the directory of one index, and one with a directory that is none.
use mathlib.Core.List.{Perm, filter_map}
use mathlib.Core.List.Perm
use ekanite.Prelude.{
  ◌≡◌, ◌≢◌, refl, true, false, List, [], ◌∷◌, ◌++◌, Option, none, some, if◌then◌else◌, codes, arith,
}
use ekanite.Engine.Demux.Tests.{same_path}
use ekanite.Engine.Ingest.Tests.{same_path_itself}
use ekanite.System.{System, StatError, FilePath, ok, err, panic}
use ekanite.Index.{open_shard}
use ekanite.Index.Opening.{
  FileInfo, Files, first_line, read_end_time, list_shards, open_shards, open_index,
}
use ekanite.Index.Opening.Order.{shard_names}
use ekanite.Index.Opening.Reopening.{IsStored}
use ekanite.Index.Opening.Tests.{
  stat_path, parse_byte, listing, listing-Lists, sort_strings, sort_strings-Sorts, sorting, entry,
}
use ekanite.Engine.Closing.{Running, close_engine}
use ekanite.Engine.Opening.{new_engine, open_indexes, open_engine}
use ekanite.Engine.Opening.Restart.{
  Entries, IsPlaced, IsPersistent, shard_paths, summaries, open_engine-Restored,
}
use ekanite.Engine.Opening.Failure.{open_engine-close_engine, failed_open-close_engine}
use ekanite.Engine.Tests.{machine, made, insertion, insertion-Permutes, sorted}

-- The entries of the engine's directory, and those of any directory in it.
abbrev entries_at : List FileInfo → FilePath → List FileInfo
entries_at fis [] = fis
entries_at fis (_ ∷ _) = listing

abbrev root : List FileInfo
root = entry (codes ".git") true ∷ entry (40 ∷ []) true ∷ entry (codes "notes") false ∷ []

abbrev tree : {D : Type 0} → List FileInfo → Files D
tree fis = record {
  stat_info = λ p d. stat_path p;
  readdir = λ p d. some (entries_at fis p);
  open_file = λ p d. some (50 ∷ [], false);
  parse_time = parse_byte;
}

-- `bleve.Open`, where the state has the paths of the indexes that are stored and not open.
unfoldable open_closed : FilePath → List FilePath → Option (Unit {0}) × List FilePath
open_closed p [] = (none, [])
open_closed p (q ∷ qs) =
    let (b, left) = open_closed p qs in if same_path p q then (some tt, qs) else (b, q ∷ left)

-- A machine on which an index can be opened once, and none can be made where one is.
abbrev stored : System
stored = record {
  Disk = List FilePath;
  Db = Unit {0};
  stat = λ p d. StatError.nil;
  mkdir_all = λ p d. (false, d);
  create = λ p d. (false, d);
  write_string = λ p text d. (false, d);
  remove_all = λ p d. (false, d);
  now = λ d. (0, d);
  format_time = λ t. t ∷ [];
  build_index_mapping = λ d. (false, d);
  bleve_new = λ p d. (none, d);
  bleve_open = open_closed;
  bleve_close = λ b d. (false, d);
}

abbrev closed : List FilePath
closed = shard_paths stored (tree root) (made ∷ [])

made-IsStored : (d : List FilePath) → IsStored stored (tree root) made d
made-IsStored d = record {
  stat_is = refl;
  file_is = refl;
  entries = listing;
  readdir_is = refl;
  listed = listing-Lists;
  few = omega arith;
}

made-IsPlaced : IsPlaced stored (tree root) [] made
unfolding shard_names
made-IsPlaced = record { placed = refl; named = refl }

opens_first :
    (p : FilePath) (ps d : List FilePath)
    → d ≡ p ∷ ps
    → ((b : Unit {0}) × ((open_closed p d).0 ≡ some b)) × ((open_closed p d).1 ≡ ps)
unfolding open_closed
opens_first p ps d h = rw (h, open_closed, same_path_itself p) ((tt, refl), refl)

root-IsPersistent : IsPersistent stored (tree root) [] root (made ∷ []) (λ ps d. d ≡ ps)
root-IsPersistent = record {
  listed = λ ps d h. refl;
  entries = Entries.other refl (Entries.index made refl (Entries.other refl Entries.nil));
  stored = λ ps d h. ((made-IsStored d, made-IsPlaced), tt);
  makes = λ ps d h. (refl, h);
  opens = λ p ps d h. let (opened, left) = opens_first p ps d h in (refl, opened, left);
}

program : Unit {0}
unfolding open_engine open_indexes open_index open_shards open_shard list_shards read_end_time
    first_line sorting sorted filter_map close_engine
program = tt

abbrev opened : Running (Unit {0})
opened = record (new_engine []) {
  engine = record ((new_engine []).engine) { indexes = made ∷ [] };
  is_open = true;
}

opening :
    open_engine machine (tree root) sort_strings insertion (new_engine [], 7) ≡ (ok tt, (opened, 7))
unfolding program
opening = refl

open_engine-Restored_example :
    let (r, (e', _)) =
      open_engine stored (tree root) sort_strings insertion (new_engine [], closed) in
    (r ≡ ok tt)
    × (e'.is_open ≡ true)
    × Perm
        (summaries stored (tree root) (e'.engine.indexes))
        (summaries stored (tree root) (made ∷ []) ++ [])
unfolding shard_paths
open_engine-Restored_example =
    open_engine-Restored stored (tree root) sort_strings insertion (made ∷ []) root (made ∷ [])
      (λ ps d. d ≡ ps) (new_engine []) closed sort_strings-Sorts insertion-Permutes Perm.rfl
      (
        (record { no_newline = refl; parses = refl }, record { no_newline = refl; parses = refl }),
        tt,
      )
      root-IsPersistent refl

-- No time has the name of the second directory.
abbrev strange : List FileInfo
strange = entry (40 ∷ []) true ∷ entry (codes "ab") true ∷ []

failure : (open_engine machine (tree strange) sort_strings insertion (new_engine [], 7)).0 ≡ err
unfolding program
failure = refl

failed_open-close_engine_example :
    let (_, (e, d')) =
      open_engine machine (tree strange) sort_strings insertion (new_engine [], 7) in
    close_engine machine e d' ≡ (ok e, d')
failed_open-close_engine_example =
    failed_open-close_engine machine (tree strange) sort_strings insertion insertion-Permutes [] 7
      failure

open_engine-close_engine_example :
    let (r, (e, d')) = open_engine machine (tree root) sort_strings insertion (new_engine [], 7) in
    (r ≢ panic) × ((close_engine machine e d').0 ≢ panic)
open_engine-close_engine_example =
    open_engine-close_engine machine (tree root) sort_strings insertion insertion-Permutes [] 7

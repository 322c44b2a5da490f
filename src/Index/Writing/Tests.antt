-- ===== src/Index/Writing/Tests.antt =====
-- A disk in memory, with what was written to each path, the latest first.
use ekanite.Prelude.{
  equal, Bool, true, false, List, [], ◌∷◌, Option, none, some, Bytes, if◌then◌else◌,
}
use ekanite.System.{System, StatError, FilePath}
use ekanite.Index.{new_index, create_shards, open_shard}
use ekanite.Index.Opening.{FileInfo, Files}
use ekanite.Index.Opening.Tests.{parse_byte}
use ekanite.Engine.Demux.Tests.{same_path, same_list}

-- What is at a path: a directory, or a file with a text.
abbrev MemoryDisk : Type 0
MemoryDisk = List (FilePath × Option Bytes)

unfoldable lookup : FilePath → MemoryDisk → Option (Option Bytes)
lookup q [] = none
lookup q ((p, x) ∷ d) = let rest = lookup q d in if same_path p q then some x else rest

unfoldable last : FilePath → Bytes
last [] = []
last (x ∷ p) = elim p [ [] ↦ x | _ ∷ _ ↦ last p ]

abbrev info_of : FilePath → Option (Option Bytes) → Option FileInfo
info_of p none = none
info_of p (some none) = some (record { name = last p; is_dir = true })
info_of p (some (some text)) = some (record { name = last p; is_dir = false })

abbrev content_of : Option (Option Bytes) → Option (Bytes × Bool)
content_of (some (some text)) = some (text, false)
content_of _ = none

abbrev error_of : Option (Option Bytes) → StatError
error_of none = StatError.not_exist
error_of (some x) = StatError.nil

abbrev memory : System
memory = record {
  Disk = MemoryDisk;
  Db = Unit {0};
  stat = λ p d. error_of (lookup p d);
  mkdir_all = λ p d. (false, (p, none) ∷ d);
  create = λ p d. (false, (p, some []) ∷ d);
  write_string = λ p text d. (false, (p, some text) ∷ d);
  remove_all = λ p d. (false, d);
  now = λ d. (0, d);
  format_time = λ t. t ∷ [];
  build_index_mapping = λ d. (false, d);
  bleve_new = λ p d. (some tt, d);
  bleve_open = λ p d. (none, d);
  bleve_close = λ b d. (false, d);
}

abbrev files : Files MemoryDisk
files = record {
  stat_info = λ p d. info_of p (lookup p d);
  readdir = λ p d. none;
  open_file = λ p d. content_of (lookup p d);
  parse_time = parse_byte;
}

program : Unit {0}
unfolding new_index create_shards open_shard lookup same_path same_list equal
program = tt

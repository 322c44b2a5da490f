-- ===== src/Index/Opening/Tests.antt =====
-- A directory that is listed out of order, with a hidden directory in it, and a sort that runs.
use mathlib.Core.List.{Mem, Perm, Pairwise, mem-cons, not-mem-nil, filter_map, perm_middle}
use mathlib.Core.List.Perm
use mathlib.Core.Logic.Or
use ekanite.Prelude.{
  ℕ, ◌≡◌, refl, sym, subst, Bool, true, false, List, [], ◌∷◌, none, some, Bytes, codes, arith, inl,
  inr, Bool-cases, Option,
}
use ekanite.System.{FilePath, ok, err}
use ekanite.Index.{open_shard}
use ekanite.Index.Opening.{
  FileInfo, Files, first_line, read_end_time, list_shards, open_shards, open_index,
}
use ekanite.Index.Opening.Order.{string_le, IsSorted, Sorts}
use ekanite.Index.Opening.Listing.{Lists, shard_dirs}
use ekanite.Engine.Tests.{machine, made}

string_le_total : (s t : Bytes) → string_le s t ≡ false → string_le t s ≡ true
unfolding string_le
string_le_total [] t h = cc
string_le_total (c ∷ s) [] h = refl
string_le_total (c ∷ s) (d ∷ t) h = ground (arith, string_le_total s t)

string_le_trans :
    (s t u : Bytes) → string_le s t ≡ true → string_le t u ≡ true → string_le s u ≡ true
unfolding string_le
string_le_trans [] t u h k = refl
string_le_trans (c ∷ s) [] u h k = cc
string_le_trans (c ∷ s) (d ∷ t) [] h k = cc
string_le_trans (c ∷ s) (d ∷ t) (e ∷ u) h k = ground (arith, string_le_trans s t u)

unfoldable insert : Bytes → List Bytes → List Bytes
insert s [] = s ∷ []
insert s (t ∷ ts) = elim (string_le s t) [ true ↦ s ∷ t ∷ ts | false ↦ t ∷ insert s ts ]

unfoldable pub sort_strings : List Bytes → List Bytes
unfolding insert
sort_strings [] = []
sort_strings (s ∷ ss) = insert s (sort_strings ss)

insert-perm : (s : Bytes) (ts : List Bytes) → Perm (insert s ts) (s ∷ ts)
unfolding insert
insert-perm s [] = Perm.rfl
insert-perm s (t ∷ ts) = elim (Bool-cases (string_le s t)) [
  | inl h ↦ rw (h, insert) Perm.rfl
  | inr h ↦ rw (h, insert) (Perm.trans (Perm.cons t (insert-perm s ts)) (Perm.swap s t ts))
]

-- Below the head of an ascending list is below all of it.
below_all :
    (s t : Bytes) (ts : List Bytes)
    → string_le s t ≡ true
    → IsSorted (t ∷ ts)
    → (x : Bytes) → Mem x (t ∷ ts)
    → string_le s x ≡ true
below_all s t ts h (Pairwise.cons below _) x m =
    Or.elim {C = string_le s x ≡ true} (hlevel) (mem-cons.0 m)
      (λ e. subst (λ y. string_le s y ≡ true) (sym e) h)
      (λ m'. string_le_trans s t x h (below x m'))

insert-IsSorted : (s : Bytes) (ts : List Bytes) → IsSorted ts → IsSorted (insert s ts)
unfolding insert
insert-IsSorted s [] _ = Pairwise.cons (λ x m. absurd (not-mem-nil m)) Pairwise.nil
insert-IsSorted s (t ∷ ts) (Pairwise.cons below sorted) = elim (Bool-cases (string_le s t)) [
  | inl h ↦
      let all : IsSorted (t ∷ ts) = Pairwise.cons below sorted in
      rw (h, insert) (Pairwise.cons (below_all s t ts h all) all)
  | inr h ↦
      rw (h, insert)
        (Pairwise.cons
          (λ x m.
            Or.elim {C = string_le t x ≡ true} (hlevel)
              (mem-cons.0 ((Perm.mem_iff (insert-perm s ts)).0 m))
              (λ e. subst (λ y. string_le t y ≡ true) (sym e) (string_le_total s t h)) (below x))
          (insert-IsSorted s ts sorted))
]

pub sort_strings-Sorts : Sorts sort_strings
unfolding sort_strings
sort_strings-Sorts [] = (Perm.rfl, Pairwise.nil)
sort_strings-Sorts (s ∷ ss) =
    let (p, sorted) = sort_strings-Sorts ss in
    (Perm.trans (insert-perm s _) (Perm.cons s p), insert-IsSorted s _ sorted)

unfoldable pub sorting : Unit {0}
unfolding sort_strings insert string_le
sorting = tt

abbrev pub entry : Bytes → Bool → FileInfo
entry name is_dir = record { name = name; is_dir = is_dir }

abbrev pub listing : List FileInfo
listing =
    entry (codes "0001") true
    ∷ entry (codes "endtime") false
    ∷ entry (codes ".trash") true
    ∷ entry (codes "0000") true
    ∷ []

-- Every path is a directory with the name of its first component.
abbrev pub stat_path : FilePath → Option FileInfo
stat_path [] = none
stat_path (name ∷ _) = some (entry name true)

abbrev pub parse_byte : Bytes → Option ℕ
parse_byte (t ∷ []) = some t
parse_byte _ = none

abbrev files : Files ℕ
files = record {
  stat_info = λ p d. stat_path p;
  readdir = λ p d. some listing;
  open_file = λ p d. some (50 ∷ [], false);
  parse_time = parse_byte;
}

pub listing-Lists : Lists listing 2
unfolding shard_dirs
listing-Lists = record {
  others = entry (codes "endtime") false ∷ entry (codes ".trash") true ∷ [];
  entries =
      perm_middle {a = entry (codes "0000") true}
        (entry (codes "0001") true
          ∷ entry (codes "endtime") false
          ∷ entry (codes ".trash") true
          ∷ [])
        [];
  other_entries = refl;
}

program : Unit {0}
unfolding open_index open_shards open_shard list_shards read_end_time first_line sort_strings insert
    string_le filter_map
program = tt

reopening : open_index machine files sort_strings made.path 7 ≡ (ok made, 7)
unfolding program
reopening = refl

-- A path with no components is not there.
missing : (open_index machine files sort_strings [] 7).0 ≡ err
unfolding program
missing = refl

-- ===== src/Index/Opening/Listing.antt =====
-- What `listShards` finds in the directory of an index.
use mathlib.Core.List.{Perm, filter_map}
use mathlib.Core.List.Perm
use ekanite.Prelude.{
  ℕ, zero, suc, ◌≤◌, ◌≡◌, refl, ap, true, List, [], ◌∷◌, ◌++◌, some, Bytes, arith, subst, all_of,
}
use ekanite.Index.{four_digits}
use ekanite.Index.Opening.{FileInfo, skipped, kept_name}
use ekanite.Index.Opening.Order.{Sorts, shard_names, shard_names-IsSorted, IsSorted-unique}

-- The directories of the shards from number `n` on, `left` of them.
unfoldable pub shard_dirs : ℕ → ℕ → List FileInfo
shard_dirs n zero = []
shard_dirs n (suc left) = record { name = four_digits n; is_dir = true } ∷ shard_dirs (suc n) left

kept_others :
    (others : List FileInfo) → all_of skipped others ≡ true → filter_map kept_name others ≡ []
unfolding filter_map
kept_others [] h = refl
kept_others (fi ∷ others) h = ground (arith, kept_others others)

digits_kept :
    (n : ℕ) → kept_name (record { name = four_digits n; is_dir = true }) ≡ some (four_digits n)
digits_kept n = ground arith

kept_dirs :
    (n left : ℕ) (others : List FileInfo)
    → all_of skipped others ≡ true
    → filter_map kept_name (shard_dirs n left ++ others) ≡ shard_names n left
unfolding shard_dirs shard_names filter_map
kept_dirs n zero others h = kept_others others h
kept_dirs n (suc left) others h =
    rw (digits_kept n) (ap (◌∷◌ (four_digits n)) (kept_dirs (suc n) left others h))

-- The directory of an index lists, in any order, the directories of `n` shards, and other entries
-- that are hidden or no directories.
pub record Lists (fis : List FileInfo) (n : ℕ) : Type 0 where
  pub others : List FileInfo
  pub entries : Perm fis (shard_dirs 0 n ++ others)
  pub other_entries : all_of skipped others ≡ true

pub sorted_names :
    (sort_strings : List Bytes → List Bytes) (fis : List FileInfo) (n : ℕ)
    → Sorts sort_strings
    → Lists fis n
    → n ≤ 9999
    → sort_strings (filter_map kept_name fis) ≡ shard_names 0 n
sorted_names sort_strings fis n sorts l h =
    let (p, s) = sorts (filter_map kept_name fis) in
    let q =
      subst (λ names. Perm (filter_map kept_name fis) names)
        (kept_dirs 0 n l.others l.other_entries) (Perm.filter_map kept_name l.entries) in
    IsSorted-unique _ _ s (shard_names-IsSorted 0 n (omega arith)) (Perm.trans p q)

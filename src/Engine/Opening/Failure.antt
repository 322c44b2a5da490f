-- ===== src/Engine/Opening/Failure.antt =====
-- `Open` where it fails, and `Close` behind it.
use mathlib.Core.List.{Mem, mem-cons, mem-cons_self, mem-cons_of_mem, not-mem-nil}
use mathlib.Core.List.Perm
use mathlib.Core.Logic.Or
use ekanite.Prelude.{
  ◌≡◌, ◌≢◌, refl, sym, subst, true, false, List, [], ◌∷◌, ◌++◌, Bytes, arith, Bool-cases,
  Option-cases, inl, inr,
}
use ekanite.System.{System, FilePath, Result, ok, err, panic, M, and_then, ◌>>◌}
use ekanite.Engine.Success.{close_shards-ne-panic}
use ekanite.Index.{Shard, Index, open_shard, new_shard, close_shards}
use ekanite.Index.Create.{all_open, is_open}
use ekanite.Index.Opening.{FileInfo, Files, skipped, open_shards, open_index}
use ekanite.Engine.{Sort}
use ekanite.Engine.Creation.{Permutes, perm-snoc}
use ekanite.Engine.Closing.{Running, close_indexes, close_engine}
use ekanite.Engine.Opening.{with_index, open_indexes, open_engine, new_engine, add_index, set_open}

module _ (sys : System) (fs : Files (sys.Disk)) (sort_strings : List Bytes → List Bytes) where
  open sys use {Disk, Db}

  -- An index whose shards are open, or an error.
  abbrev IsSafe : Result (Index Db) → Type 0
  IsSafe (ok i) = all_open sys i.shards ≡ true
  IsSafe err = Unit
  IsSafe panic = ⊥

  abbrev AreSafe : Result (List (Shard Db)) → Type 0
  AreSafe (ok l) = all_open sys l ≡ true
  AreSafe err = Unit
  AreSafe panic = ⊥

  abbrev ShardIsSafe : Result (Shard Db) → Type 0
  ShardIsSafe (ok s) = is_open sys s ≡ true
  ShardIsSafe err = Unit
  ShardIsSafe panic = ⊥

  open_shard-ShardIsSafe : (s : Shard Db) (d : Disk) → ShardIsSafe (open_shard sys s d).0
  unfolding open_shard
  open_shard-ShardIsSafe s d = ground arith

  open_shards-AreSafe :
      (path : FilePath) (names : List Bytes) (d : Disk) → AreSafe (open_shards sys path names d).0
  unfolding open_shards all_open
  open_shards-AreSafe path [] d = refl
  open_shards-AreSafe path (name ∷ names) d =
      let s : Shard Db = new_shard (path ++ name ∷ []) in
      ground
        (arith, open_shard-ShardIsSafe s d, open_shards-AreSafe path names (open_shard sys s d).1)

  open_index-IsSafe :
      (path : FilePath) (d : Disk) → IsSafe (open_index sys fs sort_strings path d).0
  unfolding open_index
  open_index-IsSafe path d = grind (arith, open_shards-AreSafe)

  -- Every shard of every index has a bleve index.
  abbrev pub AllOpen : Running Db → Type 0
  AllOpen e = (i : Index Db) → Mem i (e.engine.indexes) → all_open sys i.shards ≡ true

  close_indexes-ne-panic :
      (is : List (Index Db)) (d : Disk)
      → ((i : Index Db) → Mem i is → all_open sys i.shards ≡ true)
      → (close_indexes sys is d).0 ≢ panic
  unfolding close_indexes
  close_indexes-ne-panic [] d h = ground arith
  close_indexes-ne-panic (i ∷ is) d h = ground (
    arith,
    close_shards-ne-panic sys i.shards d (h i mem-cons_self),
    close_indexes-ne-panic is (close_shards sys i.shards d).1 (λ j m. h j (mem-cons_of_mem i m)),
  )

  close_engine-ne-panic :
      (e : Running Db) (d : Disk) → AllOpen e → e.done ≡ false → (close_engine sys e d).0 ≢ panic
  unfolding close_engine
  close_engine-ne-panic e d h k = ground (arith, close_indexes-ne-panic e.engine.indexes d h)

  module _ (sort : Sort Db) (permutes : Permutes Db sort) where
    abbrev IsSound : Running Db → Result (Unit {0}) × (Running Db × Disk) → Type 0
    IsSound e (r, (e', _)) =
        (r ≢ panic) × AllOpen e' × (e'.is_open ≡ e.is_open) × (e'.done ≡ e.done)

    with_index-AllOpen :
        (e : Running Db) (i : Index Db)
        → AllOpen e
        → all_open sys i.shards ≡ true
        → AllOpen (with_index sys fs sort_strings sort e i)
    with_index-AllOpen e i h k j m =
        Or.elim {C = all_open sys j.shards ≡ true} (hlevel)
          (mem-cons.0 ((Perm.mem_iff (perm-snoc sys sort e.engine.indexes i permutes)).0 m))
          (λ same. subst (λ (x : Index Db). all_open sys x.shards ≡ true) (sym same) k) (h j)

    -- What follows the opening of an index.
    opened-IsSound :
        (r : Result (Index Db)) (rest : M (Running Db × Disk) (Unit {0})) (e : Running Db)
        (d : Disk)
        → IsSafe r
        → AllOpen e
        → ((e' : Running Db) (x : Disk) → AllOpen e' → IsSound e' (rest (e', x)))
        → IsSound e (and_then r (λ i. add_index sys fs sort_strings sort i >> rest) (e, d))
    opened-IsSound (ok i) rest e d safe h k =
        k (with_index sys fs sort_strings sort e i) d (with_index-AllOpen e i h safe)
    opened-IsSound err rest e d safe h k = (λ x. cc, h, refl, refl)
    opened-IsSound panic rest e d safe h k = absurd safe

    open_indexes-IsSound :
        (path : FilePath) (fis : List FileInfo) (e : Running Db) (d : Disk)
        → AllOpen e
        → IsSound e (open_indexes sys fs sort_strings sort path fis (e, d))
    unfolding open_indexes
    open_indexes-IsSound path [] e d h = (λ x. cc, h, refl, refl)
    open_indexes-IsSound path (fi ∷ fis) e d h = elim (Bool-cases (skipped fi)) [
      | inl skip ↦ rw (skip, open_indexes) (open_indexes-IsSound path fis e d h)
      | inr keep ↦
          rw (keep, open_indexes)
            (opened-IsSound _ (open_indexes sys fs sort_strings sort path fis) e _
              (open_index-IsSafe (path ++ fi.name ∷ []) d) h (open_indexes-IsSound path fis))
    ]

    -- No panic, and where it fails, the flag is as it was.
    abbrev IsSettled : Running Db → Result (Unit {0}) × (Running Db × Disk) → Type 0
    IsSettled e (r, (e', _)) =
        (r ≢ panic) × AllOpen e' × (e'.done ≡ e.done) × ((r ≡ err) → (e'.is_open ≡ e.is_open))

    opened-IsSettled :
        (e : Running Db) (x : Result (Unit {0}) × (Running Db × Disk))
        → IsSound e x
        → IsSettled e (and_then x.0 (λ _. set_open sys fs sort_strings sort) x.1)
    opened-IsSettled e (ok _, (e', d')) (_, all, _, done) = (λ x. cc, all, done, λ x. cc)
    opened-IsSettled e (err, (e', d')) (_, all, flag, done) = (λ x. cc, all, done, λ x. flag)
    opened-IsSettled e (panic, (e', d')) (h, _, _, _) = absurd (h refl)

    open_engine-IsSettled :
        (e : Running Db) (d : Disk)
        → AllOpen e
        → IsSettled e (open_engine sys fs sort_strings sort (e, d))
    unfolding open_engine
    open_engine-IsSettled e d h =
        let path = e.engine.path in
        let (failed, d') = sys.mkdir_all path d in
        elim (Bool-cases failed) [
          | inl no_path ↦ rw (no_path, open_engine) (λ x. cc, h, refl, λ x. refl)
          | inr made ↦ elim (Option-cases (fs.readdir path d')) [
            | inl unread ↦ rw (made, unread, open_engine) (λ x. cc, h, refl, λ x. refl)
            | inr (fis, read) ↦
                rw (made, read, open_engine)
                  (opened-IsSettled e (open_indexes sys fs sort_strings sort path fis (e, d'))
                    (open_indexes-IsSound path fis e d' h))
          ]
        ]

    -- Neither `Open` of a new engine nor `Close` behind it panics, whatever the disk and bleve
    -- answer: every shard that `Close` closes has been opened.
    pub open_engine-close_engine :
        (path : FilePath) (d : Disk)
        → let (r, (e, d')) = open_engine sys fs sort_strings sort (new_engine path, d) in
          (r ≢ panic) × ((close_engine sys e d').0 ≢ panic)
    open_engine-close_engine path d =
        let (r, (e, d')) = open_engine sys fs sort_strings sort (new_engine path, d) in
        let (returns, all, done, _) =
          open_engine-IsSettled (new_engine path) d (λ i m. absurd (not-mem-nil m)) in
        (returns, close_engine-ne-panic e d' all done)

    -- Where `Open` of a new engine fails, `Close` behind it reports success and leaves the engine, with the
    -- indexes that `Open` had opened, and the disk as they are.
    pub failed_open-close_engine :
        (path : FilePath) (d : Disk)
        → (open_engine sys fs sort_strings sort (new_engine path, d)).0 ≡ err
        → let (_, (e, d')) = open_engine sys fs sort_strings sort (new_engine path, d) in
          close_engine sys e d' ≡ (ok e, d')
    unfolding close_engine
    failed_open-close_engine path d failed =
        let (_, (e, d')) = open_engine sys fs sort_strings sort (new_engine path, d) in
        let (_, _, _, flag) =
          open_engine-IsSettled (new_engine path) d (λ i m. absurd (not-mem-nil m)) in
        rw (flag failed, close_engine)

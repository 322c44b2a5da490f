-- ===== src/Index/Create.antt =====
-- index.go: what `NewIndex` returns.
mod Tests
use ekanite.Prelude.{
  ℕ, zero, suc, ◌≤◌, ◌≡◌, refl, subst, false, List, [], ◌∷◌, ◌++◌, none, some, Bytes, length, arith,
  true, ◌&&◌, Bool, ◌≢◌,
}
use ekanite.System.{System, FilePath, StatError, Result, ok, err, panic, pure, and_then, ◌>>=◌}
use ekanite.Index.{
  Shard, Index, new_shard, four_digits, open_shard, create_shards, refuses_path, new_index,
}

snoc-ne : {A : Type 0} (l : List A) (x : A) → l ++ x ∷ [] ≢ l
snoc-ne [] x e = cc
snoc-ne (y ∷ l) x e = snoc-ne l x (cc)

module _ (sys : System) where
  open sys use {Disk, Db}

  open_shard-ne-panic : (s : Shard Db) (d : Disk) → (open_shard sys s d).0 ≢ panic
  unfolding open_shard
  open_shard-ne-panic s d = ground arith

  create_shards-ne-panic :
      (path : FilePath) (n left : ℕ) (d : Disk) → (create_shards sys path n left d).0 ≢ panic
  unfolding create_shards
  create_shards-ne-panic path n zero d = ground arith
  create_shards-ne-panic path n (suc left) d =
      let s : Shard Db = new_shard (path ++ four_digits n ∷ []) in
      ground (
        arith,
        open_shard-ne-panic s d,
        create_shards-ne-panic path (suc n) left (open_shard sys s d).1,
      )

  -- Every shard has a bleve index.
  abbrev pub is_open : Shard Db → Bool
  is_open s = elim (s.b) [ none ↦ false | some b ↦ true ]

  unfoldable pub all_open : List (Shard Db) → Bool
  all_open [] = true
  all_open (s ∷ ss) = is_open s && all_open ss

  abbrev Opens : Result (Shard Db) → Type 0
  Opens (ok s) = is_open s ≡ true
  Opens _ = Unit

  open_shard-Opens : (s : Shard Db) (d : Disk) → Opens (open_shard sys s d).0
  unfolding open_shard
  open_shard-Opens s d = ground arith

  abbrev Holds : ℕ → Result (List (Shard Db)) → Type 0
  Holds n (ok l) = (length l ≡ n) × (all_open l ≡ true)
  Holds n _ = Unit

  create_shards-Holds :
      (path : FilePath) (n left : ℕ) (d : Disk) → Holds left (create_shards sys path n left d).0
  unfolding create_shards all_open
  create_shards-Holds path n zero d = (refl, refl)
  create_shards-Holds path n (suc left) d =
      let s : Shard Db = new_shard (path ++ four_digits n ∷ []) in
      ground
        (arith, open_shard-Opens s d, create_shards-Holds path (suc n) left (open_shard sys s d).1)

  length-create_shards :
      (path : FilePath) (n left : ℕ) (d : Disk) {l : List (Shard Db)}
      → (create_shards sys path n left d).0 ≡ ok l
      → length l ≡ left
  length-create_shards path n left d h =
      (subst (Holds left) h (create_shards-Holds path n left d)).0

  all_open-create_shards :
      (path : FilePath) (n left : ℕ) (d : Disk) {l : List (Shard Db)}
      → (create_shards sys path n left d).0 ≡ ok l
      → all_open l ≡ true
  all_open-create_shards path n left d h =
      (subst (Holds left) h (create_shards-Holds path n left d)).1

  pub new_index-ne-panic :
      (path : FilePath) (start end num : ℕ) (d : Disk)
      → (new_index sys path start end num d).0 ≢ panic
  unfolding new_index
  new_index-ne-panic path start end num d = grind (arith, create_shards-ne-panic)

  -- An index that `NewIndex` returns has the times that were asked for, lies in the directory that
  -- is named for its start time, and has as many shards as were asked for, 9999 at most, each with an
  -- open bleve index.
  pub new_index-range :
      (path : FilePath) (start end num : ℕ) (d : Disk) {i : Index Db}
      → (new_index sys path start end num d).0 ≡ ok i
      → (i.start_time ≡ start)
        × (i.end_time ≡ end)
        × (i.path ≡ path ++ sys.format_time start ∷ [])
        × (length i.shards ≡ num)
        × (num ≤ 9999)
        × (all_open i.shards ≡ true)
  unfolding new_index
  new_index-range path start end num d h =
      grind (arith, length-create_shards, all_open-create_shards)

  never_refuses : (e : StatError) → refuses_path sys e ≡ false
  never_refuses StatError.nil = refl
  never_refuses StatError.not_exist = refl
  never_refuses StatError.other = refl

  -- `stat` answers as `Stat` does, but for one path.
  abbrev pub Else : FilePath → (FilePath → Disk → StatError) → Type 0
  Else path stat = (p : FilePath) (d : Disk) → p ≢ path → stat p d ≡ sys.stat p d

  module _ (stat : FilePath → Disk → StatError) where
    abbrev pub other : System
    other = record sys { stat = stat }

    open_shard-stat :
        (s : Shard Db) (d : Disk)
        → stat s.path d ≡ sys.stat s.path d
        → open_shard other s d ≡ open_shard sys s d
    unfolding open_shard
    open_shard-stat s d h = rw (h) refl

    create_shards-stat :
        (path : FilePath) (n left : ℕ) (d : Disk)
        → Else path stat
        → create_shards other path n left d ≡ create_shards sys path n left d
    unfolding create_shards
    create_shards-stat path n zero d same = refl
    create_shards-stat path n (suc left) d same =
        let p = path ++ four_digits n ∷ [] in
        let away : p ≢ path = λ e. snoc-ne path (four_digits n) e in
        let s : Shard Db = new_shard p in
        let ih = λ (x : Disk). create_shards-stat path (suc n) left x same in
        rw (open_shard-stat s d (same p d away))
          (go (open_shard sys s d).0 (open_shard sys s d).1 ih)
      where
        go :
            (r : Result (Shard Db)) (x : Disk)
            → ((y : Disk)
                → create_shards other path (suc n) left y ≡ create_shards sys path (suc n) left y)
            → and_then r (λ s. create_shards other path (suc n) left >>= λ rest. pure (s ∷ rest)) x
              ≡ and_then r (λ s. create_shards sys path (suc n) left >>= λ rest. pure (s ∷ rest)) x
        go (ok s) x ih = rw (ih x) refl
        go err x ih = refl
        go panic x ih = refl

    -- Whatever `Stat` says of the path of the index, that it is there, that it is not, or an error,
    -- `NewIndex` does the same and leaves the same: it never finds that the index exists already.
    pub new_index-stat :
        (path : FilePath) (start end num : ℕ) (d : Disk)
        → Else (path ++ sys.format_time start ∷ []) stat
        → new_index other path start end num d ≡ new_index sys path start end num d
    unfolding new_index
    new_index-stat path start end num d same =
        let p = path ++ sys.format_time start ∷ [] in
        let shards : create_shards other p 0 num ≡ create_shards sys p 0 num =
          λ i x. create_shards-stat p 0 num x same i in
        let a = never_refuses (stat p d) in
        let b = never_refuses (sys.stat p d) in ground (arith, a, b, shards)

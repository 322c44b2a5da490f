-- ===== src/Engine/Creation.antt =====
-- What `createIndexForReferenceTime` makes.
use mathlib.Core.List.{Mem, Perm, mem-cons, mem-cons_self, perm_middle}
use mathlib.Core.List.Perm
use mathlib.Core.Logic.Or
use ekanite.Prelude.{
  ℕ, ◌+◌, ◌<◌, ◌≡◌, ◌≢◌, refl, sym, ap, ◌∙◌, true, List, [], ◌∷◌, ◌++◌, none, some, Option-cases,
  inl, inr, arith, subst, append-nil, ◌⊎◌,
}
use ekanite.System.{System, Result, ok, err, panic}
use ekanite.Index.{Index, contains, new_index}
use ekanite.Index.Create.{new_index-ne-panic, new_index-range}
use ekanite.Engine.{
  Engine, Sort, truncate, index_for_reference_time, index_with_start, adjusted_start, create_index,
  create_index_for_reference_time,
}
use ekanite.Engine.Lookup.{
  index_with_start-eq-some, index_for-eq-some, index_for-eq-none, index_for_found,
  contains_of_bounds, adjusted_start-le, truncate_bounds,
}

-- What `sort.Sort` promises of any slice.
abbrev pub Permutes : (Db : Type 0) → Sort Db → Type 0
Permutes Db sort = (is : List (Index Db)) → Perm (sort is) is

module _ (sys : System) (sort : Sort (sys.Db)) where
  open sys use {Disk, Db}

  -- The engine behind a creation for the reference time: the new index contains that time, the
  -- engine has the indexes it had and the new one, and finds the new one for that time.
  pub record HasCreated (e : Engine Db) (rt : ℕ) (i : Index Db) (e' : Engine Db) : Type 0 where
    pub covers : contains i rt ≡ true
    pub kept : Perm (e'.indexes) (i ∷ e.indexes)
    pub found : (j : Index Db) × (index_for_reference_time (e'.indexes) rt ≡ some j) × ∥ j ≡ i ∥₁
    pub start_is :
        (i.start_time ≡ truncate rt e.index_duration)
        ⊎ ((j : Index Db) × Mem j e.indexes
            × (j.start_time ≡ truncate rt e.index_duration)
            × (i.start_time ≡ j.end_time))
    pub end_is : i.end_time ≡ truncate rt e.index_duration + e.index_duration
    pub rest : e' ≡ record e { indexes = e'.indexes }

  pub perm-snoc :
      (is : List (Index Db)) (i : Index Db) → Permutes Db sort → Perm (sort (is ++ i ∷ [])) (i ∷ is)
  perm-snoc is i p = Perm.trans (p (is ++ i ∷ [])) (rw append-nil at (perm_middle {a = i} is []))

  create_index-eq-ok :
      (e : Engine Db) (start end : ℕ) (d : Disk) {i : Index Db} {e' : Engine Db}
      → (create_index sys sort e start end d).0 ≡ ok (i, e')
      → ((new_index sys e.path (adjusted_start e.indexes start) end e.num_shards d).0 ≡ ok i)
        × (e' ≡ record e { indexes = sort (e.indexes ++ i ∷ []) })
  unfolding create_index
  create_index-eq-ok e start end d h = grind arith

  start-cases :
      (is : List (Index Db)) (start : ℕ)
      → (adjusted_start is start ≡ start)
        ⊎ ((j : Index Db) × Mem j is
            × (j.start_time ≡ start)
            × (adjusted_start is start ≡ j.end_time))
  unfolding adjusted_start
  start-cases is start = elim (Option-cases (index_with_start is start)) [
    | inl free ↦ inl (rw (free, adjusted_start))
    | inr (j, taken) ↦
        let (m, same) = index_with_start-eq-some is start taken in
        inr (j, m, same, rw (taken, adjusted_start))
  ]

  -- No other index contains the time.
  only_new :
      (is sorted : List (Index Db)) (rt : ℕ) (i : Index Db)
      → index_for_reference_time is rt ≡ none
      → Perm sorted (i ∷ is)
      → (j : Index Db) → Mem j sorted
      → contains j rt ≡ true
      → ∥ j ≡ i ∥₁
  only_new is sorted rt i absent p j m c =
      Or.elim squash₁ (mem-cons.0 ((Perm.mem_iff p).0 m)) (λ e. ∣ e ∣₁)
        (λ old. cc (index_for-eq-none is rt absent j old))

  found_new :
      (is sorted : List (Index Db)) (rt : ℕ) (i : Index Db)
      → index_for_reference_time is rt ≡ none
      → Perm sorted (i ∷ is)
      → contains i rt ≡ true
      → (j : Index Db) × (index_for_reference_time sorted rt ≡ some j) × ∥ j ≡ i ∥₁
  found_new is sorted rt i absent p c =
      let (j, found) = index_for_found sorted rt i ((Perm.mem_iff p).1 mem-cons_self) c in
      let (m, cj) = index_for-eq-some sorted rt found in
      (j, found, only_new is sorted rt i absent p j m cj)

  -- Where no index contains the reference time and the index duration is not 0, a creation that
  -- succeeds adds one index to the engine's, which contains the time and is the one that is found
  -- for it; it ends with the time's slot, and begins with it or at the end of an index that has
  -- that start time already; nothing else of the engine changes.
  pub create-HasCreated :
      (e : Engine Db) (rt : ℕ) (d : Disk) {i : Index Db} {e' : Engine Db}
      → Permutes Db sort
      → 0 < e.index_duration
      → index_for_reference_time e.indexes rt ≡ none
      → (create_index_for_reference_time sys sort e rt d).0 ≡ ok (i, e')
      → HasCreated e rt i e'
  unfolding create_index_for_reference_time
  create-HasCreated e rt d {i} {e'} perm pos absent h =
      let start = truncate rt e.index_duration in
      let (made, same) = create_index-eq-ok e start (start + e.index_duration) d h in
      let (starts, ends, _, _, _, _) =
        new_index-range sys e.path (adjusted_start e.indexes start) (start + e.index_duration)
          e.num_shards d made in
      let (low, high) = truncate_bounds rt e.index_duration pos in
      let le = adjusted_start-le e.indexes start rt absent low in
      let covers = contains_of_bounds i rt (omega arith) (omega arith) in
      let kept : Perm (e'.indexes) (i ∷ e.indexes) =
        subst (λ (x : Engine Db). Perm (x.indexes) (i ∷ e.indexes)) (sym same)
          (perm-snoc e.indexes i perm) in
      record {
        covers = covers;
        kept = kept;
        found = found_new e.indexes e'.indexes rt i absent kept covers;
        start_is = elim (start-cases e.indexes start) [
          | inl e₁ ↦ inl (starts ∙ e₁)
          | inr (j, m, s₁, e₁) ↦ inr (j, m, s₁, starts ∙ e₁)
        ];
        end_is = ends;
        rest =
            same
            ∙ ap (λ (l : List (Index Db)). record e { indexes = l })
                (sym (ap (λ (x : Engine Db). x.indexes) same));
      }

  -- Where no index contains the reference time and the index duration is not 0, a creation does not
  -- panic: the assertion of `createIndex` holds.
  pub create-ne-panic :
      (e : Engine Db) (rt : ℕ) (d : Disk)
      → 0 < e.index_duration
      → index_for_reference_time e.indexes rt ≡ none
      → (create_index_for_reference_time sys sort e rt d).0 ≢ panic
  unfolding create_index_for_reference_time create_index
  create-ne-panic e rt d pos absent =
      let start = truncate rt e.index_duration in
      let (low, high) = truncate_bounds rt e.index_duration pos in
      let le = adjusted_start-le e.indexes start rt absent low in grind (arith, new_index-ne-panic)

  create_index-eq-err :
      (e : Engine Db) (start end : ℕ) (d : Disk)
      → (create_index sys sort e start end d).0 ≡ err
      → (new_index sys e.path (adjusted_start e.indexes start) end e.num_shards d).0 ≡ err
  unfolding create_index
  create_index-eq-err e start end d h = grind (arith, new_index-ne-panic)

  -- What comes of a creation: the engine with the new index, or the error of `NewIndex`.
  abbrev pub Settles : Engine Db → ℕ → Disk → Result (Index Db × Engine Db) → Type 0
  Settles e rt d (ok (i, e')) = HasCreated e rt i e'
  Settles e rt d err =
      let start = truncate rt e.index_duration in
      (new_index sys e.path (adjusted_start e.indexes start) (start + e.index_duration) e.num_shards
        d).0
      ≡ err
  Settles e rt d panic = ⊥

  -- Where no index contains the reference time and the index duration is not 0, a creation does not
  -- panic, so the assertion of `createIndex` holds: it fails only where `NewIndex` fails, and otherwise
  -- returns an index that contains the time and the engine that has it besides its own, and that
  -- finds it for the time.
  pub create-Settles :
      (e : Engine Db) (rt : ℕ) (d : Disk)
      → Permutes Db sort
      → 0 < e.index_duration
      → index_for_reference_time e.indexes rt ≡ none
      → Settles e rt d (create_index_for_reference_time sys sort e rt d).0
  unfolding create_index_for_reference_time
  create-Settles e rt d perm pos absent =
      let start = truncate rt e.index_duration in
      go (create_index_for_reference_time sys sort e rt d).0
        (λ i e' h. create-HasCreated e rt d perm pos absent h)
        (create_index-eq-err e start (start + e.index_duration) d)
        (create-ne-panic e rt d pos absent)
    where
      go :
          (r : Result (Index Db × Engine Db))
          → ((i : Index Db) (e' : Engine Db) → r ≡ ok (i, e') → HasCreated e rt i e')
          → (r ≡ err → Settles e rt d err)
          → r ≢ panic
          → Settles e rt d r
      go (ok (i, e')) made failed sound = made i e' refl
      go err made failed sound = failed refl
      go panic made failed sound = absurd (sound refl)

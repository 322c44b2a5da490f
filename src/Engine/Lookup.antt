-- ===== src/Engine/Lookup.antt =====
-- What `indexForReferenceTime` and the search for a start time find.
use mathlib.Core.Logic.Or
use mathlib.Core.Option.{some-injective}
use mathlib.Core.List.{Mem, mem-cons, mem-cons_self, mem-cons_of_mem, not-mem-nil}
use ekanite.Prelude.{
  ℕ, ◌+◌, ◌≤◌, ◌<◌, ◌≡◌, subst, true, false, List, [], ◌∷◌, none, some, ◌==◌, Bool-cases,
  Option-cases, ==_iff, inl, inr, arith,
}
use ekanite.Index.{Index, contains}
use ekanite.Engine.{truncate, index_for_reference_time, index_with_start, adjusted_start}

module _ {Db : Type 0} where
  pub index_for-eq-some :
      (is : List (Index Db)) (t : ℕ) {i : Index Db}
      → index_for_reference_time is t ≡ some i
      → Mem i is × (contains i t ≡ true)
  unfolding index_for_reference_time
  index_for-eq-some [] t h = cc
  index_for-eq-some (j ∷ is) t {i} h = elim (Bool-cases (contains j t)) [
    | inl found ↦
        let e : some j ≡ some i = rw (found, index_for_reference_time) at h in
        subst (λ k. Mem k (j ∷ is) × (contains k t ≡ true)) (some-injective _ _ e)
          (mem-cons_self, found)
    | inr other ↦
        let (m, c) = index_for-eq-some is t (rw (other, index_for_reference_time) at h) in
        (mem-cons_of_mem j m, c)
  ]

  pub index_for-eq-none :
      (is : List (Index Db)) (t : ℕ)
      → index_for_reference_time is t ≡ none
      → (i : Index Db) → Mem i is
      → contains i t ≡ false
  unfolding index_for_reference_time
  index_for-eq-none [] t h i m = absurd (not-mem-nil m)
  index_for-eq-none (j ∷ is) t h i m = elim (Bool-cases (contains j t)) [
    | inl found ↦ cc (rw (found, index_for_reference_time) at h)
    | inr other ↦
        let rest = rw (other, index_for_reference_time) at h in
        Or.elim (hlevel) (mem-cons.0 m) (λ e. rw e other) (index_for-eq-none is t rest i)
  ]

  pub index_for_found :
      (is : List (Index Db)) (t : ℕ) (i : Index Db)
      → Mem i is
      → contains i t ≡ true
      → (j : Index Db) × (index_for_reference_time is t ≡ some j)
  index_for_found is t i m c = elim (Option-cases (index_for_reference_time is t)) [
    | inl absent ↦ cc (index_for-eq-none is t absent i m)
    | inr found ↦ found
  ]

  pub index_with_start-eq-some :
      (is : List (Index Db)) (t : ℕ) {i : Index Db}
      → index_with_start is t ≡ some i
      → Mem i is × (i.start_time ≡ t)
  unfolding index_with_start
  index_with_start-eq-some [] t h = cc
  index_with_start-eq-some (j ∷ is) t h = elim (Bool-cases (j.start_time == t)) [
    | inl found ↦
        let e : some j ≡ some _ = rw (found, index_with_start) at h in
        subst (λ k. Mem k (j ∷ is) × (k.start_time ≡ t)) (some-injective _ _ e)
          (mem-cons_self, (==_iff j.start_time t).0 found)
    | inr other ↦
        let (m, c) = index_with_start-eq-some is t (rw (other, index_with_start) at h) in
        (mem-cons_of_mem j m, c)
  ]

  pub contains_bounds :
      (i : Index Db) (t : ℕ) → contains i t ≡ true → (i.start_time ≤ t) × (t < i.end_time)
  unfolding contains
  contains_bounds i t h = ground arith

  pub not-contains :
      (i : Index Db) (t : ℕ) → contains i t ≡ false → i.start_time ≤ t → i.end_time ≤ t
  unfolding contains
  not-contains i t h le = ground arith

  pub contains_of_bounds :
      (i : Index Db) (t : ℕ) → i.start_time ≤ t → t < i.end_time → contains i t ≡ true
  unfolding contains
  contains_of_bounds i t h k = ground arith

  -- The start time that `createIndex` uses is not after a time which no index contains.
  pub adjusted_start-le :
      (is : List (Index Db)) (start t : ℕ)
      → index_for_reference_time is t ≡ none
      → start ≤ t
      → adjusted_start is start ≤ t
  unfolding adjusted_start
  adjusted_start-le is start t absent le = elim (Option-cases (index_with_start is start)) [
    | inl free ↦ rw (free, adjusted_start) le
    | inr (i, taken) ↦
        let (m, same) = index_with_start-eq-some is start taken in
        rw (taken, adjusted_start)
          (not-contains i t (index_for-eq-none is t absent i m) (omega arith))
  ]

pub truncate_bounds : (t d : ℕ) → 0 < d → (truncate t d ≤ t) × (t < truncate t d + d)
unfolding truncate
truncate_bounds t d h = grind arith

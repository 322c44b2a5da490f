-- ===== src/Engine/Retention.antt =====
-- Which indexes `enforceRetention` keeps.
use ekanite.Prelude.{
  ℕ, ◌+◌, ◌≤◌, ◌<◌, ◌≡◌, refl, true, false, List, [], ◌∷◌, arith, subst, Bool-cases, inl, inr,
}
use ekanite.System.{System, Result, ok, err, panic, M, pure, and_then}
use ekanite.Index.{Index, expired, delete_index}
use ekanite.Engine.{Engine, after_deletion, retained, enforce_retention}

module _ (sys : System) where
  open sys use {Disk, Db}

  -- The clock stays between two times.
  abbrev pub ClockWithin : ℕ → ℕ → Type 0
  ClockWithin from to = (d : Disk) → (from ≤ (sys.now d).0) × ((sys.now d).0 ≤ to)

  -- What a run over the indexes may leave of them: it drops only what has aged out.
  pub data Keeps (from to period : ℕ) : List (Index Db) → List (Index Db) → Type 0 where
    end : Keeps from to period [] []
    keep :
        {is js : List (Index Db)} (i : Index Db)
        → from ≤ i.end_time + period
        → Keeps from to period is js
        → Keeps from to period (i ∷ is) (i ∷ js)
    drop :
        {is js : List (Index Db)} (i : Index Db)
        → i.end_time + period < to
        → Keeps from to period is js
        → Keeps from to period (i ∷ is) js

  abbrev KeepsOf : ℕ → ℕ → ℕ → List (Index Db) → Result (List (Index Db) × ℕ) → Type 0
  KeepsOf from to period is (ok (js, n)) = Keeps from to period is js
  KeepsOf from to period is _ = Unit

  kept-KeepsOf :
      (from to period : ℕ) (i : Index Db) (is : List (Index Db)) (r : Result (List (Index Db) × ℕ))
      (d : Disk)
      → from ≤ i.end_time + period
      → KeepsOf from to period is r
      → KeepsOf from to period (i ∷ is) (and_then r (λ (rest, m). pure (i ∷ rest, m)) d).0
  kept-KeepsOf from to period i is (ok (js, n)) d h k = keep i h k
  kept-KeepsOf from to period i is err d h k = tt
  kept-KeepsOf from to period i is panic d h k = tt

  drop-KeepsOf :
      (from to period : ℕ) (i : Index Db) (is : List (Index Db)) (r : Result (List (Index Db) × ℕ))
      → i.end_time + period < to
      → KeepsOf from to period is r
      → KeepsOf from to period (i ∷ is) r
  drop-KeepsOf from to period i is (ok (js, m)) h x = drop i h x
  drop-KeepsOf from to period i is err h x = tt
  drop-KeepsOf from to period i is panic h x = tt

  dropped-KeepsOf :
      (from to period : ℕ) (i : Index Db) (is : List (Index Db)) (deleted : Result (Unit {0}))
      (rest : ℕ → M Disk (List (Index Db) × ℕ)) (n : ℕ) (d : Disk)
      → i.end_time + period < to
      → ((k : ℕ) (x : Disk) → KeepsOf from to period is (rest k x).0)
      → KeepsOf from to period (i ∷ is) (after_deletion sys deleted rest n d).0
  dropped-KeepsOf from to period i is (ok _) rest n d h k =
      drop-KeepsOf from to period i is (rest (n + 1) d).0 h (k (n + 1) d)
  dropped-KeepsOf from to period i is err rest n d h k =
      drop-KeepsOf from to period i is (rest n d).0 h (k n d)
  dropped-KeepsOf from to period i is panic rest n d h k = tt

  expired-lt : (i : Index Db) (t r : ℕ) → expired i t r ≡ true → i.end_time + r < t
  unfolding expired
  expired-lt i t r h = ground arith

  not-expired-le : (i : Index Db) (t r : ℕ) → expired i t r ≡ false → t ≤ i.end_time + r
  unfolding expired
  not-expired-le i t r h = ground arith

  retained-KeepsOf :
      (from to period : ℕ) (is : List (Index Db)) (n : ℕ) (d : Disk)
      → ClockWithin from to
      → KeepsOf from to period is (retained sys period is n d).0
  unfolding retained
  retained-KeepsOf from to period [] n d w = end
  retained-KeepsOf from to period (i ∷ is) n d w =
      let (t, d') = sys.now d in
      let (deleted, d'') = delete_index sys i d' in
      let (low, high) = w d in
      let rest : (k : ℕ) (x : Disk) → KeepsOf from to period is (retained sys period is k x).0 =
        λ k x. retained-KeepsOf from to period is k x w in
      elim (Bool-cases (expired i t period)) [
        | inl old ↦
            rw (old, retained)
              (dropped-KeepsOf from to period i is deleted (λ k. retained sys period is k) n d''
                (omega (arith, expired-lt i t period old)) rest)
        | inr young ↦
            rw (young, retained)
              (kept-KeepsOf from to period i is (retained sys period is n d').0
                (retained sys period is n d').1 (omega (arith, not-expired-le i t period young))
                (rest n d'))
      ]

  engine-Keeps :
      (from to : ℕ) (e : Engine Db) (r : Result (List (Index Db) × ℕ)) (d : Disk) {e' : Engine Db}
      → KeepsOf from to e.retention_period e.indexes r
      → (and_then r (λ (filtered, n). pure (record e { indexes = filtered; deletions = n })) d).0
        ≡ ok e'
      → Keeps from to e.retention_period e.indexes e'.indexes
        × (e' ≡ record e { indexes = e'.indexes; deletions = e'.deletions })
  engine-Keeps from to e (ok (js, n)) d {e'} k h =
      let made : record e { indexes = js; deletions = n } ≡ e' = cc in
      subst
        (λ (x : Engine Db).
          Keeps from to e.retention_period e.indexes x.indexes
          × (x ≡ record e { indexes = x.indexes; deletions = x.deletions }))
        made (k, refl)
  engine-Keeps from to e err d k h = cc
  engine-Keeps from to e panic d k h = cc

  -- While the clock stays between two times, retention enforcement that returns keeps, in order, a
  -- selection of the indexes: every one that is kept ended, with the retention period added, no
  -- earlier than the first time, and every one that is dropped ended, with the period added, before
  -- the second. Nothing else of the engine changes but the number of deletions.
  pub enforce_retention-Keeps :
      (from to : ℕ) (e : Engine Db) (d : Disk) {e' : Engine Db}
      → ClockWithin from to
      → (enforce_retention sys e d).0 ≡ ok e'
      → Keeps from to e.retention_period e.indexes e'.indexes
        × (e' ≡ record e { indexes = e'.indexes; deletions = e'.deletions })
  unfolding enforce_retention
  enforce_retention-Keeps from to e d w h =
      let (r, d') = retained sys e.retention_period e.indexes e.deletions d in
      engine-Keeps from to e r d'
        (retained-KeepsOf from to e.retention_period e.indexes e.deletions d w) h

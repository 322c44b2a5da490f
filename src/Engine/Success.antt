-- ===== src/Engine/Success.antt =====
-- engine.go: where the enforcement of the retention returns.
use ekanite.Prelude.{ℕ, ◌+◌, ◌≡◌, ◌≢◌, refl, true, Bool-cases, inl, inr, List, [], ◌∷◌, arith, All}
use ekanite.System.{System, Result, ok, err, panic, M, pure, and_then}
use ekanite.Index.{Index, Shard, expired, close_shard, close_shards, delete_index}
use ekanite.Index.Create.{all_open}
use ekanite.Engine.{Engine, after_deletion, retained, enforce_retention}

module _ (sys : System) where
  open sys use {Disk, Db, now}

  abbrev IsOk {ℓ} : {A : Type ℓ} → Result A → Type 0
  IsOk (ok a) = Unit
  IsOk _ = ⊥

  pub close_shards-ne-panic :
      (ss : List (Shard Db)) (d : Disk) → all_open sys ss ≡ true → (close_shards sys ss d).0 ≢ panic
  unfolding close_shards close_shard all_open
  close_shards-ne-panic [] d h = ground arith
  close_shards-ne-panic (s ∷ ss) d h =
      ground (arith, close_shards-ne-panic ss (close_shard sys s d).1)

  delete_index-ne-panic :
      (i : Index Db) (d : Disk) → all_open sys i.shards ≡ true → (delete_index sys i d).0 ≢ panic
  unfolding delete_index
  delete_index-ne-panic i d h = ground (arith, close_shards-ne-panic i.shards d h)

  dropped-IsOk :
      (deleted : Result (Unit {0})) (rest : ℕ → M Disk (List (Index Db) × ℕ)) (n : ℕ) (d : Disk)
      → deleted ≢ panic
      → ((k : ℕ) (x : Disk) → IsOk (rest k x).0)
      → IsOk (after_deletion sys deleted rest n d).0
  dropped-IsOk (ok _) rest n d h k = k (n + 1) d
  dropped-IsOk err rest n d h k = k n d
  dropped-IsOk panic rest n d h k = absurd (h refl)

  kept-IsOk :
      (i : Index Db) (r : Result (List (Index Db) × ℕ)) (d : Disk)
      → IsOk r
      → IsOk {A = List (Index Db) × ℕ} (and_then r (λ (rest, m). pure (i ∷ rest, m)) d).0
  kept-IsOk i (ok (js, n)) d h = tt
  kept-IsOk i err d h = absurd h
  kept-IsOk i panic d h = absurd h

  retained-IsOk :
      (period : ℕ) (is : List (Index Db)) (n : ℕ) (d : Disk)
      → All (λ i. all_open sys i.shards ≡ true) is
      → IsOk (retained sys period is n d).0
  unfolding retained
  retained-IsOk period [] n d h = tt
  retained-IsOk period (i ∷ is) n d (o, os) =
      let (t, d') = now d in
      let (deleted, d'') = delete_index sys i d' in
      elim (Bool-cases (expired i t period)) [
        | inl old ↦
            rw (old, retained)
              (dropped-IsOk deleted (λ k. retained sys period is k) n d''
                (delete_index-ne-panic i d' o) (λ k x. retained-IsOk period is k x os))
        | inr young ↦
            rw (young, retained)
              (kept-IsOk i (retained sys period is n d').0 (retained sys period is n d').1
                (retained-IsOk period is n d' os))
      ]

  IsOk-value : {A : Type 0} (r : Result A) → IsOk r → (a : A) × (r ≡ ok a)
  IsOk-value (ok a) h = (a, refl)
  IsOk-value err h = absurd h
  IsOk-value panic h = absurd h

  engine-IsOk :
      (e : Engine Db) (r : Result (List (Index Db) × ℕ)) (d : Disk)
      → IsOk r
      → IsOk {A = Engine Db}
          (and_then r (λ (js, n). pure (record e { indexes = js; deletions = n })) d).0
  engine-IsOk e (ok (js, n)) d h = tt
  engine-IsOk e err d h = absurd h
  engine-IsOk e panic d h = absurd h

  -- Retention enforcement returns, whatever the deletions do, if every shard of every index has a
  -- bleve index.
  pub enforce_retention-returns :
      (e : Engine Db) (d : Disk)
      → All (λ i. all_open sys i.shards ≡ true) e.indexes
      → (e' : Engine Db) × ((enforce_retention sys e d).0 ≡ ok e')
  unfolding enforce_retention
  enforce_retention-returns e d h =
      let (r, d') = retained sys e.retention_period e.indexes e.deletions d in
      IsOk-value _ (engine-IsOk e r d' (retained-IsOk e.retention_period e.indexes e.deletions d h))

-- ===== src/Engine/Enforcement.antt =====
-- engine.go: `runRetentionEnforcement`, the goroutine that `Open` starts and `Close` waits for. `others` is
-- what other goroutines do to the engine while it sleeps.
mod Tests
use ekanite.Prelude.{
  ℕ, suc, ◌+◌, ◌≡◌, refl, ap, subst, sym, true, false, List, [], ◌∷◌, All, Bool-cases, inl, inr,
  Bool, arith,
}
use ekanite.System.{System, Result, ok, err, panic, M, pure, and_then, ◌>>=◌}
use ekanite.Index.{Index, expired, delete_index}
use ekanite.Index.Create.{all_open}
use ekanite.Engine.{Engine, after_deletion, retained, enforce_retention}
use ekanite.Engine.Success.{enforce_retention-returns}

-- What the goroutine receives: the channel `done` is closed, or the interval is over.
pub data Wake : Type 0 where
  done interval : Wake

-- How it stands: its engine, and whether it has returned.
pub record Enforcer (Db : Type 0) : Type 0 where
  pub engine : Engine Db
  pub returned : Bool

module _ (sys : System) (others : Engine (sys.Db) → sys.Disk → Engine (sys.Db) × sys.Disk) where
  open sys use {Disk, Db}

  -- The loop over what it receives.
  unfoldable pub run_retention_enforcement : Engine Db → List Wake → M Disk (Enforcer Db)
  unfolding enforce_retention
  run_retention_enforcement e [] d = (ok (record { engine = e; returned = false }), d)
  run_retention_enforcement e (done ∷ ws) d = (ok (record { engine = e; returned = true }), d)
  run_retention_enforcement e (interval ∷ ws) d =
      let (e', d') = others e d in
      (enforce_retention sys e' >>= λ e''. run_retention_enforcement e'' ws) d'

  -- Every shard of every index has a bleve index.
  abbrev pub HasOpenShards : Engine Db → Type 0
  HasOpenShards e = All (λ i. all_open sys i.shards ≡ true) e.indexes

  abbrev KeepsOpen : Result (List (Index Db) × ℕ) → Type 0
  KeepsOpen (ok (is, n)) = All (λ i. all_open sys i.shards ≡ true) is
  KeepsOpen _ = Unit

  kept-KeepsOpen :
      (i : Index Db) (r : Result (List (Index Db) × ℕ)) (d : Disk)
      → all_open sys i.shards ≡ true
      → KeepsOpen r
      → KeepsOpen (and_then r (λ (rest, m). pure (i ∷ rest, m)) d).0
  kept-KeepsOpen i (ok (is, n)) d o h = (o, h)
  kept-KeepsOpen i err d o h = tt
  kept-KeepsOpen i panic d o h = tt

  dropped-KeepsOpen :
      (deleted : Result (Unit {0})) (rest : ℕ → M Disk (List (Index Db) × ℕ)) (n : ℕ) (d : Disk)
      → ((k : ℕ) (x : Disk) → KeepsOpen (rest k x).0)
      → KeepsOpen (after_deletion sys deleted rest n d).0
  dropped-KeepsOpen (ok _) rest n d h = h (n + 1) d
  dropped-KeepsOpen err rest n d h = h n d
  dropped-KeepsOpen panic rest n d h = tt

  retained-KeepsOpen :
      (period : ℕ) (is : List (Index Db)) (n : ℕ) (d : Disk)
      → All (λ i. all_open sys i.shards ≡ true) is
      → KeepsOpen (retained sys period is n d).0
  unfolding retained
  retained-KeepsOpen period [] n d h = tt
  retained-KeepsOpen period (i ∷ is) n d (o, os) =
      let (t, d') = sys.now d in
      let (deleted, d'') = delete_index sys i d' in
      elim (Bool-cases (expired i t period)) [
        | inl old ↦
            rw (old, retained)
              (dropped-KeepsOpen deleted (λ k. retained sys period is k) n d''
                (λ k x. retained-KeepsOpen period is k x os))
        | inr young ↦
            rw (young, retained)
              (kept-KeepsOpen i (retained sys period is n d').0 (retained sys period is n d').1 o
                (retained-KeepsOpen period is n d' os))
      ]

  abbrev IsOpenOk : Result (Engine Db) → Type 0
  IsOpenOk (ok e) = HasOpenShards e
  IsOpenOk _ = Unit

  settled :
      (e : Engine Db) (r : Result (List (Index Db) × ℕ)) (d : Disk)
      → KeepsOpen r
      → IsOpenOk (and_then r (λ (is, n). pure (record e { indexes = is; deletions = n })) d).0
  settled e (ok (is, n)) d h = h
  settled e err d h = tt
  settled e panic d h = tt

  enforced-HasOpenShards :
      (e e' : Engine Db) (d : Disk)
      → HasOpenShards e
      → (enforce_retention sys e d).0 ≡ ok e'
      → HasOpenShards e'
  unfolding enforce_retention
  enforced-HasOpenShards e e' d h k =
      let r = retained sys e.retention_period e.indexes e.deletions d in
      subst IsOpenOk k
        (settled e r.0 r.1 (retained-KeepsOpen e.retention_period e.indexes e.deletions d h))

  -- How often the interval is over in front of the first `done`, and whether there is one.
  unfoldable pub intervals : List Wake → ℕ × Bool
  intervals [] = (0, false)
  intervals (done ∷ ws) = (0, true)
  intervals (interval ∷ ws) = let (n, found) = intervals ws in (suc n, found)

  -- From an engine and a machine to others in `n` rounds, in each of which the others have their turn
  -- and the retention is enforced upon what they leave.
  pub data Enforces : ℕ → Engine Db → Disk → Engine Db → Disk → Type 0 where
    none : {e : Engine Db} {d : Disk} → Enforces 0 e d e d
    once :
        {n : ℕ} {e f : Engine Db} {d x : Disk} (e' : Engine Db)
        → enforce_retention sys (others e d).0 (others e d).1
          ≡ (ok e', (enforce_retention sys (others e d).0 (others e d).1).1)
        → Enforces n e' (enforce_retention sys (others e d).0 (others e d).1).1 f x
        → Enforces (suc n) e d f x

  -- The goroutine enforces the retention once for each interval in front of the first `done`, upon
  -- what others have made of the engine meanwhile, does nothing else, and returns at the `done`:
  -- whatever the deletions do, if every shard of every index has a bleve index and others leave it
  -- so. It leaves it so itself.
  pub run-Enforces :
      (e : Engine Db) (ws : List Wake) (d : Disk)
      → ((x : Engine Db) (y : Disk) → HasOpenShards x → HasOpenShards (others x y).0)
      → HasOpenShards e
      → (f : Enforcer Db) × (x : Disk) × (run_retention_enforcement e ws d ≡ (ok f, x))
        × Enforces (intervals ws).0 e d f.engine x
        × (f.returned ≡ (intervals ws).1)
        × HasOpenShards f.engine
  unfolding run_retention_enforcement intervals
  run-Enforces e [] d keeps h = (_, _, refl, Enforces.none, refl, h)
  run-Enforces e (done ∷ ws) d keeps h = (_, _, refl, Enforces.none, refl, h)
  run-Enforces e (interval ∷ ws) d keeps h =
      let (e', d') = others e d in
      let (e'', made) = enforce_retention-returns sys e' d' (keeps e d h) in
      let d'' = (enforce_retention sys e' d').1 in
      let all : enforce_retention sys e' d' ≡ (ok e'', d'') = ap (λ r. (r, d'')) made in
      let (f, x, ran, rounds, returned, opened) =
        run-Enforces e'' ws d'' keeps (enforced-HasOpenShards e' e'' d' (keeps e d h) made) in
      (f, x, rw (made) ran, Enforces.once e'' all rounds, returned, opened)

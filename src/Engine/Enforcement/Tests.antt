-- ===== src/Engine/Enforcement/Tests.antt =====
-- Two intervals and the end, on a machine whose clock stands at 37.
use ekanite.Prelude.{ℕ, ◌≡◌, refl, true, [], ◌∷◌}
use ekanite.System.{System, ok}
use ekanite.Index.{expired, delete_index, close_shards, close_shard}
use ekanite.Index.Create.{all_open}
use ekanite.Engine.{Engine, retained, enforce_retention}
use ekanite.Engine.Enforcement.{
  Enforcer, done, interval, run_retention_enforcement, intervals, HasOpenShards, Enforces,
  run-Enforces,
}
use ekanite.Engine.Tests.{machine, grown, slot, made}

program : Unit {0}
unfolding run_retention_enforcement intervals enforce_retention retained expired delete_index
    close_shards close_shard all_open
program = tt

abbrev stopped : System
stopped = record machine { now = λ d. (37, d) }

abbrev others : Engine (Unit {0}) → ℕ → Engine (Unit {0}) × ℕ
others e d = (e, d)

abbrev left : Enforcer (Unit {0})
left = record {
  engine = record grown { indexes = made ∷ slot 20 30 ∷ []; deletions = 1 };
  returned = true;
}

enforced :
    (run_retention_enforcement stopped others grown
      (interval ∷ interval ∷ done ∷ interval ∷ [])
      33).0
    ≡ ok left
unfolding program
enforced = refl

run-Enforces_example :
    (f : Enforcer (Unit {0})) × (x : ℕ) × (run_retention_enforcement stopped others grown
        (interval ∷ interval ∷ done ∷ interval ∷ [])
        33
      ≡ (ok f, x))
    × Enforces stopped others 2 grown 33 f.engine x
    × (f.returned ≡ true)
    × HasOpenShards stopped others f.engine
unfolding program
run-Enforces_example =
    run-Enforces stopped others grown (interval ∷ interval ∷ done ∷ interval ∷ []) 33 (λ x y h. h)
      (refl, (refl, (refl, tt)))

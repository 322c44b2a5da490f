-- ===== src/Engine/Closing.antt =====
-- engine.go: `Close` and `Total` of an `Engine`. The channel that stops the enforcement of retention is
-- the flag `done`, which is set when it is closed; the wait for that goroutine ends.
pub mod Totals
mod Tests
use ekanite.Prelude.{
  ℕ, ◌+◌, ◌%◌, ◌^◌, ◌≡◌, refl, Bool, true, false, List, [], ◌∷◌, Option, none, some, if◌then◌else◌,
  All, arith,
}
use ekanite.System.{System, Result, ok, err, panic, M, pure, and_then, ◌>>=◌, ◌>>◌}
use ekanite.Index.{Index, close_shard, close_shards, close_index}
use ekanite.Index.Documents.{Bleve, total}
use ekanite.Engine.{Engine}

-- The fields of an engine that `Open` and `Close` set; a channel that is closed twice is a panic.
pub record Running (Db : Type 0) : Type 0 where
  pub engine : Engine Db
  pub is_open : Bool
  pub done : Bool

module _ (sys : System) where
  open sys use {Disk, Db}

  -- The loop over the indexes stops at the first that does not close.
  unfoldable pub close_indexes : List (Index Db) → M Disk (Unit {0})
  unfolding close_shards
  close_indexes [] = pure tt
  close_indexes (i ∷ is) = do close_index sys i; close_indexes is

  abbrev close_done : Running Db → M Disk (Running Db)
  close_done e d =
      if e.done then (panic, d) else (ok (record e { done = true; is_open = false }), d)

  -- `Close`
  unfoldable pub close_engine : Running Db → M Disk (Running Db)
  unfolding close_indexes
  close_engine e =
      let closing : M Disk (Running Db) = (do close_indexes e.engine.indexes; close_done e) in
      if e.is_open then closing else pure e

-- `Total`: the sum of those of the indexes, in 64 bits, over the stores of their shards.
unfoldable pub total_of_indexes : {Store : Type 0} → Bleve Store → ℕ → List (List Store) → Option ℕ
unfolding total
total_of_indexes bleve sum [] = some sum
total_of_indexes bleve sum (i ∷ is) = elim (total bleve 0 i) [
  | none ↦ none
  | some n ↦ total_of_indexes bleve ((sum + n) % 2 ^ 64) is
]

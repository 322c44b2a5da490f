-- ===== src/Engine/Closing/Tests.antt =====
-- An engine that is closed, and one with more documents than 64 bits count.
use ekanite.Prelude.{ℕ, ◌≡◌, refl, true, false, [], ◌∷◌, none, some}
use ekanite.System.{ok, panic}
use ekanite.Index.{close_shard, close_shards}
use ekanite.Index.Documents.{Bleve, total}
use ekanite.Engine.Tests.{machine, grown}
use ekanite.Engine.Closing.{Running, close_indexes, close_engine, total_of_indexes}
use ekanite.Engine.Closing.Totals.{total_of_indexes-count}

program : Unit {0}
unfolding close_engine close_indexes close_shards close_shard total_of_indexes total
program = tt

abbrev running : Running (Unit {0})
running = record { engine = grown; is_open = true; done = false }

abbrev closed : Running (Unit {0})
closed = record { engine = grown; is_open = false; done = true }

closing : close_engine machine running 33 ≡ (ok closed, 33)
unfolding program
closing = refl

closing_twice : close_engine machine closed 33 ≡ (ok closed, 33)
unfolding program
closing_twice = refl

-- Opened again, an engine still has the channel that is closed.
reopened : (close_engine machine (record closed { is_open = true }) 33).0 ≡ panic
unfolding program
reopened = refl

abbrev counted : Bleve ℕ
counted = record {
  accepts = λ d. true;
  batch = λ s ds. some s;
  get_internal = λ s id. none;
  doc_count = λ s. some s;
}

total_of_indexes-count_example :
    total_of_indexes counted 0 ((9223372036854775808 ∷ 9223372036854775808 ∷ []) ∷ (5 ∷ []) ∷ [])
    ≡ some 5
unfolding program
total_of_indexes-count_example =
    total_of_indexes-count counted
      ((9223372036854775808 ∷ 9223372036854775808 ∷ []) ∷ (5 ∷ []) ∷ [])

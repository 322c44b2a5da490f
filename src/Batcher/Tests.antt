-- ===== src/Batcher/Tests.antt =====
-- A batcher of size 2 over an indexer that fails or not.
use ekanite.Prelude.{ℕ, ◌≡◌, refl, true, false, [], ◌∷◌, ◌++◌, arith, length, ◌≤◌}
use ekanite.Batcher.{
  Batcher, Loop, EventIndexer, start, sent, send, on_event, on_timeout, Run, begin, put, receive,
}
use ekanite.Batcher.Order.{delivered, Run-held}
use ekanite.Batcher.Size.{IsSound, start-IsSound}
use ekanite.Batcher.Stall.{failed_send-stalls}

abbrev pairs : Batcher
pairs = record { size = 2; max = 4; report = true }

-- The indexer's state says whether it fails.
abbrev healthy : EventIndexer ℕ ℕ
healthy w batch = (false, w)

abbrev broken : EventIndexer ℕ ℕ
broken w batch = (true, w)

program : Unit {0}
unfolding sent send on_event on_timeout
program = tt

abbrev queued : Loop ℕ ℕ
queued = record (start 0) { queue = 7 ∷ 8 ∷ 9 ∷ [] }

queued-Run : Run healthy pairs (start 0) (7 ∷ 8 ∷ 9 ∷ []) queued
queued-Run = put 9 (put 8 (put 7 begin (omega arith)) (omega arith)) (omega arith)

abbrev drained : Loop ℕ ℕ
unfolding program
drained =
    on_event healthy pairs 9
      (record (on_event healthy pairs 8
        (record (on_event healthy pairs 7 (record queued { queue = 8 ∷ 9 ∷ [] })) {
          queue = 9 ∷ [];
        })) { queue = [] })

drained-Run : Run healthy pairs (start 0) (7 ∷ 8 ∷ 9 ∷ []) drained
unfolding program
drained-Run = receive 9 [] (receive 8 (9 ∷ []) (receive 7 (8 ∷ 9 ∷ []) queued-Run refl) refl) refl

drained-calls : (delivered drained.calls ≡ 7 ∷ 8 ∷ []) × (drained.batch ≡ 9 ∷ [])
unfolding program
drained-calls = (refl, refl)

Run-held_example : delivered drained.calls ++ (drained.batch ++ drained.queue) ≡ 7 ∷ 8 ∷ 9 ∷ []
unfolding program
Run-held_example = Run-held healthy pairs 0 drained-Run

start-IsSound_example : IsSound healthy pairs drained
unfolding program
start-IsSound_example = start-IsSound healthy pairs 0 (λ w batch. refl) (omega arith) drained-Run

abbrev half : Loop ℕ ℕ
half = record (start 0) { batch = 7 ∷ []; timer = record { running = true; fired = false } }

abbrev stuck : Loop ℕ ℕ
unfolding program
stuck = on_event broken pairs 8 half

abbrev later : Loop ℕ ℕ
unfolding program
later = on_event broken pairs 9 stuck

later-Run : Run broken pairs (on_event broken pairs 8 half) (9 ∷ []) later
unfolding program
later-Run = receive 9 [] (put 9 begin (omega arith)) refl

failed_send-stalls_example :
    (later.calls ≡ record { events = 7 ∷ 8 ∷ []; failed = true } ∷ []) × (2 ≤ length later.batch)
unfolding program
failed_send-stalls_example =
    failed_send-stalls broken pairs 8 half (omega arith) refl refl refl later-Run

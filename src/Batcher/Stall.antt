-- ===== src/Batcher/Stall.antt =====
-- What an error of the indexer does to a `Batcher`.
use ekanite.Prelude.{
  ◌+◌, ◌≤◌, ◌<◌, ◌≡◌, refl, ◌∙◌, true, false, List, [], ◌∷◌, ◌++◌, length, length-append, arith,
}
use ekanite.Batcher.{
  Batcher, Loop, EventIndexer, sent, send, on_event, Run, begin, put, hand_over, receive, expire,
  timeout,
}

module _ {ℓ} {E W : Type ℓ} (index : EventIndexer E W) (b : Batcher) where
  -- The batch is full, and no timer will make the loop send it.
  pub record IsStalled (s : Loop E W) : Type 0 where
    pub full : b.size ≤ length s.batch
    pub stopped : s.timer.running ≡ false
    pub drained : s.timer.fired ≡ false

  on_event-IsStalled :
      (e : E) (s : Loop E W)
      → 0 < b.size
      → IsStalled s
      → IsStalled (on_event index b e s) × ((on_event index b e s).calls ≡ s.calls)
  unfolding on_event
  on_event-IsStalled e s pos h = ground (arith, length-append s.batch (e ∷ []))

  Run-IsStalled :
      {s t : Loop E W} {es : List E}
      → 0 < b.size
      → IsStalled s
      → Run index b s es t
      → IsStalled t × (t.calls ≡ s.calls)
  Run-IsStalled pos h begin = (h, refl)
  Run-IsStalled pos h (put e r c) =
      let (g, k) = Run-IsStalled pos h r in
      (record { full = g.full; stopped = g.stopped; drained = g.drained }, k)
  Run-IsStalled pos h (hand_over e r c) =
      let (g, k) = Run-IsStalled pos h r in
      let (g', k') = on_event-IsStalled e _ pos g in (g', k' ∙ k)
  Run-IsStalled pos h (receive {s = u} e q r c) =
      let (g, k) = Run-IsStalled pos h r in
      let v : Loop E W = record u { queue = q } in
      let g'' : IsStalled v = record { full = g.full; stopped = g.stopped; drained = g.drained } in
      let (g', k') = on_event-IsStalled e v pos g'' in (g', k' ∙ k)
  Run-IsStalled pos h (expire r c) = let (g, k) = Run-IsStalled pos h r in cc (g.stopped)
  Run-IsStalled pos h (timeout r c) = let (g, k) = Run-IsStalled pos h r in cc (g.drained)

  full_send-IsStalled :
      (e : E) (s : Loop E W)
      → length s.batch + 1 ≡ b.size
      → s.timer.fired ≡ false
      → (index s.indexer (s.batch ++ e ∷ [])).0 ≡ true
      → IsStalled (on_event index b e s)
        × ((on_event index b e s).calls
            ≡ s.calls ++ record { events = s.batch ++ e ∷ []; failed = true } ∷ [])
  unfolding on_event send sent
  full_send-IsStalled e s fills drained fails = ground (arith, length-append s.batch (e ∷ []))

  -- An event fills the batch, the indexer returns an error, and no value is left in the timer's
  -- channel: then the loop calls the indexer with the full batch, and never again, however many
  -- events arrive and however long it runs; the batch stays at or over its size.
  pub failed_send-stalls :
      (e : E) (s : Loop E W) {t : Loop E W} {es : List E}
      → 0 < b.size
      → length s.batch + 1 ≡ b.size
      → s.timer.fired ≡ false
      → (index s.indexer (s.batch ++ e ∷ [])).0 ≡ true
      → Run index b (on_event index b e s) es t
      → (t.calls ≡ s.calls ++ record { events = s.batch ++ e ∷ []; failed = true } ∷ [])
        × (b.size ≤ length t.batch)
  failed_send-stalls e s pos fills drained fails r =
      let (stalled, called) = full_send-IsStalled e s fills drained fails in
      let (still, same) = Run-IsStalled pos stalled r in (same ∙ called, still.full)

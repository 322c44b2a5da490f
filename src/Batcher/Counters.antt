-- ===== src/Batcher/Counters.antt =====
-- The `engine` statistics that the loop of a `Batcher` keeps.
use ekanite.Prelude.{
  ℕ, ◌+◌, ◌≡◌, refl, Bool, List, [], ◌∷◌, ◌++◌, if◌then◌else◌, length, length-append, arith,
  append-nil,
}
use ekanite.Batcher.{
  Batcher, Loop, Call, EventIndexer, start, sent, send, on_event, on_timeout, Run, begin, put,
  hand_over, receive, expire, timeout,
}
use ekanite.Batcher.Order.{delivered, delivered-append, on_event_ind}

module _ {ℓ} {E : Type ℓ} where
  abbrev pub failures : List (Call E) → ℕ
  failures [] = 0
  failures (c ∷ cs) = (if c.failed then 1 else 0) + failures cs

  failures-append : (xs ys : List (Call E)) → failures (xs ++ ys) ≡ failures xs + failures ys
  failures-append [] ys = omega arith
  failures-append (c ∷ xs) ys = omega (arith, failures-append xs ys)

module _ {ℓ} {E W : Type ℓ} (index : EventIndexer E W) (b : Batcher) where
  -- `batchIndexed`, `batchIndexedError` and `eventsIndexed` tell what the calls were.
  pub record IsCounted (s : Loop E W) : Type 0 where
    pub errors : s.stats.batch_indexed_error ≡ failures s.calls
    pub batches : s.stats.batch_indexed + s.stats.batch_indexed_error ≡ length s.calls
    pub events : s.stats.events_indexed ≡ length (delivered s.calls)
    pub reports : s.reports ≡ (if b.report then s.stats.batch_indexed else 0)

  sent-IsCounted :
      (s : Loop E W) (failed : Bool) (w : W) → IsCounted s → IsCounted (sent b s failed w)
  unfolding sent
  sent-IsCounted s failed w h =
      let c : Call E = record { events = s.batch; failed = failed } in
      ground (
        arith,
        failures-append s.calls (c ∷ []),
        length-append s.calls (c ∷ []),
        delivered-append s.calls (c ∷ []),
        length-append (delivered s.calls) (delivered (c ∷ [])),
        append-nil s.batch,
      )

  send-IsCounted : (s : Loop E W) → IsCounted s → IsCounted (send index b s)
  unfolding send
  send-IsCounted s h = let (failed, w) = index s.indexer s.batch in sent-IsCounted s failed w h

  recount :
      (s t : Loop E W)
      → IsCounted s
      → t.stats ≡ s.stats
      → t.calls ≡ s.calls
      → t.reports ≡ s.reports
      → IsCounted t
  recount s t h stats calls reports = record {
    errors = rw (stats, calls) h.errors;
    batches = rw (stats, calls) h.batches;
    events = rw (stats, calls) h.events;
    reports = rw (stats, reports) h.reports;
  }

  on_event-IsCounted : (e : E) (s : Loop E W) → IsCounted s → IsCounted (on_event index b e s)
  on_event-IsCounted e s h =
      on_event_ind index b IsCounted e s (λ _. recount s _ h refl refl refl)
        (λ _. send-IsCounted _ (recount s _ h refl refl refl))

  Run-IsCounted :
      {origin s : Loop E W} {es : List E} → IsCounted origin → Run index b origin es s → IsCounted s
  unfolding on_timeout
  Run-IsCounted h begin = h
  Run-IsCounted h (put {s} e r c) = recount s _ (Run-IsCounted h r) refl refl refl
  Run-IsCounted h (hand_over e r c) = on_event-IsCounted e _ (Run-IsCounted h r)
  Run-IsCounted h (receive {s} e q r c) =
      on_event-IsCounted e _ (recount s _ (Run-IsCounted h r) refl refl refl)
  Run-IsCounted h (expire {s} r c) = recount s _ (Run-IsCounted h r) refl refl refl
  Run-IsCounted h (timeout {s} r c) =
      let g = Run-IsCounted h r in
      send-IsCounted _
        (record { errors = g.errors; batches = g.batches; events = g.events; reports = g.reports })

  -- Whatever the indexer answers, `batchIndexedError` is the number of calls that returned an
  -- error, it and `batchIndexed` together are the number of calls, `eventsIndexed` is the number of
  -- events in the calls that returned none, and the error channel got one value for each of those
  -- calls if there is one, and none otherwise.
  pub start-IsCounted :
      (w : W) {s : Loop E W} {es : List E} → Run index b (start w) es s → IsCounted s
  start-IsCounted w r =
      Run-IsCounted
        (record { errors = refl; batches = omega arith; events = refl; reports = ground arith }) r

-- ===== src/Batcher/Size.antt =====
-- What a `Batcher` promises while its indexer returns no error.
use ekanite.Prelude.{
  ◌≤◌, ◌<◌, ◌≡◌, refl, true, false, List, [], ◌∷◌, ◌⊎◌, inl, inr, length, length-append, arith, All,
  All-append,
}
use ekanite.Batcher.{
  Batcher, Loop, Call, EventIndexer, start, added, sent, send, on_event, on_timeout, Run, begin,
  put, hand_over, receive, expire, timeout,
}
use ekanite.Batcher.Order.{on_event_ind}

module _ {ℓ} {E W : Type ℓ} (index : EventIndexer E W) (b : Batcher) where
  abbrev pub IsReliable : Type ℓ
  IsReliable = (w : W) (batch : List E) → (index w batch).0 ≡ false

  -- A batch of at most `size` events, taken with no error.
  abbrev pub IsFit : Call E → Type 0
  IsFit c = (length c.events ≤ b.size) × (c.failed ≡ false)

  -- The batch has room, and a batch that holds events has a timer that runs or has run out.
  pub record IsSound (s : Loop E W) : Type ℓ where
    pub room : length s.batch < b.size
    pub armed : (s.batch ≡ []) ⊎ (s.timer.running ≡ true) ⊎ (s.timer.fired ≡ true)
    pub fit : All IsFit s.calls

  sent-IsSound :
      (s : Loop E W) (w : W)
      → 0 < b.size
      → length s.batch ≤ b.size
      → All IsFit s.calls
      → IsSound (sent b s false w)
  unfolding sent
  sent-IsSound s w pos le fit = record {
    room = pos;
    armed = inl refl;
    fit = All-append IsFit s.calls _ fit ((le, refl), tt);
  }

  send-IsSound :
      (s : Loop E W)
      → IsReliable
      → 0 < b.size
      → length s.batch ≤ b.size
      → All IsFit s.calls
      → IsSound (send index b s)
  unfolding send
  send-IsSound s ok pos le fit = rw (ok s.indexer s.batch) (sent-IsSound s _ pos le fit)

  added-armed :
      (e : E) (s : Loop E W)
      → (s.batch ≡ []) ⊎ (s.timer.running ≡ true) ⊎ (s.timer.fired ≡ true)
      → ((added e s).timer.running ≡ true) ⊎ ((added e s).timer.fired ≡ true)
  added-armed e s h = ground (arith, length-append s.batch (e ∷ []))

  on_event-IsSound :
      (e : E) (s : Loop E W) → IsReliable → 0 < b.size → IsSound s → IsSound (on_event index b e s)
  on_event-IsSound e s ok pos h =
      let n = length-append s.batch (e ∷ []) in
      on_event_ind index b IsSound e s
        (λ more. record {
          room = ground (arith, n, h.room);
          armed = inr (added-armed e s h.armed);
          fit = h.fit;
        })
        (λ full. send-IsSound _ ok pos (omega (arith, n, h.room)) h.fit)

  Run-IsSound :
      {origin s : Loop E W} {es : List E}
      → IsReliable
      → 0 < b.size
      → IsSound origin
      → Run index b origin es s
      → IsSound s
  unfolding on_timeout
  Run-IsSound ok pos h begin = h
  Run-IsSound ok pos h (put e r c) =
      let g = Run-IsSound ok pos h r in record { room = g.room; armed = g.armed; fit = g.fit }
  Run-IsSound ok pos h (hand_over e r c) = on_event-IsSound e _ ok pos (Run-IsSound ok pos h r)
  Run-IsSound ok pos h (receive e q r c) =
      let g = Run-IsSound ok pos h r in
      on_event-IsSound e _ ok pos (record { room = g.room; armed = g.armed; fit = g.fit })
  Run-IsSound ok pos h (expire r c) =
      let g = Run-IsSound ok pos h r in
      record { room = g.room; armed = inr (inr refl); fit = g.fit }
  Run-IsSound ok pos h (timeout r c) =
      let g = Run-IsSound ok pos h r in send-IsSound _ ok pos (omega (arith, g.room)) g.fit

  -- While the indexer returns no error: every call got at most `size` events, the batch holds
  -- fewer than `size`, and a batch that holds an event has a timer that runs or has run out, so
  -- that no event waits for another one to come.
  pub start-IsSound :
      (w : W) {s : Loop E W} {es : List E}
      → IsReliable
      → 0 < b.size
      → Run index b (start w) es s
      → IsSound s
  start-IsSound w ok pos r =
      Run-IsSound ok pos (record { room = pos; armed = inl refl; fit = tt }) r

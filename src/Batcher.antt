-- ===== src/Batcher.antt =====
-- engine.go: `Batcher`, its loop in `Start`, and `EventIndexer`. A timer is one of Go 1.13: its
-- channel holds one value, and neither `Stop` nor `Reset` removes a value that is there.
pub mod Order
pub mod Size
pub mod Stall
pub mod Counters
mod Tests
use ekanite.Prelude.{
  ℕ, ◌+◌, ◌<◌, ◌≡◌, Bool, true, false, List, [], ◌∷◌, ◌++◌, ◌==◌, if◌then◌else◌, length,
}

-- `size` and the capacity `max` of the channel `c`. Time passes by steps, so `duration` has no
-- part; `report` says that `Start` was given an error channel.
pub record Batcher : Type 0 where
  pub size : ℕ
  pub max : ℕ
  pub report : Bool

-- `timer`: it runs, and its channel `C` holds a value.
pub record Timer : Type 0 where
  pub running : Bool
  pub fired : Bool

abbrev pub stop : Timer → Timer
stop t = record t { running = false }

abbrev pub reset : Timer → Timer
reset t = record t { running = true }

pub record Stats : Type 0 where
  pub batch_indexed_error : ℕ
  pub batch_indexed : ℕ
  pub events_indexed : ℕ
  pub batch_timeout : ℕ

-- What one call of the indexer got, and whether it returned an error.
pub record Call {ℓ} (E : Type ℓ) : Type ℓ where
  pub events : List E
  pub failed : Bool

-- The goroutine's variables, the channel's contents, and the trace of the indexer's calls.
pub record Loop {ℓ} (E W : Type ℓ) : Type ℓ where
  pub queue : List E
  pub batch : List E
  pub timer : Timer
  pub stats : Stats
  pub reports : ℕ
  pub indexer : W
  pub calls : List (Call E)

-- `Index` of an `EventIndexer` with state `W`: whether it returned an error.
abbrev pub EventIndexer {ℓ} : Type ℓ → Type ℓ → Type ℓ
EventIndexer E W = W → List E → Bool × W

module _ {ℓ} {E W : Type ℓ} where
  -- The state in which the goroutine enters its loop.
  abbrev pub start : W → Loop E W
  start w = record {
    queue = [];
    batch = [];
    timer = record { running = false; fired = false };
    stats = record {
      batch_indexed_error = 0;
      batch_indexed = 0;
      events_indexed = 0;
      batch_timeout = 0;
    };
    reports = 0;
    indexer = w;
    calls = [];
  }

  -- The event in the batch; the first one starts the timer.
  abbrev pub added : E → Loop E W → Loop E W
  added e s =
      let batch = s.batch ++ e ∷ [] in
      record s { batch = batch; timer = if length batch == 1 then reset s.timer else s.timer }

  -- The rest of `send` after the call: an early return on an error keeps the batch.
  sent : Batcher → Loop E W → Bool → W → Loop E W
  sent b s true w = record s {
    stats = record (s.stats) { batch_indexed_error = s.stats.batch_indexed_error + 1 };
    indexer = w;
    calls = s.calls ++ record { events = s.batch; failed = true } ∷ [];
  }
  sent b s false w = record s {
    batch = [];
    stats = record (s.stats) {
      batch_indexed = s.stats.batch_indexed + 1;
      events_indexed = s.stats.events_indexed + length s.batch;
    };
    reports = if b.report then s.reports + 1 else s.reports;
    indexer = w;
    calls = s.calls ++ record { events = s.batch; failed = false } ∷ [];
  }

  module _ (index : EventIndexer E W) (b : Batcher) where
    pub send : Loop E W → Loop E W
    unfolding sent
    send s = let (failed, w) = index s.indexer s.batch in sent b s failed w

    -- `case event := <-b.c`, for the event received.
    pub on_event : E → Loop E W → Loop E W
    on_event e s =
        let next = added e s in
        if length next.batch == b.size then send (record next { timer = stop next.timer }) else next

    -- `case <-timer.C`
    pub on_timeout : Loop E W → Loop E W
    on_timeout s = send (record s {
      timer = record (s.timer) { fired = false };
      stats = record (s.stats) { batch_timeout = s.stats.batch_timeout + 1 };
    })

    -- A sender puts an event in the channel (or hands it over, if that has no buffer), the timer
    -- runs out, or the loop receives. The first index holds what the senders have put since `origin`.
    pub data Run (origin : Loop E W) : List E → Loop E W → Type ℓ where
      begin : Run origin [] origin
      put :
          {es : List E} {s : Loop E W} (e : E)
          → Run origin es s
          → length s.queue < b.max
          → Run origin (es ++ e ∷ []) (record s { queue = s.queue ++ e ∷ [] })
      hand_over :
          {es : List E} {s : Loop E W} (e : E)
          → Run origin es s
          → b.max ≡ 0
          → Run origin (es ++ e ∷ []) (on_event e s)
      receive :
          {es : List E} {s : Loop E W} (e : E) (q : List E)
          → Run origin es s
          → s.queue ≡ e ∷ q
          → Run origin es (on_event e (record s { queue = q }))
      expire :
          {es : List E} {s : Loop E W}
          → Run origin es s
          → s.timer.running ≡ true
          → Run origin es (record s { timer = record { running = false; fired = true } })
      timeout :
          {es : List E} {s : Loop E W}
          → Run origin es s
          → s.timer.fired ≡ true
          → Run origin es (on_timeout s)

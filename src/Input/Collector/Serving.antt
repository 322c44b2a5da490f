-- ===== src/Input/Collector/Serving.antt =====
-- input/collector.go: `Start` of a `TCPCollector`, with the goroutines of its connections. They share
-- the channel and the sequence number, of which `elsewhere` has the values that other collectors took.
-- An event has its number before it is sent, and others may send in between. A goroutine that could
-- make no parser would panic, and end the process; `NewCollector` has made one of the same format.
pub mod Numbers
pub mod Alike
pub mod Order
mod Tests
use ekanite.Prelude.{ℕ, ◌≡◌, Bool, true, false, List, [], ◌∷◌, ◌++◌, Option, none, some, Bytes}
use ekanite.Input.Handler.{LogHandler, ok, new_parser}
use ekanite.Input.Event.{Event}
use ekanite.Input.Collector.{next_sequence}
use ekanite.Input.Collector.Tcp.{Read, Stats, Connection, new_connection, on_read}

-- The goroutine of a connection: an event that is made and not yet sent is `pending`; `history` has
-- the reads so far, and `handler` and `opening` the parser and the counters that it began with.
pub record Goroutine (Time : Type 0) : Type 0 where
  pub connection : Connection Time
  pub pending : List (Event Time)
  pub handler : LogHandler
  pub opening : Stats
  pub remote : Bytes
  pub history : List (Read × Time)

pub record Traffic (Time : Type 0) : Type 0 where
  pub goroutines : List (Goroutine Time)
  pub sequence : ℕ
  pub elsewhere : List ℕ
  pub channel : List (Event Time)

-- `net.Listen` or `tls.Listen`, with a nil configuration or another.
abbrev pub listen :
    {Tls Listener : Type 0}
    → (Bytes → Option Listener)
    → (Bytes → Tls → Option Listener)
    → Bytes
    → Option Tls
    → Option Listener
listen tcp tls iface none = tcp iface
listen tcp tls iface (some config) = tls iface config

module _ {Time : Type 0} (zero_time : Time) where
  abbrev pub begin : LogHandler → Stats → Bytes → Goroutine Time
  begin h stats remote = record {
    connection = new_connection zero_time h stats 0 remote;
    pending = [];
    handler = h;
    opening = stats;
    remote = remote;
    history = [];
  }

  abbrev pub empty : ℕ → Traffic Time
  empty n = record { goroutines = []; sequence = n; elsewhere = []; channel = [] }

  -- A connection before its next read, where the number is `n`: what it sends is empty.
  abbrev pub at_number : ℕ → Connection Time → Connection Time
  at_number n c = record c { sequence = n; sent = [] }

  -- A read, up to the send of its event.
  unfoldable pub after_read : ℕ → Goroutine Time → Time → Read → ℕ × Goroutine Time
  unfolding on_read
  after_read n g now r =
      let c = on_read zero_time (at_number n g.connection) now r in
      (
        c.sequence,
        record g {
          connection = record c { sent = g.connection.sent ++ c.sent };
          pending = c.sent;
          history = g.history ++ (r, now) ∷ [];
        },
      )

  -- What the goroutines do, from `n` on. The loop that accepts goes on where `Accept` fails.
  pub data Serves (format : Bytes) (n : ℕ) : Traffic Time → Type 0 where
    start : Serves format n (empty n)
    accept_fails : {w : Traffic Time} → Serves format n w → Serves format n w
    accept :
        {w : Traffic Time} {h : LogHandler} (stats : Stats) (remote : Bytes)
        → Serves format n w
        → new_parser format ≡ ok h
        → Serves format n (record w { goroutines = begin h stats remote ∷ w.goroutines })
    read :
        {w : Traffic Time} (before : List (Goroutine Time)) (g : Goroutine Time)
        (after : List (Goroutine Time)) (now : Time) (r : Read)
        → Serves format n w
        → w.goroutines ≡ before ++ g ∷ after
        → g.connection.closed ≡ false
        → g.pending ≡ []
        → Serves format n (record w {
          goroutines = before ++ (after_read w.sequence g now r).1 ∷ after;
          sequence = (after_read w.sequence g now r).0;
        })
    send :
        {w : Traffic Time} (before : List (Goroutine Time)) (g : Goroutine Time)
        (after : List (Goroutine Time)) (e : Event Time)
        → Serves format n w
        → w.goroutines ≡ before ++ g ∷ after
        → g.pending ≡ e ∷ []
        → Serves format n (record w {
          goroutines = before ++ record g { pending = [] } ∷ after;
          channel = w.channel ++ e ∷ [];
        })
    take_elsewhere :
        {w : Traffic Time}
        → Serves format n w
        → Serves format n (record w {
          sequence = next_sequence w.sequence;
          elsewhere = next_sequence w.sequence ∷ w.elsewhere;
        })

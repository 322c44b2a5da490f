-- ===== src/Input/Collector/Tcp.antt =====
-- input/collector.go: `handleConnection` of a `TCPCollector`.
pub mod Messages
use ekanite.Prelude.{
  ℕ, ◌+◌, ◌-◌, Bool, true, false, List, [], ◌∷◌, ◌++◌, Option, none, some, Bytes, if◌then◌else◌,
}
use ekanite.Input.Handler.{LogHandler, Outcome, ok, error, panic, new_parser, parse}
use ekanite.Input.Event.{Event}
use ekanite.Input.Syslog.{SyslogDelimiter, new_syslog_delimiter, push, vestige}
use ekanite.Input.Collector.{next_sequence}

-- What `ReadByte` gives: a byte, a timeout, the end of the stream, or another error.
pub data Read : Type 0 where
  byte : ℕ → Read
  timeout eof failed : Read

-- The counters of the package's map of statistics that a connection changes.
pub record Stats : Type 0 where
  pub read_error : ℕ
  pub read_timeout : ℕ
  pub read_eof : ℕ
  pub unrecover_error : ℕ
  pub bytes_read : ℕ
  pub events_rx : ℕ

-- A connection; `sequence` is the package's number, and `closed` that the handler has returned.
pub record Connection (Time : Type 0) : Type 0 where
  pub parser : LogHandler
  pub delimiter : SyslogDelimiter
  pub stats : Stats
  pub sequence : ℕ
  pub remote : Bytes
  pub sent : List (Event Time)
  pub closed : Bool

module _ {Time : Type 0} (zero_time : Time) where
  abbrev pub event : LogHandler → Bytes → ℕ → Bytes → Time → Event Time
  event h text n ip now = record {
    text = text;
    parsed = some h.result;
    reception_time = now;
    sequence = n;
    source_ip = ip;
    reference = zero_time;
  }

  -- The event of a line that parses goes to the channel, at the end of `sent`.
  abbrev pub to_channel : Connection Time → Time → LogHandler × Bool → Connection Time
  to_channel c now (h, false) = record c { parser = h }
  to_channel c now (h, true) =
      let n = next_sequence c.sequence in
      record c { parser = h; sequence = n; sent = c.sent ++ event h h.raw n c.remote now ∷ [] }

  -- The part for a log line that is available.
  abbrev pub deliver : Connection Time → Time → Bytes → Connection Time
  deliver c now log =
      to_channel (record c { stats = record c.stats { events_rx = c.stats.events_rx + 1 } }) now
        (parse c.parser log)

  -- What a read leaves, with the log line that it made available.
  abbrev pub available : Connection Time → Time → SyslogDelimiter × Option Bytes → Connection Time
  available c now (d, none) = record c { delimiter = d }
  available c now (d, some log) = deliver (record c { delimiter = d }) now log

  abbrev pub count : (Stats → Stats) → Connection Time → Connection Time
  count f c = record c { stats = f c.stats }

  abbrev close : Connection Time → Connection Time
  close c = record c { closed = true }

  -- The body of the loop.
  unfoldable pub on_read : Connection Time → Time → Read → Connection Time
  unfolding parse push vestige
  on_read c now (byte b) =
      available (count (λ s. record s { bytes_read = s.bytes_read + 1 }) c) now (push c.delimiter b)
  on_read c now timeout =
      available
        (count (λ s. record s { read_error = s.read_error + 1; read_timeout = s.read_timeout + 1 })
          c)
        now (vestige c.delimiter)
  on_read c now eof = close (
      available
        (count (λ s. record s { read_error = s.read_error + 1; read_eof = s.read_eof + 1 }) c) now
        (vestige c.delimiter))
  on_read c now failed = close (
      count
        (λ s. record s { read_error = s.read_error + 1; unrecover_error = s.unrecover_error + 1 })
        c)

  -- The loop, over the reads and the times at which they end.
  unfoldable pub reads : Connection Time → List (Read × Time) → Connection Time
  unfolding on_read
  reads c [] = c
  reads c ((r, now) ∷ rs) = let rest = reads (on_read c now r) rs in if c.closed then c else rest

  abbrev pub new_connection : LogHandler → Stats → ℕ → Bytes → Connection Time
  new_connection h stats n remote = record {
    parser = h;
    delimiter = new_syslog_delimiter;
    stats = stats;
    sequence = n;
    remote = remote;
    sent = [];
    closed = false;
  }

  abbrev begin : Stats → ℕ → Bytes → Outcome LogHandler → Outcome (Connection Time)
  begin stats n remote (ok h) = ok (new_connection h stats n remote)
  begin stats n remote (error e) = panic
  begin stats n remote panic = panic

  abbrev then_reads : List (Read × Time) → Outcome (Connection Time) → Outcome (Connection Time)
  then_reads rs (ok c) = ok (reads c rs)
  then_reads rs (error e) = error e
  then_reads rs panic = panic

  -- `handleConnection`; its counter of open connections goes up and down again.
  unfoldable pub handle_connection :
      Bytes → Stats → ℕ → Bytes → List (Read × Time) → Outcome (Connection Time)
  unfolding new_parser reads
  handle_connection format stats n remote rs =
      then_reads rs (begin stats n remote (new_parser format))

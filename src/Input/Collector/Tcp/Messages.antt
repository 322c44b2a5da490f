-- ===== src/Input/Collector/Tcp/Messages.antt =====
-- The messages that a connection of input/collector.go sends.
use ekanite.Prelude.{◌≡◌, Bool, true, false, List, [], ◌∷◌, ◌++◌, map, Option, none, some, Bytes}
use ekanite.Input.Syslog.{SyslogDelimiter, push, vestige}
use ekanite.Input.Collector.Numbers.{numbered, view}
use ekanite.Input.Collector.Tcp.{Read, byte, timeout, eof, failed, Connection, reads}

abbrev pub to_list {ℓ} : {A : Type ℓ} → Option A → List A
to_list none = []
to_list (some x) = x ∷ []

-- The log lines of what is read: those that the delimiter cuts off, and what it gives up at each
-- timeout and at the end of the stream, but not at another error.
unfoldable pub lines_from : SyslogDelimiter → List Read → List Bytes
unfolding push vestige
lines_from d [] = []
lines_from d (byte b ∷ rs) = to_list (push d b).1 ++ lines_from (push d b).0 rs
lines_from d (timeout ∷ rs) = to_list (vestige d).1 ++ lines_from (vestige d).0 rs
lines_from d (eof ∷ rs) = to_list (vestige d).1
lines_from d (failed ∷ rs) = []

-- Whether the stream ends or fails.
unfoldable pub ends : List Read → Bool
ends [] = false
ends (byte b ∷ rs) = ends rs
ends (timeout ∷ rs) = ends rs
ends (eof ∷ rs) = true
ends (failed ∷ rs) = true

module _ {Time : Type 0} (zero_time : Time) where
  -- From `c` to `c'`, the lines are sent.
  record Sends (c c' : Connection Time) (lines : List Bytes) : Type 0 where
    parser : c'.parser.parser ≡ c.parser.parser
    closed : c'.closed ≡ c.closed
    delimiter : c'.delimiter ≡ c.delimiter
    said :
        (ms : List Bytes)
        → map view c'.sent ++ numbered c.parser.parser c'.sequence ms
          ≡ map view c.sent ++ numbered c.parser.parser c.sequence (lines ++ ms)

  -- After the reads: all lines are sent, and the connection is closed or not.
  pub record Finished (c c' : Connection Time) (closing : Bool) (lines : List Bytes) : Type 0 where
    pub closed : c'.closed ≡ closing
    pub said : map view c'.sent ≡ map view c.sent ++ numbered c.parser.parser c.sequence lines

  abbrev kinds : List (Read × Time) → List Read
  kinds = map (λ r. r.0)

  -- What is read from an open connection sends its lines.
  abbrev Reads : List (Read × Time) → Type 0
  Reads rs =
      (c : Connection Time)
      → c.closed ≡ false
      → Finished c (reads zero_time c rs) (ends (kinds rs)) (lines_from c.delimiter (kinds rs))

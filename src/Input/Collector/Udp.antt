-- ===== src/Input/Collector/Udp.antt =====
-- input/collector.go: the loop of a `UDPCollector`.
pub mod Sizes
use ekanite.Prelude.{
  ℕ, ◌+◌, Bool, true, false, List, [], ◌∷◌, ◌++◌, Option, none, some, Bytes, take, length,
  if◌then◌else◌,
}
use ekanite.Strings.{is_crlf, trim}
use ekanite.Input.Handler.{LogHandler, parse}
use ekanite.Input.Event.{Event}
use ekanite.Input.Collector.{next_sequence}

abbrev pub msg_buf_size : ℕ
msg_buf_size = 256

-- What `ReadFromUDP` gives: the packet, cut to the size of the buffer, and its sender, or an error with
-- a number of bytes.
pub data Received : Type 0 where
  packet : (contents addr : Bytes) → Received
  failed : ℕ → Received

pub record Socket (Time : Type 0) : Type 0 where
  pub parser : LogHandler
  pub sequence : ℕ
  pub bytes_read : ℕ
  pub events_rx : ℕ
  pub sent : List (Event Time)

module _ {Time : Type 0} (zero_time : Time) where
  -- The event of a line that parses goes to the channel, at the end of `sent`.
  abbrev pub to_channel : Socket Time → Time → Bytes → Bytes → LogHandler × Bool → Socket Time
  to_channel s now addr log (h, false) = record s { parser = h }
  to_channel s now addr log (h, true) =
      let n = next_sequence s.sequence in
      record s {
        parser = h;
        sequence = n;
        sent =
            s.sent
            ++ record {
              text = log;
              parsed = some h.result;
              reception_time = now;
              sequence = n;
              source_ip = addr;
              reference = zero_time;
            }
              ∷ [];
      }

  -- The body of the loop; `contents` is `buf[:n]`.
  unfoldable pub on_packet : Socket Time → Time → Received → Socket Time
  unfolding parse trim
  on_packet s now (failed n) = record s { bytes_read = s.bytes_read + n }
  on_packet s now (packet contents addr) =
      let buf = take msg_buf_size contents in
      let log = trim is_crlf buf in
      let s' =
        to_channel (record s { bytes_read = s.bytes_read + length buf }) now addr log
          (parse s.parser log) in
      record s' { events_rx = s'.events_rx + 1 }

  unfoldable pub packets : Socket Time → List (Received × Time) → Socket Time
  unfolding on_packet
  packets s [] = s
  packets s ((p, now) ∷ ps) = packets (on_packet s now p) ps

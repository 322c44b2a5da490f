-- ===== src/Input/Collector/Tests.antt =====
-- Connections and packets with messages of input/parser_test.go.
use ekanite.Prelude.{
  ℕ, ◌-◌, ◌^◌, ◌≡◌, ◌≤◌, refl, List, [], ◌∷◌, ◌++◌, map, Option, none, some, Bytes, codes, length,
  All, ◌==◌, if◌then◌else◌, equal,
}
use ekanite.Strings.{is_digit, atoi, trim_right, trim_left}
use ekanite.Parser.{Fields, int, string, lookup}
use ekanite.Input.Syslog.{push_all}
use ekanite.Input.Handler.{LogHandler, ok, rfc5424, new_parser, parse, rfc5424_standard}
use ekanite.Input.Handler.Types.{schema, schema_of, parse-schema}
use ekanite.Input.Event.{Event, reference_time, or_reception, reference_time-parse}
use ekanite.Input.Collector.{new_collector}
use ekanite.Input.Collector.Numbers.{numbered, view}
use ekanite.Input.Collector.Tcp.{Read, byte, timeout, eof, Stats, handle_connection}
use ekanite.Input.Collector.Tcp.Messages.{lines_from, ends}
use ekanite.Input.Collector.Udp.{Received, Socket, packets}
use ekanite.Input.Collector.Udp.Sizes

program : Unit {0}
unfolding new_collector handle_connection packets numbered push_all reference_time new_parser parse
    lines_from ends is_digit atoi trim_right trim_left
program = tt

abbrev handler : LogHandler
handler = record { fmt = rfc5424_standard; raw = []; result = []; parser = rfc5424 }

abbrev line : Bytes
line = codes "<1>1 t h a - - m"

abbrev fields : Fields
fields =
    (codes "priority", int 1)
    ∷ (codes "version", int 1)
    ∷ (codes "timestamp", string (codes "t"))
    ∷ (codes "host", string (codes "h"))
    ∷ (codes "app", string (codes "a"))
    ∷ (codes "pid", int 0)
    ∷ (codes "message_id", string (codes "-"))
    ∷ (codes "message", string (codes "m"))
    ∷ []

-- Bytes that all arrive at one time.
abbrev at : ℕ → Bytes → List (Read × ℕ)
at n = map (λ b. (byte b, n))

abbrev zero_stats : Stats
zero_stats = record {
  read_error = 0;
  read_timeout = 0;
  read_eof = 0;
  unrecover_error = 0;
  bytes_read = 0;
  events_rx = 0;
}

-- A line with junk in front, a pause, a line that does not parse, and a line that the end cuts off.
abbrev stream : List (Read × ℕ)
stream =
    at 0 (codes "x<1>1 t h a - - m")
    ++ (timeout, 1) ∷ at 2 (codes "\n<2>bad\n<1>1 t h a - - m")
    ++ (eof, 3) ∷ []

abbrev incoming : List (Received × ℕ)
incoming =
    (Received.packet (line ++ codes "\r\n") (codes "ip"), 1)
    ∷ (Received.failed 0, 2)
    ∷ (Received.packet (codes "junk") (codes "ip"), 3)
    ∷ (Received.packet line (codes "ip"), 4)
    ∷ []

abbrev socket : Socket ℕ
socket = record {
  parser = handler;
  sequence = 2 ^ 64 - 1;
  bytes_read = 0;
  events_rx = 0;
  sent = [];
}

packets-numbered_example :
    (map view (packets 0 socket incoming).sent ≡ (line, fields, 0) ∷ (line, fields, 1) ∷ [])
    × All (λ e. length e.text ≤ 256) (packets 0 socket incoming).sent
unfolding program
packets-numbered_example = Sizes.packets-numbered 0 handler (2 ^ 64 - 1) incoming

abbrev no_tls : Option (Unit {0})
no_tls = none

abbrev event : Event ℕ
event = record {
  text = line;
  parsed = some fields;
  reception_time = 30;
  sequence = 1;
  source_ip = codes "ip";
  reference = 0;
}

abbrev same_text : Bytes → Option ℕ
same_text s = if equal s (codes "t") then some 20 else none

reference_time-parse_example :
    (ts : Bytes) × (t : ℕ) × (lookup (codes "timestamp") fields ≡ some (string ts))
    × (t ≡ or_reception event (same_text ts))
    × (reference_time (λ n. n == 0) same_text event ≡ ok (record event { reference = t }, t))
    × (reference_time (λ n. n == 0) same_text (record event { reference = t })
        ≡ ok (record event { reference = t }, t))
unfolding program
reference_time-parse_example =
    reference_time-parse (λ n. n == 0) same_text handler line event refl refl

parse-schema_example : schema (parse handler line).0.result ≡ schema_of rfc5424
unfolding program
parse-schema_example = parse-schema handler line

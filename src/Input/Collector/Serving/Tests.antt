-- ===== src/Input/Collector/Serving/Tests.antt =====
-- A run in which one connection reads a line to its end, while another collector takes a number.
use ekanite.Prelude.{
  ℕ, ◌≡◌, refl, Bool, true, false, List, [], ◌∷◌, ◌++◌, map, some, Bytes, codes, All, ◌&&◌, arith,
}
use ekanite.Parser.{Fields, int, string, lookup}
use ekanite.Strings.{is_digit, atoi, trim_right}
use ekanite.Input.Handler.{LogHandler, rfc5424, rfc5424_standard, parse, new_parser}
use ekanite.Input.Event.{Event}
use ekanite.Input.Syslog.{push, vestige}
use ekanite.Input.Collector.Tcp.{Read, Stats, on_read}
use ekanite.Input.Collector.Serving.{Goroutine, Traffic, begin, empty, after_read, Serves}
use ekanite.Input.Collector.Serving.Numbers.{IsNumbered, Serves-IsNumbered}
use ekanite.Input.Collector.Serving.Order.{IsOwn, Serves-IsOwn}

abbrev format : Bytes
format = codes "syslog"

abbrev handler : LogHandler
handler = record { fmt = rfc5424_standard; raw = []; result = []; parser = rfc5424 }

abbrev zero_stats : Stats
zero_stats = record {
  read_error = 0;
  read_timeout = 0;
  read_eof = 0;
  unrecover_error = 0;
  bytes_read = 0;
  events_rx = 0;
}

abbrev one : ℕ → Goroutine ℕ → Traffic ℕ
one n g = record { goroutines = g ∷ []; sequence = n; elsewhere = 8 ∷ []; channel = [] }

-- The goroutine may read.
abbrev is_idle : Goroutine ℕ → Bool
is_idle g = elim (g.connection.closed) [
  | true ↦ false
  | false ↦ elim (g.pending) [ [] ↦ true | e ∷ es ↦ false ]
]

-- The reads, one after the other, and whether the goroutine may do each of them.
unfoldable feed : ℕ → Goroutine ℕ → List Read → ℕ × Goroutine ℕ
feed n g [] = (n, g)
feed n g (r ∷ rs) = let (m, g') = after_read 0 n g 5 r in feed m g' rs

unfoldable quiet : ℕ → Goroutine ℕ → List Read → Bool
quiet n g [] = true
quiet n g (r ∷ rs) = let (m, g') = after_read 0 n g 5 r in is_idle g && quiet m g' rs

idle : (g : Goroutine ℕ) → is_idle g ≡ true → (g.connection.closed ≡ false) × (g.pending ≡ [])
idle g h = ground arith

fed :
    (rs : List Read) (n : ℕ) (g : Goroutine ℕ)
    → Serves 0 format 7 (one n g)
    → quiet n g rs ≡ true
    → Serves 0 format 7 (one (feed n g rs).0 (feed n g rs).1)
unfolding feed quiet
fed [] n g s h = s
fed (r ∷ rs) n g s h =
    let (m, g') = after_read 0 n g 5 r in
    let (now, later) : (is_idle g ≡ true) × (quiet m g' rs ≡ true) = ground arith in
    let (opened, empty) = idle g now in
    fed rs m g' (Serves.read [] g [] 5 r s refl opened empty) later

accepted : Serves 0 format 7 (one 8 (begin 0 handler zero_stats (codes "ip")))
unfolding new_parser
accepted = Serves.accept zero_stats (codes "ip") (Serves.take_elsewhere Serves.start) refl

abbrev stream : List Read
stream = map Read.byte (codes "<1>1 t h a - - m") ++ Read.eof ∷ []

abbrev read_all : ℕ × Goroutine ℕ
read_all = feed 8 (begin 0 handler zero_stats (codes "ip")) stream

reading : Unit {0}
unfolding feed quiet after_read on_read parse push vestige is_digit atoi lookup trim_right
reading = tt

abbrev fields : Fields
fields =
    (codes "priority", int 1)
    ∷ (codes "version", int 1)
    ∷ (codes "timestamp", string (codes "t"))
    ∷ (codes "host", string (codes "h"))
    ∷ (codes "app", string (codes "a"))
    ∷ (codes "pid", int 0)
    ∷ (codes "message_id", string (codes "-"))
    ∷ (codes "message", string (codes "m"))
    ∷ []

abbrev sent_event : Event ℕ
sent_event = record {
  text = codes "<1>1 t h a - - m";
  parsed = some fields;
  reception_time = 5;
  sequence = 9;
  source_ip = codes "ip";
  reference = 0;
}

all_read : Serves 0 format 7 (one read_all.0 read_all.1)
unfolding reading
all_read = fed stream 8 (begin 0 handler zero_stats (codes "ip")) accepted refl

waits : read_all.1.pending ≡ sent_event ∷ []
unfolding reading
waits = refl

abbrev finished : Traffic ℕ
finished = record {
  goroutines = record (read_all.1) { pending = [] } ∷ [];
  sequence = read_all.0;
  elsewhere = 8 ∷ [];
  channel = sent_event ∷ [];
}

all_sent : Serves 0 format 7 finished
all_sent = Serves.send [] read_all.1 [] sent_event all_read refl waits

Serves-IsNumbered_example : IsNumbered 0 7 finished
Serves-IsNumbered_example = Serves-IsNumbered 0 format 7 finished all_sent

Serves-IsOwn_example : All (IsOwn 0 (sent_event ∷ [])) finished.goroutines
Serves-IsOwn_example = Serves-IsOwn 0 format 7 finished all_sent

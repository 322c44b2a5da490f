-- ===== src/Input/Collector/Serving/Alike.antt =====
-- Connections that differ in their counters and numbers only, and what a read does to both.
use ekanite.Prelude.{
  ◌+◌, ◌≡◌, refl, sym, ap, ap₂, subst, ◌∙◌, Bool, true, false, List, [], ◌∷◌, ◌++◌, append_assoc,
  map, Option, none, some, Bytes,
}
use ekanite.Parser.{Fields}
use ekanite.Input.Handler.{LogHandler, parse}
use ekanite.Input.Event.{Event}
use ekanite.Input.Syslog.{SyslogDelimiter, push, vestige}
use ekanite.Input.Collector.{next_sequence}
use ekanite.Input.Collector.Tcp.{
  Read, byte, timeout, eof, failed, Stats, Connection, to_channel, available, deliver, count,
  on_read,
}

module _ {Time : Type 0} (zero_time : Time) where
  -- An event but for its number and its times.
  abbrev pub said : Event Time → Bytes × Option Fields × Bytes
  said e = (e.text, e.parsed, e.source_ip)

  abbrev pub all_said : List (Event Time) → List (Bytes × Option Fields × Bytes)
  all_said = map said

  all_said-snoc :
      (es : List (Event Time)) (e : Event Time)
      → all_said (es ++ e ∷ []) ≡ all_said es ++ said e ∷ []
  all_said-snoc [] e = refl
  all_said-snoc (x ∷ es) e = ap (◌∷◌ (said x)) (all_said-snoc es e)

  -- Two connections that are alike but for the counters and the numbers.
  pub record IsAlike (c c' : Connection Time) : Type 0 where
    pub parser : c.parser ≡ c'.parser
    pub delimiter : c.delimiter ≡ c'.delimiter
    pub remote : c.remote ≡ c'.remote
    pub closed : c.closed ≡ c'.closed
    pub sent : all_said c.sent ≡ all_said c'.sent

  to_channel-IsAlike :
      (c c' : Connection Time) (now : Time) (p : LogHandler × Bool)
      → IsAlike c c'
      → IsAlike (to_channel zero_time c now p) (to_channel zero_time c' now p)
  to_channel-IsAlike c c' now (h, false) a = record {
    parser = refl;
    delimiter = a.delimiter;
    remote = a.remote;
    closed = a.closed;
    sent = a.sent;
  }
  to_channel-IsAlike c c' now (h, true) a = record {
    parser = refl;
    delimiter = a.delimiter;
    remote = a.remote;
    closed = a.closed;
    sent =
        all_said-snoc c.sent _
        ∙ ap₂ (λ l ip. l ++ (h.raw, some h.result, ip) ∷ []) a.sent a.remote
        ∙ sym (all_said-snoc c'.sent _);
  }

  counted-IsAlike :
      (c c' : Connection Time) {s s' : Stats}
      → IsAlike c c'
      → IsAlike (record c { stats = s }) (record c' { stats = s' })
  counted-IsAlike c c' a = record {
    parser = a.parser;
    delimiter = a.delimiter;
    remote = a.remote;
    closed = a.closed;
    sent = a.sent;
  }

  available-IsAlike :
      (c c' : Connection Time) (now : Time) (p : SyslogDelimiter × Option Bytes)
      → IsAlike c c'
      → IsAlike (available zero_time c now p) (available zero_time c' now p)
  available-IsAlike c c' now (d, none) a = record {
    parser = a.parser;
    delimiter = refl;
    remote = a.remote;
    closed = a.closed;
    sent = a.sent;
  }
  available-IsAlike c c' now (d, some log) a =
      let counted = λ (x : Connection Time). record x {
        delimiter = d;
        stats = record x.stats { events_rx = x.stats.events_rx + 1 };
      } in
      let same : IsAlike (counted c) (counted c') = record {
        parser = a.parser;
        delimiter = refl;
        remote = a.remote;
        closed = a.closed;
        sent = a.sent;
      } in
      subst
        (λ h.
          IsAlike (deliver zero_time (record c { delimiter = d }) now log)
            (to_channel zero_time (counted c') now (parse h log)))
        a.parser (to_channel-IsAlike (counted c) (counted c') now (parse c.parser log) same)

  -- Where the delimiters give the same.
  given-IsAlike :
      (step : SyslogDelimiter → SyslogDelimiter × Option Bytes) (c c' : Connection Time)
      (d : SyslogDelimiter) (now : Time)
      → IsAlike c c'
      → d ≡ c.delimiter
      → IsAlike
          (available zero_time c now (step d))
          (available zero_time c' now (step c'.delimiter))
  given-IsAlike step c c' d now a e =
      subst
        (λ x. IsAlike (available zero_time c now (step d)) (available zero_time c' now (step x)))
        (e ∙ a.delimiter) (available-IsAlike c c' now (step d) a)

  closed-IsAlike :
      (c c' : Connection Time)
      → IsAlike c c'
      → IsAlike (record c { closed = true }) (record c' { closed = true })
  closed-IsAlike c c' a = record {
    parser = a.parser;
    delimiter = a.delimiter;
    remote = a.remote;
    closed = refl;
    sent = a.sent;
  }

  pub on_read-IsAlike :
      (c c' : Connection Time) (now : Time) (r : Read)
      → IsAlike c c'
      → IsAlike (on_read zero_time c now r) (on_read zero_time c' now r)
  unfolding on_read
  on_read-IsAlike c c' now (byte b) a =
      let f = λ (x : Connection Time).
        count zero_time (λ s. record s { bytes_read = s.bytes_read + 1 }) x in
      given-IsAlike (λ d. push d b) (f c) (f c') c.delimiter now (counted-IsAlike c c' a) refl
  on_read-IsAlike c c' now timeout a =
      let f = λ (x : Connection Time).
        count zero_time
          (λ s. record s { read_error = s.read_error + 1; read_timeout = s.read_timeout + 1 }) x in
      given-IsAlike vestige (f c) (f c') c.delimiter now (counted-IsAlike c c' a) refl
  on_read-IsAlike c c' now eof a =
      let f = λ (x : Connection Time).
        count zero_time (λ s. record s { read_error = s.read_error + 1; read_eof = s.read_eof + 1 })
          x in
      closed-IsAlike _ _
        (given-IsAlike vestige (f c) (f c') c.delimiter now (counted-IsAlike c c' a) refl)
  on_read-IsAlike c c' now failed a = closed-IsAlike _ _ (counted-IsAlike c c' a)

  -- With or without what was sent before, a read sends the same.
  abbrev pub behind : List (Event Time) → Connection Time → Connection Time
  behind es c = record c { sent = es ++ c.sent }

  to_channel-behind :
      (es : List (Event Time)) (c : Connection Time) (now : Time) (p : LogHandler × Bool)
      → to_channel zero_time (behind es c) now p ≡ behind es (to_channel zero_time c now p)
  to_channel-behind es c now (h, false) = refl
  to_channel-behind es c now (h, true) =
      ap (λ l. record c { parser = h; sequence = next_sequence c.sequence; sent = l })
        (append_assoc es c.sent _)

  available-behind :
      (es : List (Event Time)) (c : Connection Time) (now : Time)
      (p : SyslogDelimiter × Option Bytes)
      → available zero_time (behind es c) now p ≡ behind es (available zero_time c now p)
  available-behind es c now (d, none) = refl
  available-behind es c now (d, some log) =
      to_channel-behind es
        (record c { delimiter = d; stats = record c.stats { events_rx = c.stats.events_rx + 1 } })
        now (parse c.parser log)

  pub on_read-behind :
      (es : List (Event Time)) (c : Connection Time) (now : Time) (r : Read)
      → on_read zero_time (behind es c) now r ≡ behind es (on_read zero_time c now r)
  unfolding on_read
  on_read-behind es c now (byte b) =
      available-behind es (count zero_time (λ s. record s { bytes_read = s.bytes_read + 1 }) c) now
        (push c.delimiter b)
  on_read-behind es c now timeout =
      available-behind es
        (count zero_time
          (λ s. record s { read_error = s.read_error + 1; read_timeout = s.read_timeout + 1 }) c)
        now (vestige c.delimiter)
  on_read-behind es c now eof =
      ap (λ (x : Connection Time). record x { closed = true })
        (available-behind es
          (count zero_time
            (λ s. record s { read_error = s.read_error + 1; read_eof = s.read_eof + 1 }) c)
          now (vestige c.delimiter))
  on_read-behind es c now failed = refl

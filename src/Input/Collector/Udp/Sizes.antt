-- ===== src/Input/Collector/Udp/Sizes.antt =====
-- The messages that arrive over UDP, in input/collector.go.
use ekanite.Prelude.{
  ℕ, ◌+◌, ◌≤◌, ◌≡◌, refl, sym, ap, ◌∙◌, subst, Bool, true, false, List, [], ◌∷◌, ◌++◌, append_assoc,
  append-nil, map, Bytes, take, length, length-append, length-take, All, arith,
}
use ekanite.Strings.{is_crlf, trim, trim_left, trim_right, trim_right-suffix}
use ekanite.Parser.{Fields}
use ekanite.Input.Handler.{LogParser, LogHandler, parse_with, parse}
use ekanite.Input.Event.{Event}
use ekanite.Input.Collector.{next_sequence}
use ekanite.Input.Collector.Numbers.{numbered, view, map-snoc}
use ekanite.Input.Collector.Udp.{
  msg_buf_size, Received, packet, failed, Socket, to_channel, on_packet, packets,
}

-- The line of each packet that is received.
abbrev pub lines_of {ℓ} : {Time : Type ℓ} → List (Received × Time) → List Bytes
lines_of [] = []
lines_of ((packet contents addr, now) ∷ ps) = trim is_crlf (take 256 contents) ∷ lines_of ps
lines_of ((failed n, now) ∷ ps) = lines_of ps

length-trim_right : (cut : ℕ → Bool) (s : Bytes) → length (trim_right cut s) ≤ length s
length-trim_right cut s =
    let (tail, e, _) = trim_right-suffix cut s in
    omega (arith, ap length e, length-append (trim_right cut s) tail)

length-trim_left : (cut : ℕ → Bool) (s : Bytes) → length (trim_left cut s) ≤ length s
unfolding trim_left
length-trim_left cut [] = omega arith
length-trim_left cut (x ∷ s) = let ih = length-trim_left cut s in ground arith

pub length-trim : (cut : ℕ → Bool) (s : Bytes) → length (trim cut s) ≤ length s
unfolding trim
length-trim cut s = omega (arith, length-trim_right cut (trim_left cut s), length-trim_left cut s)

lines_of-short :
    {Time : Type 0} (ps : List (Received × Time)) → All (λ l. length l ≤ msg_buf_size) (lines_of ps)
lines_of-short [] = tt
lines_of-short ((packet contents addr, now) ∷ ps) = (
  omega (arith, length-trim is_crlf (take 256 contents), length-take 256 contents),
  lines_of-short ps,
)
lines_of-short ((failed n, now) ∷ ps) = lines_of-short ps

numbered-short :
    (p : LogParser) (n : ℕ) (ms : List Bytes)
    → All (λ l. length l ≤ msg_buf_size) ms
    → All (λ e. length e.0 ≤ msg_buf_size) (numbered p n ms)
unfolding numbered
numbered-short p n [] h = tt
numbered-short p n (m ∷ ms) (h, hs) =
    go (parse_with p m []) (numbered-short p n ms hs) (numbered-short p (next_sequence n) ms hs)
  where
    go :
        (f : Fields)
        → All (λ e. length e.0 ≤ msg_buf_size) (numbered p n ms)
        → All (λ e. length e.0 ≤ msg_buf_size) (numbered p (next_sequence n) ms)
        → All
            (λ e. length e.0 ≤ msg_buf_size)
            (elim f [
              | [] ↦ numbered p n ms
              | x ∷ fs ↦ (m, x ∷ fs, next_sequence n) ∷ numbered p (next_sequence n) ms
            ])
    go [] a b = a
    go (x ∷ fs) a b = (h, b)

module _ {Time : Type 0} (zero_time : Time) where
  All-view :
      (es : List (Event Time))
      → All (λ v. length v.0 ≤ msg_buf_size) (map view es)
      → All (λ e. length e.text ≤ msg_buf_size) es
  All-view [] h = tt
  All-view (e ∷ es) (h, hs) = (h, All-view es hs)

  packets-view :
      (s : Socket Time) (ps : List (Received × Time))
      → map view (packets zero_time s ps).sent
        ≡ map view s.sent ++ numbered s.parser.parser s.sequence (lines_of ps)
  unfolding packets on_packet parse numbered
  packets-view s [] = sym (append-nil (map view s.sent))
  packets-view s ((failed n, now) ∷ ps) =
      packets-view (record s { bytes_read = s.bytes_read + n }) ps
  packets-view s ((packet contents addr, now) ∷ ps) =
      let log = trim is_crlf (take 256 contents) in
      go (parse_with s.parser.parser log []) refl (λ s'. packets-view s' ps)
    where
      go :
          (f : Fields)
          → let log = trim is_crlf (take 256 contents) in
            parse_with s.parser.parser log [] ≡ f
            → ((s' : Socket Time)
                → map view (packets zero_time s' ps).sent
                  ≡ map view s'.sent ++ numbered s'.parser.parser s'.sequence (lines_of ps))
            → let s' =
                to_channel zero_time
                  (record s { bytes_read = s.bytes_read + length (take 256 contents) })
                  now
                  addr
                  log
                  (
                    record s.parser { raw = log; result = f },
                    elim f [ [] ↦ false | x ∷ fs ↦ true ],
                  ) in
              map view (packets zero_time (record s' { events_rx = s'.events_rx + 1 }) ps).sent
              ≡ map view s.sent ++ numbered s.parser.parser s.sequence (log ∷ lines_of ps)
      go [] e ih = rw (e, numbered) (ih _)
      go (x ∷ fs) e ih =
          rw (e, numbered)
            (ih _
              ∙ ap (λ l. l ++ numbered s.parser.parser (next_sequence s.sequence) (lines_of ps))
                  (map-snoc s.sent _)
              ∙ append_assoc (map view s.sent) _ _)

  -- The events of a new socket are those of the lines that parse, in the order of the packets, with
  -- consecutive sequence numbers, where a line is what the buffer of 256 bytes holds of a packet,
  -- without newlines at its ends; so no event's text is longer than the buffer.
  pub packets-numbered :
      (h : LogHandler) (n : ℕ) (ps : List (Received × Time))
      → let s =
          packets zero_time
            (record { parser = h; sequence = n; bytes_read = 0; events_rx = 0; sent = [] })
            ps in
        (map view s.sent ≡ numbered h.parser n (lines_of ps))
        × All (λ e. length e.text ≤ msg_buf_size) s.sent
  packets-numbered h n ps =
      let s : Socket Time = record {
        parser = h;
        sequence = n;
        bytes_read = 0;
        events_rx = 0;
        sent = [];
      } in
      let e = packets-view s ps in
      (
        e,
        All-view (packets zero_time s ps).sent (
            subst (All (λ v. length v.0 ≤ msg_buf_size)) (sym e)
              (numbered-short h.parser n (lines_of ps) (lines_of-short ps))),
      )

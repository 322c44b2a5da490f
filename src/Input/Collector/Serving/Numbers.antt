-- ===== src/Input/Collector/Serving/Numbers.antt =====
-- The sequence numbers of the events of all connections.
use mathlib.Core.List.{Perm, perm_middle}
use mathlib.Core.List.Perm
use ekanite.Prelude.{
  ℕ, zero, suc, ◌+◌, ◌≡◌, refl, sym, ap, subst, ◌∙◌, Bool, true, false, List, [], ◌∷◌, ◌++◌,
  append_assoc, map, Option, none, some, Bytes, ◌⊎◌, inl, inr,
}
use ekanite.Input.Handler.{LogHandler, parse}
use ekanite.Input.Event.{Event}
use ekanite.Input.Syslog.{SyslogDelimiter, push, vestige}
use ekanite.Input.Collector.{next_sequence}
use ekanite.Input.Collector.Tcp.{
  Read, byte, timeout, eof, failed, Connection, event, to_channel, available, count, on_read,
}
use ekanite.Input.Collector.Serving.{
  Goroutine, Traffic, at_number, after_read, Serves, start, accept_fails, accept, read, send,
  take_elsewhere,
}

module _ {Time : Type 0} (zero_time : Time) where
  -- One number is taken for one event, or none for none.
  abbrev Takes : ℕ → Connection Time → Type 0
  Takes n c =
      ((c.sent ≡ []) × (c.sequence ≡ n))
      ⊎ ((e : Event Time) × (c.sent ≡ e ∷ [])
          × (e.sequence ≡ next_sequence n)
          × (c.sequence ≡ next_sequence n))

  to_channel-Takes :
      (c : Connection Time) (now : Time) (p : LogHandler × Bool)
      → c.sent ≡ []
      → Takes c.sequence (to_channel zero_time c now p)
  to_channel-Takes c now (h, false) e = inl (e, refl)
  to_channel-Takes c now (h, true) e =
      let ev = event zero_time h h.raw (next_sequence c.sequence) c.remote now in
      inr (ev, ap (λ l. l ++ ev ∷ []) e, refl, refl)

  available-Takes :
      (c : Connection Time) (now : Time) (p : SyslogDelimiter × Option Bytes)
      → c.sent ≡ []
      → Takes c.sequence (available zero_time c now p)
  available-Takes c now (d, none) e = inl (e, refl)
  available-Takes c now (d, some log) e =
      to_channel-Takes
        (record c { delimiter = d; stats = record c.stats { events_rx = c.stats.events_rx + 1 } })
        now (parse c.parser log) e

  on_read-Takes :
      (c : Connection Time) (now : Time) (r : Read)
      → c.sent ≡ []
      → Takes c.sequence (on_read zero_time c now r)
  unfolding on_read
  on_read-Takes c now (byte b) e =
      available-Takes (count zero_time (λ s. record s { bytes_read = s.bytes_read + 1 }) c) now
        (push c.delimiter b) e
  on_read-Takes c now timeout e =
      available-Takes
        (count zero_time
          (λ s. record s { read_error = s.read_error + 1; read_timeout = s.read_timeout + 1 }) c)
        now (vestige c.delimiter) e
  on_read-Takes c now eof e =
      available-Takes
        (count zero_time
          (λ s. record s { read_error = s.read_error + 1; read_eof = s.read_eof + 1 }) c)
        now (vestige c.delimiter) e
  on_read-Takes c now failed e = inl (e, refl)

  after_read-Takes :
      (n : ℕ) (g : Goroutine Time) (now : Time) (r : Read)
      → let (m, g') = after_read zero_time n g now r in
        ((g'.pending ≡ []) × (m ≡ n))
        ⊎ ((e : Event Time) × (g'.pending ≡ e ∷ [])
            × (e.sequence ≡ next_sequence n)
            × (m ≡ next_sequence n))
  unfolding after_read
  after_read-Takes n g now r = on_read-Takes (at_number zero_time n g.connection) now r refl

  abbrev pub pendings : List (Goroutine Time) → List (Event Time)
  pendings [] = []
  pendings (g ∷ gs) = g.pending ++ pendings gs

  pendings-append :
      (before : List (Goroutine Time)) (g : Goroutine Time) (after : List (Goroutine Time))
      → pendings (before ++ g ∷ after) ≡ pendings before ++ (g.pending ++ pendings after)
  pendings-append [] g after = refl
  pendings-append (x ∷ before) g after =
      ap (λ l. x.pending ++ l) (pendings-append before g after)
      ∙ sym (append_assoc x.pending (pendings before) _)

  -- The events that are made: those in the channel, and those that wait to be sent.
  abbrev pub events : Traffic Time → List (Event Time)
  events w = w.channel ++ pendings w.goroutines

  abbrev pub sequences : Traffic Time → List ℕ
  sequences w = map (λ (e : Event Time). e.sequence) (events w) ++ w.elsewhere

  -- The `k`-th number behind `n`, and the numbers up to it, the last one first.
  abbrev pub number : ℕ → ℕ → ℕ
  number n zero = n
  number n (suc k) = next_sequence (number n k)

  abbrev pub numbers : ℕ → ℕ → List ℕ
  numbers n zero = []
  numbers n (suc k) = number n (suc k) ∷ numbers n k

  -- The numbers taken so far are the first `k` ones.
  pub record IsNumbered (n : ℕ) (w : Traffic Time) : Type 0 where
    pub taken : ℕ
    pub current : w.sequence ≡ number n taken
    pub all_taken : Perm (sequences w) (numbers n taken)

  made_perm :
      (channel before after : List (Event Time)) (e : Event Time)
      → Perm (channel ++ (before ++ (e ∷ after))) (e ∷ (channel ++ (before ++ after)))
  made_perm channel before after e =
      Perm.trans (Perm.append_left channel (perm_middle {a = e} before after))
        (perm_middle {a = e} channel (before ++ after))

  sent_perm :
      (channel before after : List (Event Time)) (e : Event Time)
      → Perm ((channel ++ e ∷ []) ++ (before ++ after)) (channel ++ (before ++ (e ∷ after)))
  sent_perm channel before after e =
      subst (λ l. Perm l (channel ++ (before ++ (e ∷ after))))
        (sym (append_assoc channel (e ∷ []) (before ++ after)))
        (Perm.append_left channel (Perm.symm (perm_middle {a = e} before after)))

  abbrev sequences_of : List (Event Time) → List ℕ → List ℕ
  sequences_of es elsewhere = map (λ (e : Event Time). e.sequence) es ++ elsewhere

  sequences-perm :
      {es es' : List (Event Time)} (elsewhere : List ℕ)
      → Perm es es'
      → Perm (sequences_of es elsewhere) (sequences_of es' elsewhere)
  sequences-perm elsewhere p =
      Perm.append_right elsewhere (Perm.map (λ (e : Event Time). e.sequence) p)

  -- The events that wait, where one goroutine has others.
  waiting :
      (gs before : List (Goroutine Time)) (g : Goroutine Time) (after : List (Goroutine Time))
      (es : List (Event Time))
      → gs ≡ before ++ g ∷ after
      → g.pending ≡ es
      → pendings gs ≡ pendings before ++ (es ++ pendings after)
  waiting gs before g after es e p =
      ap pendings e
      ∙ pendings-append before g after
      ∙ ap (λ l. pendings before ++ (l ++ pendings after)) p

  perm_of_eqs : {a b es es' : List (Event Time)} → es' ≡ a → Perm a b → es ≡ b → Perm es' es
  perm_of_eqs {b} {es'} p q r = subst (λ x. Perm es' x) (sym r) (subst (λ x. Perm x b) (sym p) q)

  -- However the goroutines take turns, the numbers of the events that are sent or wait to be sent, with
  -- those that other collectors took, are the numbers behind `n`, each once and none left out.
  pub Serves-IsNumbered :
      (format : Bytes) (n : ℕ) (w : Traffic Time) → Serves zero_time format n w → IsNumbered n w
  Serves-IsNumbered format n _ start = record { taken = 0; current = refl; all_taken = Perm.rfl }
  Serves-IsNumbered format n w (accept_fails s) = Serves-IsNumbered format n w s
  Serves-IsNumbered format n _ (accept {w} stats remote s h) =
      let i = Serves-IsNumbered format n w s in
      record { taken = i.taken; current = i.current; all_taken = i.all_taken }
  Serves-IsNumbered format n _ (take_elsewhere {w} s) =
      let i = Serves-IsNumbered format n w s in
      let m = next_sequence w.sequence in
      let next : m ≡ number n (suc i.taken) = ap next_sequence i.current in
      record {
        taken = suc i.taken;
        current = next;
        all_taken =
            Perm.trans (perm_middle {a = m} (map (λ (e : Event Time). e.sequence) (events w)) _)
              (Perm.cons' next i.all_taken);
      }
  Serves-IsNumbered format n _ (send {w} before g after e s split pending) =
      let i = Serves-IsNumbered format n w s in
      let old = waiting w.goroutines before g after (e ∷ []) split pending in
      let new = waiting _ before (record g { pending = [] }) after [] refl refl in
      record {
        taken = i.taken;
        current = i.current;
        all_taken =
            Perm.trans
              (sequences-perm w.elsewhere (
                perm_of_eqs (ap (λ l. (w.channel ++ e ∷ []) ++ l) new)
                  (sent_perm w.channel (pendings before) (pendings after) e)
                  (ap (λ l. w.channel ++ l) old)))
              i.all_taken;
      }
  Serves-IsNumbered format n _ (read {w} before g after now r s split opened idle) =
      let i = Serves-IsNumbered format n w s in
      let (m, g') = after_read zero_time w.sequence g now r in
      let old = waiting w.goroutines before g after [] split idle in
      elim (after_read-Takes w.sequence g now r) [
        | inl (none_made, same) ↦ record {
          taken = i.taken;
          current = same ∙ i.current;
          all_taken =
              Perm.trans
                (sequences-perm w.elsewhere (
                  perm_of_eqs
                    (ap (λ l. w.channel ++ l) (waiting _ before g' after [] refl none_made))
                    Perm.rfl (ap (λ l. w.channel ++ l) old)))
                i.all_taken;
        }
        | inr (e, made, number_is, next) ↦ record {
          taken = suc i.taken;
          current = next ∙ ap next_sequence i.current;
          all_taken =
              Perm.trans
                (sequences-perm w.elsewhere (
                  perm_of_eqs
                    (ap (λ l. w.channel ++ l) (waiting _ before g' after (e ∷ []) refl made))
                    (made_perm w.channel (pendings before) (pendings after) e)
                    (ap (λ l. e ∷ (w.channel ++ l)) old)))
                (Perm.cons' (number_is ∙ ap next_sequence i.current) i.all_taken);
        }
      ]

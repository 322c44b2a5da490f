-- ===== src/Input/Collector.antt =====
-- input/collector.go: the collectors for TCP and UDP, whose reads, clocks and addresses are given.
pub mod Numbers
pub mod Formats
pub mod Tcp
pub mod Udp
pub mod Serving
mod Tests
use ekanite.Prelude.{
  ℕ, ◌+◌, ◌%◌, ◌^◌, Bool, true, false, List, [], ◌∷◌, Option, none, some, Bytes, codes, equal,
  if◌then◌else◌,
}
use ekanite.Input.Handler.{LogHandler, Outcome, ok, error, panic, new_parser}
use ekanite.Input.Event.{Event}

-- `atomic.AddInt64(&sequenceNumber, 1)`, on the 64 bits of the number.
abbrev pub next_sequence : ℕ → ℕ
next_sequence n = (n + 1) % 2 ^ 64

-- The types that implement `Collector`; `Tls` is `tls.Config`, with nil as `none`, and `Addr`
-- `net.UDPAddr`.
pub data Collector (Tls Addr : Type 0) : Type 0 where
  tcp : (iface format : Bytes) → Option Tls → Collector Tls Addr
  udp : (addr : Addr) (format : Bytes) → Collector Tls Addr

module _ {Tls Addr : Type 0} (to_lower : Bytes → Bytes)
    (resolve_udp_addr : Bytes → Outcome Addr) where
  abbrev pub of_addr : Bytes → Outcome Addr → Outcome (Collector Tls Addr)
  of_addr format (ok a) = ok (udp a format)
  of_addr format (error e) = error e
  of_addr format panic = panic

  abbrev pub of_protocol : Bytes → Bytes → Bytes → Option Tls → Outcome (Collector Tls Addr)
  of_protocol proto iface format config =
      if equal (to_lower proto) (codes "tcp")
      then ok (tcp iface format config)
      else if equal (to_lower proto) (codes "udp")
      then of_addr format (resolve_udp_addr iface)
      else error (codes "unsupport collector protocol")

  -- `NewCollector`
  unfoldable pub new_collector : Bytes → Bytes → Bytes → Option Tls → Outcome (Collector Tls Addr)
  unfolding new_parser equal
  new_collector proto iface format config = elim (new_parser format) [
    | ok h ↦ of_protocol proto iface format config
    | error e ↦ error e
    | panic ↦ panic
  ]

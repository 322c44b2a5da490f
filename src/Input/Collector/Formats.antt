-- ===== src/Input/Collector/Formats.antt =====
-- The formats of the collectors of input/collector.go.
use ekanite.Prelude.{
  ℕ, ◌≡◌, refl, sym, Bool, true, false, List, ◌++◌, Option, Bytes, codes, equal, equal_iff, subst,
  if◌then◌else◌, Bool-cases, ◌⊎◌, inl, inr,
}
use ekanite.Input.Handler.{
  LogHandler, Outcome, ok, error, panic, rfc5424, watchguard, valid_format, new_parser,
  rfc5424_name, rfc5424_standard, watchguard_name, watchguard_firebox,
}
use ekanite.Input.Collector.{Collector, tcp, udp, of_addr, of_protocol, new_collector}
use ekanite.Input.Collector.Tcp.{Read, Stats, Connection, new_connection, reads, handle_connection}

-- A parser comes with the standard name of its format, for a format that is valid; no call panics.
abbrev pub Fits : Bytes → Outcome LogHandler → Type 0
Fits f (ok h) =
    (valid_format f ≡ true)
    × (h.fmt ≡ elim h.parser [ rfc5424 ↦ rfc5424_standard | watchguard ↦ watchguard_firebox ])
Fits f (error e) = valid_format f ≡ false
Fits f panic = ⊥

valid_format-cases :
    (f : Bytes)
    → valid_format f ≡ true
    → ((rfc5424_name ≡ f) ⊎ (rfc5424_standard ≡ f))
      ⊎ ((watchguard_name ≡ f) ⊎ (watchguard_firebox ≡ f))
unfolding valid_format
valid_format-cases f e = elim (Bool-cases (equal rfc5424_name f)) [
  | inl h ↦ inl (inl ((equal_iff rfc5424_name f).0 h))
  | inr n₁ ↦ elim (Bool-cases (equal rfc5424_standard f)) [
    | inl h ↦ inl (inr ((equal_iff rfc5424_standard f).0 h))
    | inr n₂ ↦ elim (Bool-cases (equal watchguard_name f)) [
      | inl h ↦ inr (inl ((equal_iff watchguard_name f).0 h))
      | inr n₃ ↦ inr (
          inr (
            (equal_iff watchguard_firebox f).0
              (last (equal watchguard_firebox f) (rw (n₁, n₂, n₃) at e))))
    ]
  ]
]
  where
    last : (b : Bool) → (if b then true else false) ≡ true → b ≡ true
    last true h = refl
    last false h = h

new_parser-error : (f : Bytes) → valid_format f ≡ false → (m : Bytes) × (new_parser f ≡ error m)
unfolding new_parser
new_parser-error f e = (f ++ codes " is not a valid parser format", rw (e) refl)

pub new_parser-Fits : (f : Bytes) → Fits f (new_parser f)
unfolding new_parser valid_format
new_parser-Fits f = elim (Bool-cases (valid_format f)) [
  | inl e ↦ elim (valid_format-cases f e) [
    | inl (inl h) ↦ subst (λ g. Fits g (new_parser g)) h (refl, refl)
    | inl (inr h) ↦ subst (λ g. Fits g (new_parser g)) h (refl, refl)
    | inr (inl h) ↦ subst (λ g. Fits g (new_parser g)) h (refl, refl)
    | inr (inr h) ↦ subst (λ g. Fits g (new_parser g)) h (refl, refl)
  ]
  | inr e ↦ let (m, h) = new_parser-error f e in subst (Fits f) (sym h) e
]

abbrev pub format_of : {Tls Addr : Type 0} → Collector Tls Addr → Bytes
format_of (tcp iface format config) = format
format_of (udp addr format) = format

abbrev MakesParser : {Tls Addr : Type 0} → Outcome (Collector Tls Addr) → Type 0
MakesParser (ok c) = (h : LogHandler) × (new_parser (format_of c) ≡ ok h)
MakesParser (error e) = Unit
MakesParser panic = Unit

module _ {Tls Addr : Type 0} (to_lower : Bytes → Bytes)
    (resolve_udp_addr : Bytes → Outcome Addr) where
  of_protocol-MakesParser :
      (proto iface format : Bytes) (config : Option Tls) {h : LogHandler}
      → new_parser format ≡ ok h
      → MakesParser (of_protocol to_lower resolve_udp_addr proto iface format config)
  of_protocol-MakesParser proto iface format config {h} e =
      go (equal (to_lower proto) (codes "tcp")) (equal (to_lower proto) (codes "udp"))
        (resolve_udp_addr iface)
    where
      go :
          (a b : Bool) (o : Outcome Addr)
          → MakesParser (
              if a
              then ok (tcp iface format config)
              else if b
              then of_addr to_lower resolve_udp_addr format o
              else error (codes "unsupport collector protocol"))
      go true b o = (h, e)
      go false true (ok a) = (h, e)
      go false true (error m) = tt
      go false true panic = tt
      go false false o = tt

  made :
      (proto iface format : Bytes) (config : Option Tls)
      → MakesParser (new_collector to_lower resolve_udp_addr proto iface format config)
  unfolding new_collector
  made proto iface format config = go (new_parser format) refl
    where
      go :
          (o : Outcome LogHandler)
          → new_parser format ≡ o
          → MakesParser (elim o [
            | ok h ↦ of_protocol to_lower resolve_udp_addr proto iface format config
            | error e ↦ error e
            | panic ↦ panic
          ])
      go (ok h) e = of_protocol-MakesParser proto iface format config e
      go (error m) e = tt
      go panic e = tt

  -- The connections of a collector that was created do not panic when they create their parsers: they
  -- handle all their reads.
  pub new_collector-handle_connection :
      {Time : Type 0} (zero_time : Time) (proto iface format : Bytes) (config : Option Tls)
      {c : Collector Tls Addr}
      → new_collector to_lower resolve_udp_addr proto iface format config ≡ ok c
      → (stats : Stats) (n : ℕ) (remote : Bytes) (rs : List (Read × Time))
      → (conn : Connection Time) × (handle_connection zero_time (format_of c) stats n remote rs
          ≡ ok conn)
  unfolding handle_connection
  new_collector-handle_connection zero_time proto iface format config {c} e stats n remote rs =
      let (h, parses) = subst MakesParser e (made proto iface format config) in
      (reads zero_time (new_connection zero_time h stats n remote) rs, rw (parses) refl)

-- ===== src/Input/Event.antt =====
-- input/event.go: an event and its reference time. The type of times is a parameter, with
-- `Time.IsZero` and `time.Parse` of the layout RFC3339.
use ekanite.Prelude.{
  ℕ, ◌≡◌, refl, sym, ap, ◌∙◌, Bool, true, Option, none, some, some, Bytes, codes, if◌then◌else◌,
  Bool-cases, inl, inr,
}
use ekanite.Parser.{Value, int, string, Fields, lookup}
use ekanite.Input.Handler.{LogHandler, Outcome, ok, panic, parse}
use ekanite.Input.Handler.Timestamps.{parse-timestamp}

-- A nil map is `none`.
pub record Event (Time : Type 0) : Type 0 where
  pub text : Bytes
  pub parsed : Option Fields
  pub reception_time : Time
  pub sequence : ℕ
  pub source_ip : Bytes
  pub reference : Time

module _ {Time : Type 0} where
  abbrev pub or_reception : Event Time → Option Time → Time
  or_reception e none = e.reception_time
  or_reception e (some t) = t

  module _ (is_zero : Time → Bool) (parse_time : Bytes → Option Time) where
    abbrev pub memoise : Event Time → Time → Outcome (Event Time × Time)
    memoise e t = ok (record e { reference = t }, t)

    -- `e.Parsed["timestamp"].(string)` panics without a string there.
    abbrev pub of_field : Event Time → Option Value → Outcome (Event Time × Time)
    of_field e (some (string ts)) = memoise e (or_reception e (parse_time ts))
    of_field e (some (int n)) = panic
    of_field e none = panic

    abbrev pub of_parsed : Event Time → Option Fields → Outcome (Event Time × Time)
    of_parsed e none = memoise e e.reception_time
    of_parsed e (some f) = of_field e (lookup (codes "timestamp") f)

    -- `ReferenceTime`, with the event that remembers it.
    unfoldable pub reference_time : Event Time → Outcome (Event Time × Time)
    unfolding lookup
    reference_time e = if is_zero e.reference then of_parsed e e.parsed else ok (e, e.reference)

    fresh :
        (e : Event Time) (f : Fields) (ts : Bytes)
        → e.parsed ≡ some f
        → lookup (codes "timestamp") f ≡ some (string ts)
        → of_parsed e e.parsed ≡ memoise e (or_reception e (parse_time ts))
    fresh e f ts p found = rw (p, found) refl

    remembers :
        (e : Event Time) (f : Fields) (ts : Bytes) (t : Time)
        → e.parsed ≡ some f
        → lookup (codes "timestamp") f ≡ some (string ts)
        → t ≡ or_reception e (parse_time ts)
        → reference_time (record e { reference = t }) ≡ ok (record e { reference = t }, t)
    unfolding reference_time
    remembers e f ts t p found is = elim (Bool-cases (is_zero t)) [
      | inl z ↦ rw (z) (fresh (record e { reference = t }) f ts p found ∙ ap (memoise e) (sym is))
      | inr nz ↦ rw (nz) refl
    ]

    -- The event of a message that was parsed has a reference time, without a panic: the time in the
    -- message, or that of its reception, unless one is remembered; and each later call gives it again.
    pub reference_time-parse :
        (h : LogHandler) (b : Bytes) (e : Event Time)
        → (parse h b).1 ≡ true
        → e.parsed ≡ some (parse h b).0.result
        → (ts : Bytes) × (t : Time) × (lookup (codes "timestamp") (parse h b).0.result
            ≡ some (string ts))
          × (t ≡ (if is_zero e.reference then or_reception e (parse_time ts) else e.reference))
          × (reference_time e ≡ ok (record e { reference = t }, t))
          × (reference_time (record e { reference = t }) ≡ ok (record e { reference = t }, t))
    unfolding reference_time
    reference_time-parse h b e success p =
        let (ts, found) = parse-timestamp h b success in
        elim (Bool-cases (is_zero e.reference)) [
          | inl z ↦
              let t = or_reception e (parse_time ts) in
              (
                ts,
                t,
                found,
                rw (z) refl,
                rw (z) (fresh e _ ts p found),
                remembers e _ ts t p found refl,
              )
          | inr nz ↦ (ts, e.reference, found, rw (nz) refl, rw (nz) refl, rw (nz) refl)
        ]

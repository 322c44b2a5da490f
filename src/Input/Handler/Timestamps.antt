-- ===== src/Input/Handler/Timestamps.antt =====
-- What a successful `Parse` of input/parser.go leaves in the map.
use ekanite.Prelude.{
  ◌≡◌, refl, true, false, List, [], ◌∷◌, Option, some, Bytes, codes, arith, ◌⊎◌, inl, inr,
}
use ekanite.Parser.{string, Fields, lookup}
use ekanite.Parser.Rfc5424
use ekanite.Parser.Watchguard
use ekanite.Regexp.{find_string_submatch}
use ekanite.Input.Handler.{LogParser, rfc5424, watchguard, LogHandler, parse_with, parse}

-- An empty map, or one with a string under "timestamp".
abbrev pub Timed : Fields → Type 0
Timed f = (f ≡ []) ⊎ ((ts : Bytes) × (lookup (codes "timestamp") f ≡ some (string ts)))

rfc5424-Timed : (m : Option (List Bytes)) → Timed (Rfc5424.fields_of m [])
unfolding Rfc5424.fields_of lookup
rfc5424-Timed (some (all ∷ pri ∷ ver ∷ ts ∷ host ∷ app ∷ pid ∷ id ∷ msg ∷ [])) = inr (ts, refl)
rfc5424-Timed m = inl refl

watchguard-Timed : (m : Option (List Bytes)) → Timed (Watchguard.fields_of m [])
unfolding Watchguard.fields_of lookup
watchguard-Timed
      (some (all ∷ pri ∷ dtg ∷ model ∷ serial ∷ utc ∷ comp ∷ id ∷ disp ∷ src ∷ dst ∷ msg ∷ [])) =
    inr (utc, refl)
watchguard-Timed m = inl refl

parse_with-Timed : (p : LogParser) (raw : Bytes) → Timed (parse_with p raw [])
unfolding parse_with
parse_with-Timed rfc5424 raw = rfc5424-Timed (find_string_submatch Rfc5424.matcher raw)
parse_with-Timed watchguard raw = watchguard-Timed (find_string_submatch Watchguard.matcher raw)

-- A message that the handler takes has a timestamp.
pub parse-timestamp :
    (h : LogHandler) (b : Bytes)
    → (parse h b).1 ≡ true
    → (ts : Bytes) × (lookup (codes "timestamp") (parse h b).0.result ≡ some (string ts))
unfolding parse
parse-timestamp h b = go (parse_with h.parser b []) (parse_with-Timed h.parser b)
  where
    go :
        (f : Fields)
        → Timed f
        → elim f [ [] ↦ false | x ∷ fs ↦ true ] ≡ true
        → (ts : Bytes) × (lookup (codes "timestamp") f ≡ some (string ts))
    go [] t e = absurd (ground (arith, e))
    go (x ∷ fs) (inl n) e = absurd (ground (arith, n))
    go (x ∷ fs) (inr t) e = t

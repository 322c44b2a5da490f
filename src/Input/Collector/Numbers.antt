-- ===== src/Input/Collector/Numbers.antt =====
-- The events that the collectors of input/collector.go make of lines.
use ekanite.Prelude.{ℕ, ◌≡◌, refl, ap, List, [], ◌∷◌, ◌++◌, map, none, some, Bytes}
use ekanite.Parser.{Fields}
use ekanite.Input.Handler.{LogParser, parse_with}
use ekanite.Input.Event.{Event}
use ekanite.Input.Collector.{next_sequence}

-- The events for lines: those that parse, with their fields and the next numbers.
unfoldable pub numbered : LogParser → ℕ → List Bytes → List (Bytes × Fields × ℕ)
numbered p n [] = []
numbered p n (m ∷ ms) = elim (parse_with p m []) [
  | [] ↦ numbered p n ms
  | f ∷ fs ↦ (m, f ∷ fs, next_sequence n) ∷ numbered p (next_sequence n) ms
]

module _ {Time : Type 0} where
  abbrev pub view : Event Time → Bytes × Fields × ℕ
  view e = (e.text, elim e.parsed [ none ↦ [] | some f ↦ f ], e.sequence)

  pub map-snoc :
      (es : List (Event Time)) (e : Event Time)
      → map view (es ++ e ∷ []) ≡ map view es ++ view e ∷ []
  map-snoc [] e = refl
  map-snoc (x ∷ es) e = ap (◌∷◌ (view x)) (map-snoc es e)

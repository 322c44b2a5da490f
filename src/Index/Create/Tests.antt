-- ===== src/Index/Create/Tests.antt =====
-- A machine on which `Stat` of one directory fails.
use ekanite.Prelude.{ℕ, ◌≡◌, ◌≢◌, ap, [], ◌∷◌, if◌then◌else◌, Bool-cases, inl, inr}
use ekanite.System.{FilePath, StatError}
use ekanite.Index.{new_index}
use ekanite.Index.Create.{new_index-stat}
use ekanite.Engine.Tests.{machine}
use ekanite.Engine.Demux.Tests.{same_path, same_path_sound}

abbrev failing : FilePath → ℕ → StatError
failing p d = if same_path p ((40 ∷ []) ∷ []) then StatError.other else StatError.nil

elsewhere : (p : FilePath) (d : ℕ) → p ≢ (40 ∷ []) ∷ [] → failing p d ≡ StatError.nil
elsewhere p d ne = elim (Bool-cases (same_path p ((40 ∷ []) ∷ []))) [
  | inl h ↦ absurd (ne (same_path_sound p ((40 ∷ []) ∷ []) h))
  | inr h ↦ ap (λ b. if b then StatError.other else StatError.nil) h
]

new_index-stat_example :
    new_index (record machine { stat = failing }) [] 40 50 2 33 ≡ new_index machine [] 40 50 2 33
new_index-stat_example = new_index-stat machine failing [] 40 50 2 33 elsewhere

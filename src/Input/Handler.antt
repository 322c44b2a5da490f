-- ===== src/Input/Handler.antt =====
-- input/parser.go: the choice of a parser by the name of a format, and the handler that holds the
-- fields of the last message. Its callback `Stats` is set and never called.
pub mod Timestamps
pub mod Types
use ekanite.Prelude.{
  ℕ, Bool, true, false, List, [], ◌∷◌, ◌++◌, Option, none, some, Bytes, codes, equal, ◌||◌, not,
  if◌then◌else◌,
}
use ekanite.Parser.{Fields}
use ekanite.Parser.Rfc5424
use ekanite.Parser.Watchguard

abbrev pub rfc5424_standard : Bytes
rfc5424_standard = codes "RFC5424"

abbrev pub rfc5424_name : Bytes
rfc5424_name = codes "syslog"

abbrev pub watchguard_firebox : Bytes
watchguard_firebox = codes "Watchguard"

abbrev pub watchguard_name : Bytes
watchguard_name = codes "M200"

-- The interface `LogParser`, as the types that implement it.
pub data LogParser : Type 0 where
  rfc5424 watchguard : LogParser

-- The method `Parse` of the interface, on an initialised parser.
unfoldable pub parse_with : LogParser → Bytes → Fields → Fields
unfolding Rfc5424.parse Watchguard.parse
parse_with rfc5424 raw result = Rfc5424.parse raw result
parse_with watchguard raw result = Watchguard.parse raw result

-- What a call gives: a value, an error with its text, or a panic.
pub data Outcome {ℓ} (A : Type ℓ) : Type ℓ where
  ok : A → Outcome A
  error : Bytes → Outcome A
  panic : Outcome A

pub record LogHandler : Type 0 where
  pub fmt : Bytes
  pub raw : Bytes
  pub result : Fields
  pub parser : LogParser

abbrev pub supported_formats : List (Bytes × Bytes)
supported_formats = (rfc5424_name, rfc5424_standard) ∷ (watchguard_name, watchguard_firebox) ∷ []

-- The loop of `ValidFormat`.
abbrev valid_in : List (Bytes × Bytes) → Bytes → Bool
valid_in [] f = false
valid_in ((name, standard) ∷ rest) f =
    let later = valid_in rest f in if equal name f || equal standard f then true else later

unfoldable pub valid_format : Bytes → Bool
unfolding equal
valid_format f = valid_in supported_formats f

-- `Init` of a parser that no branch has set is a call on a nil interface.
abbrev initialised : Bytes → Option LogParser → Outcome LogHandler
initialised fmt none = panic
initialised fmt (some p) = ok (record { fmt = fmt; raw = []; result = []; parser = p })

-- `NewParser`
unfoldable pub new_parser : Bytes → Outcome LogHandler
unfolding valid_format
new_parser f =
    if not (valid_format f)
    then error (f ++ codes " is not a valid parser format")
    else if equal f rfc5424_name || equal f rfc5424_standard
    then initialised rfc5424_standard (some rfc5424)
    else if equal f watchguard_name || equal f watchguard_firebox
    then initialised watchguard_firebox (some watchguard)
    else initialised [] none

-- `Parse`: whether the map has an entry. A call makes a new map, so the maps that events hold from
-- earlier calls stay as they are.
unfoldable pub parse : LogHandler → Bytes → LogHandler × Bool
unfolding parse_with
parse h b =
    let result = parse_with h.parser b [] in
    (record h { raw = b; result = result }, elim result [ [] ↦ false | f ∷ fs ↦ true ])

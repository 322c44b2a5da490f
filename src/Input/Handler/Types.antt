-- ===== src/Input/Handler/Types.antt =====
-- The types of the fields that `Parse` of input/parser.go puts in the map.
use ekanite.Prelude.{
  ◌≡◌, refl, true, false, List, [], ◌∷◌, map, Option, some, Bytes, codes, arith, ◌⊎◌, inl, inr,
  if◌then◌else◌,
}
use ekanite.Parser.{Value, int, string, Fields}
use ekanite.Parser.Rfc5424
use ekanite.Parser.Watchguard
use ekanite.Regexp.{find_string_submatch}
use ekanite.Input.Handler.{LogParser, rfc5424, watchguard, LogHandler, parse_with, parse}

-- The dynamic type of a value of the map.
pub data Kind : Type 0 where
  is_int is_string : Kind

abbrev pub kind : Value → Kind
kind (int n) = is_int
kind (string s) = is_string

-- The keys of a map, with the types of their values.
abbrev pub schema : Fields → List (Bytes × Kind)
schema = map (λ f. (f.0, kind f.1))

-- The fields of each format.
abbrev pub schema_of : LogParser → List (Bytes × Kind)
schema_of rfc5424 =
    (codes "priority", is_int)
    ∷ (codes "version", is_int)
    ∷ (codes "timestamp", is_string)
    ∷ (codes "host", is_string)
    ∷ (codes "app", is_string)
    ∷ (codes "pid", is_int)
    ∷ (codes "message_id", is_string)
    ∷ (codes "message", is_string)
    ∷ []
schema_of watchguard =
    (codes "priority", is_int)
    ∷ (codes "local_dtg", is_string)
    ∷ (codes "model_name", is_string)
    ∷ (codes "serial_no", is_string)
    ∷ (codes "timestamp", is_string)
    ∷ (codes "component", is_string)
    ∷ (codes "msg_id", is_string)
    ∷ (codes "disposition", is_string)
    ∷ (codes "src_intf", is_string)
    ∷ (codes "dst_intf", is_string)
    ∷ (codes "message", is_string)
    ∷ []

abbrev HasSchema : LogParser → Fields → Type 0
HasSchema p f = (f ≡ []) ⊎ (schema f ≡ schema_of p)

rfc5424-HasSchema : (m : Option (List Bytes)) → HasSchema rfc5424 (Rfc5424.fields_of m [])
unfolding Rfc5424.fields_of
rfc5424-HasSchema (some (all ∷ pri ∷ ver ∷ ts ∷ host ∷ app ∷ pid ∷ id ∷ msg ∷ [])) = inr refl
rfc5424-HasSchema m = inl refl

watchguard-HasSchema : (m : Option (List Bytes)) → HasSchema watchguard (Watchguard.fields_of m [])
unfolding Watchguard.fields_of
watchguard-HasSchema
      (some (all ∷ pri ∷ dtg ∷ model ∷ serial ∷ utc ∷ comp ∷ id ∷ disp ∷ src ∷ dst ∷ msg ∷ [])) =
    inr refl
watchguard-HasSchema m = inl refl

parse_with-HasSchema : (p : LogParser) (raw : Bytes) → HasSchema p (parse_with p raw [])
unfolding parse_with
parse_with-HasSchema rfc5424 raw = rfc5424-HasSchema (find_string_submatch Rfc5424.matcher raw)
parse_with-HasSchema watchguard raw =
    watchguard-HasSchema (find_string_submatch Watchguard.matcher raw)

-- A message that a handler takes leaves a map with exactly the keys of the handler's format, each with
-- a value of the type that the format has for it; a message that it does not take leaves an empty map.
pub parse-schema :
    (h : LogHandler) (b : Bytes)
    → schema (parse h b).0.result ≡ (if (parse h b).1 then schema_of h.parser else [])
unfolding parse
parse-schema h b = go (parse_with h.parser b []) (parse_with-HasSchema h.parser b)
  where
    go :
        (f : Fields)
        → HasSchema h.parser f
        → schema f ≡ (if elim f [ [] ↦ false | x ∷ fs ↦ true ] then schema_of h.parser else [])
    go [] t = refl
    go (x ∷ fs) (inl n) = absurd (ground (arith, n))
    go (x ∷ fs) (inr t) = t

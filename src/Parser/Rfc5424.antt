-- ===== src/Parser/Rfc5424.antt =====
-- parser/rfc5424.go. The callback for statistics, which does nothing unless it is set, is left out.
pub mod Lines
use ekanite.Prelude.{
  ℕ, Bool, true, false, List, [], ◌∷◌, Option, none, some, Bytes, codes, equal, ◌==◌, ◌||◌,
  if◌then◌else◌,
}
use ekanite.Strings.{is_digit, atoi}
use ekanite.Regexp.{Regexp, chr, seq, alt, rep, group, end, is_space, is_word, find_string_submatch}
use ekanite.Parser.{Value, int, string, Fields, ◌▷◌, lit, space, word, pri}

-- `(-|[0-9]{1,5})`, `([\w-]+)` and `(.+$)`
abbrev pub pid : Regexp
pid = group (alt (lit b'-') (rep is_digit 1 (some 5)))

abbrev pub is_id : ℕ → Bool
is_id x = is_word x || x == b'-'

abbrev pub message : Regexp
message = group (seq (rep (λ _. true) 1 none) end)

-- `Init`
unfoldable pub matcher : Regexp
matcher =
    pri
    ▷ group (chr is_digit)
    ▷ space
    ▷ word
    ▷ space
    ▷ word
    ▷ space
    ▷ word
    ▷ space
    ▷ pid
    ▷ space
    ▷ group (rep is_id 1 none)
    ▷ space
    ▷ message

-- The map, from the submatches; `strconv.Atoi` with its error dropped.
unfoldable pub fields_of : Option (List Bytes) → Fields → Fields
unfolding equal
fields_of (some (all ∷ pri ∷ ver ∷ ts ∷ host ∷ app ∷ pid ∷ id ∷ msg ∷ [])) result =
    (codes "priority", int (atoi pri).0)
    ∷ (codes "version", int (atoi ver).0)
    ∷ (codes "timestamp", string ts)
    ∷ (codes "host", string host)
    ∷ (codes "app", string app)
    ∷ (codes "pid", int (if equal pid (codes "-") then 0 else (atoi pid).0))
    ∷ (codes "message_id", string id)
    ∷ (codes "message", string msg)
    ∷ []
fields_of m result = result

-- `Parse`, with what the map holds before and after.
unfoldable pub parse : Bytes → Fields → Fields
unfolding matcher fields_of find_string_submatch
parse raw result = fields_of (find_string_submatch matcher raw) result

-- ===== src/Parser/Watchguard.antt =====
-- parser/watchguard.go. The callback for statistics, which does nothing unless it is set, is left
-- out.
use ekanite.Prelude.{
  ℕ, Bool, true, List, [], ◌∷◌, Option, none, some, Bytes, codes, leb, ◌==◌, ◌&&◌, ◌||◌,
}
use ekanite.Strings.{is_digit, atoi}
use ekanite.Regexp.{Regexp, chr, seq, rep, group, end, find_string_submatch}
use ekanite.Parser.{int, string, Fields, ◌▷◌, lit, space, word, pri, text_of}

-- `[ADFJMNOS]`
abbrev pub is_month : ℕ → Bool
is_month x =
    x == b'A'
    || x == b'D'
    || x == b'F'
    || x == b'J'
    || x == b'M'
    || x == b'N'
    || x == b'O'
    || x == b'S'

abbrev pub is_lower : ℕ → Bool
is_lower x = leb b'a' x && leb x b'z'

-- `[0-5]?[0-9]`
abbrev pub minutes : Regexp
minutes = rep (λ x. leb b'0' x && leb x b'5') 0 (some 1) ▷ chr is_digit

-- `([ADFJMNOS][a-z]{2}\s[0-9]{1,2}\s[0-2][0-9]:[0-5]?[0-9]:[0-5]?[0-9])`
abbrev pub local_dtg : Regexp
local_dtg = group (
    chr is_month
    ▷ rep is_lower 2 (some 2)
    ▷ space
    ▷ rep is_digit 1 (some 2)
    ▷ space
    ▷ chr (λ x. leb b'0' x && leb x b'2')
    ▷ chr is_digit
    ▷ lit b':'
    ▷ minutes
    ▷ lit b':'
    ▷ minutes)

-- `Init`
unfoldable pub matcher : Regexp
matcher =
    pri
    ▷ local_dtg
    ▷ space
    ▷ word
    ▷ space
    ▷ word
    ▷ space
    ▷ lit b'('
    ▷ word
    ▷ lit b')'
    ▷ space
    ▷ word
    ▷ space
    ▷ text_of (codes "msg_id=\"") (
        group (rep (λ x. is_digit x || x == b'-') 1 none)
        ▷ lit b'"'
        ▷ space
        ▷ word
        ▷ space
        ▷ word
        ▷ space
        ▷ word
        ▷ space
        ▷ group (seq (rep (λ _. true) 1 none) end))

-- The map, from the submatches; `strconv.Atoi` with its error dropped.
unfoldable pub fields_of : Option (List Bytes) → Fields → Fields
fields_of (some (all ∷ pri ∷ dtg ∷ model ∷ serial ∷ utc ∷ comp ∷ id ∷ disp ∷ src ∷ dst ∷ msg ∷ []))
      result =
    (codes "priority", int (atoi pri).0)
    ∷ (codes "local_dtg", string dtg)
    ∷ (codes "model_name", string model)
    ∷ (codes "serial_no", string serial)
    ∷ (codes "timestamp", string utc)
    ∷ (codes "component", string comp)
    ∷ (codes "msg_id", string id)
    ∷ (codes "disposition", string disp)
    ∷ (codes "src_intf", string src)
    ∷ (codes "dst_intf", string dst)
    ∷ (codes "message", string msg)
    ∷ []
fields_of m result = result

-- `Parse`, with what the map holds before and after.
unfoldable pub parse : Bytes → Fields → Fields
unfolding matcher fields_of find_string_submatch
parse raw result = fields_of (find_string_submatch matcher raw) result

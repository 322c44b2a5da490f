-- ===== src/Rfc5424/Reader.antt =====
-- rfc5424/reader.go: the parser of the package, and the reader, which does not use it. The reader
-- that is wrapped is the list of the bytes to come.
use ekanite.Prelude.{
  ◌≡◌, refl, Bool, true, false, List, [], ◌∷◌, Option, none, some, Bytes, codes, equal,
  if◌then◌else◌,
}
use ekanite.Strings.{is_digit, atoi}
use ekanite.Regexp.{Regexp, chr, seq, alt, rep, group, end, find_string_submatch}
use ekanite.Parser.{int, string, Fields, ◌▷◌, lit, space, word, pri}
use ekanite.Parser.Rfc5424
use ekanite.Rfc5424.Delimiter.{Delimiter, new_delimiter}

pub record Parser : Type 0 where
  pub matcher : Regexp

-- `compileMatcher`
unfoldable pub compile_matcher : Regexp
compile_matcher =
    pri
    ▷ group (chr is_digit)
    ▷ space
    ▷ word
    ▷ space
    ▷ word
    ▷ space
    ▷ word
    ▷ space
    ▷ group (alt (lit b'-') (rep is_digit 1 (some 5)))
    ▷ space
    ▷ group (rep Rfc5424.is_id 1 none)
    ▷ space
    ▷ group (seq (rep (λ _. true) 1 none) end)

-- `NewParser`
abbrev pub new_parser : Parser
unfolding compile_matcher
new_parser = record { matcher = compile_matcher }

-- The map, from the submatches; `strconv.Atoi` with its error dropped.
unfoldable pub result_of : Option (List Bytes) → Fields → Fields
unfolding equal
result_of (some (m₀ ∷ m₁ ∷ m₂ ∷ m₃ ∷ m₄ ∷ m₅ ∷ m₆ ∷ m₇ ∷ m₈ ∷ [])) result =
    (codes "priority", int (atoi m₁).0)
    ∷ (codes "version", int (atoi m₂).0)
    ∷ (codes "timestamp", string m₃)
    ∷ (codes "host", string m₄)
    ∷ (codes "app", string m₅)
    ∷ (codes "pid", int (if equal m₆ (codes "-") then 0 else (atoi m₆).0))
    ∷ (codes "message_id", string m₇)
    ∷ (codes "message", string m₈)
    ∷ []
result_of m result = result

-- `parse`
unfoldable pub parse : Parser → Bytes → Fields → Fields
unfolding find_string_submatch result_of
parse p raw result = result_of (find_string_submatch p.matcher raw) result

same_result :
    (m : Option (List Bytes)) (result : Fields) → result_of m result ≡ Rfc5424.fields_of m result
unfolding result_of Rfc5424.fields_of
same_result (some (m₀ ∷ m₁ ∷ m₂ ∷ m₃ ∷ m₄ ∷ m₅ ∷ m₆ ∷ m₇ ∷ m₈ ∷ [])) result = refl
same_result m result = refl

-- The two parsers of the repository for this format agree.
pub parse-new_parser :
    (raw : Bytes) (result : Fields) → parse new_parser raw result ≡ Rfc5424.parse raw result
unfolding parse compile_matcher Rfc5424.parse Rfc5424.matcher
parse-new_parser raw result = same_result (find_string_submatch compile_matcher raw) result

pub record Reader : Type 0 where
  pub r : Bytes
  pub d : Delimiter
  pub p : Parser

-- `NewReader`
abbrev pub new_reader : Bytes → Reader
new_reader r = record { r = r; d = new_delimiter; p = new_parser }

-- `ReadLine`, with whether there is an error: it reads nothing.
unfoldable pub read_line : Reader → Reader × Bytes × Bool
read_line r = (r, [], false)

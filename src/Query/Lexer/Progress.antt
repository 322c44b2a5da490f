-- ===== src/Query/Lexer/Progress.antt =====
-- query/lexer.go: the lengths of what `Lex` takes and leaves.
use ekanite.Prelude.{◌+◌, ◌≤◌, ◌≢◌, refl, [], ◌∷◌, Option, none, some, Bytes, length, arith}
use ekanite.Query.Token.{Token, lookup}
use ekanite.Query.Lexer.{Lexed, whitespace_run, string_run, lex_string, with_keyword, lex}

whitespace_run-length :
    (s : Bytes) → length (whitespace_run s).0 + length (whitespace_run s).1 ≤ length s
unfolding whitespace_run
whitespace_run-length [] = omega arith
whitespace_run-length (ch ∷ rest) = ground (arith, whitespace_run-length rest)

string_run-length : (s : Bytes) → length (string_run s).0 + length (string_run s).1 ≤ length s
unfolding string_run
string_run-length [] = omega arith
string_run-length (ch ∷ rest) = ground (arith, string_run-length rest)

-- The literal and the rest are no longer than the text, and only the end of the text has an empty
-- literal.
pub record Advances (s : Bytes) (l : Lexed) : Type 0 where
  pub shorter : length l.lit + length l.rest ≤ length s
  pub nonempty : l.tok ≢ Token.eof → 1 ≤ length l.lit

with_keyword-Advances :
    (s : Bytes) (l : Lexed) → Advances s l → 1 ≤ length l.lit → Advances s (with_keyword l)
with_keyword-Advances s l a h = go (lookup l.lit)
  where
    go : (o : Option Token) → Advances s (elim o [ none ↦ l | some kw ↦ record l { tok = kw } ])
    go none = a
    go (some kw) = record { shorter = a.shorter; nonempty = λ _. h }

pub lex-Advances : (s : Bytes) → Advances s (lex s)
unfolding lex
lex-Advances [] = record { shorter = omega arith; nonempty = λ h. absurd (h refl) }
lex-Advances (ch ∷ rest) = ground (
  arith,
  whitespace_run-length rest,
  string_run-length rest,
  with_keyword-Advances (ch ∷ rest) (lex_string ch rest),
)

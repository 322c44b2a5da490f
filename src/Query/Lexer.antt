-- ===== src/Query/Lexer.antt =====
-- query/lexer.go. The reader is the list of the runes that it will still give; a read past the end
-- gives `eof`, the rune 0, as does a rune 0 in the text.
pub mod Progress
use ekanite.Prelude.{
  ℕ, zero, ◌≡◌, Bool, true, false, List, [], ◌∷◌, Option, none, some, Bytes, ◌==◌, ◌||◌,
  if◌then◌else◌,
}
use ekanite.Query.Token.{Token, lookup}

pub record Lexed : Type 0 where
  pub tok : Token
  pub lit : Bytes
  pub rest : Bytes

abbrev pub is_whitespace : ℕ → Bool
is_whitespace ch = ch == b' ' || ch == b'\t' || ch == b'\n' || ch == b'\r'

abbrev pub is_paren : ℕ → Bool
is_paren ch = ch == b'(' || ch == b')'

-- The loop of `lexWhitespace`: what it puts in the buffer, and what is left to read. The rune `eof`
-- ends it and is not put back.
unfoldable pub whitespace_run : Bytes → Bytes × Bytes
whitespace_run [] = ([], [])
whitespace_run (ch ∷ rest) =
    let (run, left) = whitespace_run rest in
    if ch == 0 then ([], rest) else if is_whitespace ch then (ch ∷ run, left) else ([], ch ∷ rest)

-- The loop of `lexString`.
unfoldable pub string_run : Bytes → Bytes × Bytes
string_run [] = ([], [])
string_run (ch ∷ rest) =
    let (run, left) = string_run rest in
    if ch == 0
    then ([], rest)
    else if ch == b':' || is_whitespace ch || is_paren ch
    then ([], ch ∷ rest)
    else (ch ∷ run, left)

-- `lexWhitespace` and `lexString`, from the rune that was put back.
abbrev pub lex_whitespace : ℕ → Bytes → Lexed
lex_whitespace ch rest =
    let (run, left) = whitespace_run rest in record { tok = Token.ws; lit = ch ∷ run; rest = left }

abbrev pub lex_string : ℕ → Bytes → Lexed
lex_string ch rest =
    let (run, left) = string_run rest in record { tok = Token.string; lit = ch ∷ run; rest = left }

-- `if kw, ok := Lookup(lit); ok`
abbrev pub with_keyword : Lexed → Lexed
with_keyword l = elim (lookup l.lit) [ none ↦ l | some kw ↦ record l { tok = kw } ]

abbrev single : Token → ℕ → Bytes → Lexed
single tok ch rest = record { tok = tok; lit = ch ∷ []; rest = rest }

-- `Lex`
unfoldable pub lex : Bytes → Lexed
unfolding whitespace_run string_run lookup
lex [] = record { tok = Token.eof; lit = []; rest = [] }
lex (ch ∷ rest) =
    if is_whitespace ch
    then lex_whitespace ch rest
    else if ch == 0
    then record { tok = Token.eof; lit = []; rest = rest }
    else if ch == b'('
    then single Token.lparen ch rest
    else if ch == b')'
    then single Token.rparen ch rest
    else if ch == b':'
    then single Token.colon ch rest
    else with_keyword (lex_string ch rest)

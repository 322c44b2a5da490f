-- ===== src/Query/Token.antt =====
-- query/token.go. A text is the list of its runes; `strings.ToLower` is modelled on ASCII, and no
-- other rune has a letter of a keyword as its lower case.
use ekanite.Prelude.{
  ℕ, ◌+◌, Bool, true, false, [], ◌∷◌, Option, none, some, Bytes, codes, map, equal, leb, ◌&&◌,
  if◌then◌else◌,
}

-- `keywordBeg` and `keywordEnd` only mark the range of the keywords.
pub data Token : Type 0 where
  illegal eof ws colon string and or not lparen rparen : Token

abbrev pub is_operator : Token → Bool
is_operator Token.and = true
is_operator Token.or = true
is_operator Token.not = true
is_operator _ = false

-- `tokens[t]`
abbrev pub token_string : Token → Bytes
token_string Token.illegal = codes "ILLEGAL"
token_string Token.eof = codes "EOF"
token_string Token.ws = codes "WS"
token_string Token.colon = codes ":"
token_string Token.string = []
token_string Token.and = codes "AND"
token_string Token.or = codes "OR"
token_string Token.not = codes "NOT"
token_string Token.lparen = codes "("
token_string Token.rparen = codes ")"

abbrev pub precedence : Token → ℕ
precedence Token.or = 1
precedence Token.and = 2
precedence Token.not = 3
precedence _ = 0

abbrev lower : ℕ → ℕ
lower c = if leb b'A' c && leb c b'Z' then c + 32 else c

abbrev pub to_lower : Bytes → Bytes
to_lower = map lower

-- `keywords[s]`, as `init` fills the map: the lower case of each keyword's string.
abbrev keywords : Bytes → Option Token
keywords s =
    if equal s (to_lower (token_string Token.and))
    then some Token.and
    else if equal s (to_lower (token_string Token.or))
    then some Token.or
    else if equal s (to_lower (token_string Token.not))
    then some Token.not
    else none

unfoldable pub lookup : Bytes → Option Token
unfolding equal
lookup ident = keywords (to_lower ident)

abbrev pub tokstr : Token → Bytes → Bytes
tokstr t [] = token_string t
tokstr t (c ∷ lit) = c ∷ lit

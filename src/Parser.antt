-- ===== src/Parser.antt =====
-- The package parser: the fields of a log message, by the format of the message. A map of fields is
-- a list of pairs with keys that differ.
pub mod Rfc5424
pub mod Watchguard
mod Tests
use ekanite.Prelude.{
  ℕ, Bool, List, [], ◌∷◌, Option, none, some, Bytes, codes, equal, ◌==◌, if◌then◌else◌, not,
}
use ekanite.Strings.{is_digit}
use ekanite.Regexp.{Regexp, chr, seq, rep, group, is_space}

-- The dynamic types that the parsers put in the map.
pub data Value : Type 0 where
  int : ℕ → Value
  string : Bytes → Value

abbrev pub Fields : Type 0
Fields = List (Bytes × Value)

-- `m[key]`
unfoldable pub lookup : Bytes → Fields → Option Value
unfolding equal
lookup key [] = none
lookup key ((k, v) ∷ rest) = if equal k key then some v else lookup key rest

-- The pieces that the patterns of the package are made of.
infixr 60 ◌▷◌
abbrev pub ◌▷◌ : Regexp → Regexp → Regexp
a ▷ b = seq a b

abbrev pub lit : ℕ → Regexp
lit c = chr (λ x. x == c)

abbrev pub space : Regexp
space = chr is_space

abbrev pub not_space : ℕ → Bool
not_space x = not (x == b' ')

-- `([^ ]+)`
abbrev pub word : Regexp
word = group (rep not_space 1 none)

-- `<([0-9]{1,3})>`
abbrev pub pri : Regexp
pri = lit b'<' ▷ group (rep is_digit 1 (some 3)) ▷ lit b'>'

abbrev pub text_of : Bytes → Regexp → Regexp
text_of [] e = e
text_of (c ∷ s) e = lit c ▷ text_of s e

-- ===== src/DocId.antt =====
-- index.go: `DocID` and the order of `DocIDs`; event.go: the `ID` of an `Event`.
pub mod Chronology
mod Tests
use ekanite.Prelude.{
  ℕ, zero, suc, ◌+◌, ◌-◌, ◌*◌, ◌/◌, ◌%◌, ◌^◌, ◌≡◌, Bool, true, false, ◌&&◌, ◌||◌, List, [], ◌∷◌,
  ◌++◌, Option, none, some, Bytes, ltb, leb, ◌==◌, if◌then◌else◌, length, take, drop,
}

-- An `int64`, where `negsuc n` is -(n + 1).
pub data ℤ : Type 0 where
  pos negsuc : ℕ → ℤ

-- The conversion `uint64(x)`.
unfoldable pub uint64 : ℤ → ℕ
uint64 (pos n) = n % 2 ^ 64
uint64 (negsuc n) = 2 ^ 64 - 1 - n % 2 ^ 64

abbrev pub hex_digit : ℕ → ℕ
hex_digit d = if ltb d 10 then b'0' + d else b'a' + (d - 10)

-- The last `w` hexadecimal digits, with leading zeros: `%016x` of a `uint64` for `w` 16.
unfoldable pub hex : (w n : ℕ) → Bytes
hex zero n = []
hex (suc w) n = hex w (n / 16) ++ hex_digit (n % 16) ∷ []

-- `Event.ID`, of the reference time in nanoseconds and the sequence number.
unfoldable pub id : (nanos sequence : ℤ) → Bytes
id nanos sequence = hex 16 (uint64 nanos) ++ hex 16 (uint64 sequence)

unfoldable pub digit_value : ℕ → Option ℕ
digit_value c =
    if leb b'0' c && leb c b'9'
    then some (c - b'0')
    else if leb b'a' c && leb c b'f'
    then some (c - b'a' + 10)
    else if leb b'A' c && leb c b'F'
    then some (c - b'A' + 10)
    else none

-- The value of hexadecimal digits behind those read so far.
unfoldable pub parse_hex : ℕ → Bytes → Option ℕ
parse_hex acc [] = some acc
parse_hex acc (c ∷ cs) = elim (digit_value c) [ none ↦ none | some d ↦ parse_hex (acc * 16 + d) cs ]

-- `mustParse`, with `strconv.ParseUint(s, 16, 64)`: an error is a panic, `none`.
unfoldable pub must_parse : Bytes → Option ℕ
must_parse [] = none
must_parse (c ∷ cs) = elim (parse_hex 0 (c ∷ cs)) [
  | none ↦ none
  | some w ↦ if ltb w (2 ^ 64) then some w else none
]

-- `s[from:to]` is a panic behind the end of the string.
abbrev pub slice : (from to : ℕ) → Bytes → Option Bytes
slice from to s = if leb to (length s) then some (take (to - from) (drop from s)) else none

abbrev pub or_panic {ℓ κ} : {A : Type ℓ} {B : Type κ} → Option A → (A → Option B) → Option B
or_panic none f = none
or_panic (some a) f = f a

abbrev pub words : Bytes → Option (ℕ × ℕ)
words s =
    or_panic (or_panic (slice 0 16 s) must_parse)
      λ msw. or_panic (or_panic (slice 16 32 s) must_parse) λ lsw. some (msw, lsw)

-- `DocIDs.Less`, of the two identifiers.
unfoldable pub less : Bytes → Bytes → Option Bool
less x y = or_panic (words x) λ (msw₀, lsw₀).
    or_panic (words y) λ (msw₁, lsw₁). some (if msw₀ == msw₁ then ltb lsw₀ lsw₁ else ltb msw₀ msw₁)

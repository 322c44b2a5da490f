-- ===== src/Rfc5424/Delimiter.antt =====
-- rfc5424/delimiter.go: `Delimiter`, which splits a byte stream before each RFC5424 header. The
-- reader behind it is the list of the bytes that it will still give, and then an error.
pub mod Slices
pub mod Headers
pub mod Streams
mod Tests
use ekanite.Prelude.{
  ℕ, ◌+◌, ◌-◌, ◌≤◌, ◌≡◌, Bool, true, false, List, [], ◌∷◌, ◌++◌, Option, none, some, Bytes, leb,
  ◌==◌, if◌then◌else◌, length, take, drop,
}
use ekanite.Strings.{is_digit, is_crlf, trim_right}

pub data FsmState : Type 0 where
  newline pri_start pri_end pri_val0 pri_val1 pri_val2 pri_val3 version post_version : FsmState

pub record Delimiter : Type 0 where
  pub buf : Bytes
  pub pri_len : ℕ
  pub state : FsmState

-- `&Delimiter{…}`: the zero value of the state is `newline`.
abbrev pub new_delimiter : Delimiter
new_delimiter = record { buf = []; pri_len = 0; state = FsmState.newline }

-- `line(stripDelim)`. A slice end below 0 is a panic, `none`.
unfoldable pub line : Bool → Delimiter → Option (Bytes × Delimiter)
line strip_delim d =
    let cut = if strip_delim then d.pri_len + 4 else 0 in
    let end = length d.buf - cut in
    if leb cut (length d.buf)
    then some (
      trim_right is_crlf (take end d.buf),
      record { buf = drop end d.buf; pri_len = 0; state = FsmState.pri_start },
    )
    else none

-- The `switch`, once the byte is in the buffer: the loop goes on, or `ReadLine` returns a line.
pub data Next : Type 0 where
  go_on : Delimiter → Next
  deliver : Delimiter → Next

abbrev go_to : FsmState → Delimiter → Next
go_to st d = go_on (record d { state = st })

-- `case priVal1`, `priVal2` and `priVal3`
abbrev pri_val : ℕ → FsmState → Delimiter → ℕ → Next
pri_val n after d b =
    if is_digit b
    then go_on (record d { pri_len = n; state = after })
    else if b == b'>'
    then go_to FsmState.version d
    else go_on d

unfoldable pub switch : FsmState → Delimiter → ℕ → Next
switch FsmState.newline d b = if b == b'\n' then go_to FsmState.pri_start d else go_on d
switch FsmState.pri_start d b = if b == b'<' then go_to FsmState.pri_val0 d else go_on d
switch FsmState.pri_val0 d b =
    if is_digit b
    then go_on (record d { pri_len = 1; state = FsmState.pri_val1 })
    else go_to FsmState.pri_start d
switch FsmState.pri_val1 d b = pri_val 2 FsmState.pri_val2 d b
switch FsmState.pri_val2 d b = pri_val 3 FsmState.pri_val3 d b
switch FsmState.pri_val3 d b = pri_val 4 FsmState.pri_end d b
switch FsmState.pri_end d b =
    if b == b'>' then go_to FsmState.version d else go_to FsmState.pri_start d
switch FsmState.version d b =
    if is_digit b then go_to FsmState.post_version d else go_to FsmState.pri_start d
switch FsmState.post_version d b = if b == b' ' then deliver d else go_to FsmState.pri_start d

-- One round of the loop, for a byte that was read.
abbrev pub step : Delimiter → ℕ → Next
step d b = switch d.state (record d { buf = d.buf ++ b ∷ [] }) b

-- What `ReadLine` returns: a line and no error, or the reader's error with all that was left.
pub data Read : Type 0 where
  got : Bytes → Delimiter → (rest : Bytes) → Read
  ended : Bytes → Delimiter → Read
  panic : Read

pub delivered : Option (Bytes × Delimiter) → Bytes → Read
delivered none rest = panic
delivered (some (text, d)) rest = got text d rest

pub at_end : Option (Bytes × Delimiter) → Read
at_end none = panic
at_end (some (text, d)) = ended text d

unfoldable pub read_line : Delimiter → Bytes → Read
unfolding line delivered at_end switch
read_line d [] = at_end (line false d)
read_line d (b ∷ bs) = elim (step d b) [
  | go_on d' ↦ read_line d' bs
  | deliver d' ↦ delivered (line true d') bs
]

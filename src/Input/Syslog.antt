-- ===== src/Input/Syslog.antt =====
-- input/delimiter_syslog.go: `SyslogDelimiter`, which is pushed one byte at a time and cuts a stream
-- in front of each line that begins with a priority.
pub mod Places
pub mod Cuts
pub mod Reads
pub mod Vestiges
mod Tests
use ekanite.Prelude.{
  ℕ, Bool, true, false, List, [], ◌∷◌, ◌++◌, Option, none, some, Bytes, ◌==◌, if◌then◌else◌,
}
use mathlib.Core.List.{tail}
use ekanite.Strings.{is_digit, is_crlf, trim_right}
use ekanite.Regexp.{Regexp, chr, seq, rep, end, find_index}

abbrev pub byte : ℕ → Regexp
byte c = chr (λ x. x == c)

-- `<[0-9]{1,3}>`, at the end of the text, and behind a newline.
abbrev pub syslog_regex : Regexp
syslog_regex = seq (byte b'<') (seq (rep is_digit 1 (some 3)) (byte b'>'))

abbrev pub start_regex : Regexp
start_regex = seq syslog_regex end

abbrev pub run_regex : Regexp
run_regex = seq (byte b'\n') syslog_regex

-- `running` says that `regex` is `runRegex`.
pub record SyslogDelimiter : Type 0 where
  pub buffer : Bytes
  pub running : Bool

abbrev pub new_syslog_delimiter : SyslogDelimiter
new_syslog_delimiter = record { buffer = []; running = false }

-- The rest of `Push`, with the byte in the buffer: a message, or `none` where the flag is false.
unfoldable pub look : SyslogDelimiter → SyslogDelimiter × Option Bytes
unfolding find_index
look s = elim (find_index (if s.running then run_regex else start_regex) s.buffer) [
  | none ↦ (s, none)
  | some (before, from) ↦
      if s.running
      then (record s { buffer = tail from }, some (trim_right (λ x. x == b'\r') before))
      else (record { buffer = from; running = true }, none)
]

-- `Push`
unfoldable pub push : SyslogDelimiter → ℕ → SyslogDelimiter × Option Bytes
unfolding look
push s b = look (record s { buffer = s.buffer ++ b ∷ [] })

-- `Vestige`
unfoldable pub vestige : SyslogDelimiter → SyslogDelimiter × Option Bytes
unfolding find_index
vestige s = elim (find_index syslog_regex s.buffer) [
  | none ↦ (record s { buffer = [] }, none)
  | some m ↦ (record s { buffer = [] }, some (trim_right is_crlf s.buffer))
]

-- `Push` of each byte of a stream: the delimiter at the end, and the messages.
unfoldable pub push_all : SyslogDelimiter → Bytes → SyslogDelimiter × List Bytes
unfolding push
push_all s [] = (s, [])
push_all s (b ∷ bs) =
    let p = push s b in let q = push_all p.0 bs in (q.0, elim p.1 [ none ↦ q.1 | some m ↦ m ∷ q.1 ])

-- ===== src/Input/Syslog/Vestiges.antt =====
-- What `Vestige` of input/delimiter_syslog.go gives at the end of a stream.
use ekanite.Prelude.{
  ℕ, zero, suc, ◌-◌, ◌≤◌, ◌≡◌, refl, ap, ◌∙◌, Bool, true, List, [], ◌∷◌, ◌++◌, Option, none, some,
  Bytes, length, All, arith, if◌then◌else◌,
}
use ekanite.Strings.{is_digit, is_crlf, trim_right}
use ekanite.Regexp.{find_index}
use ekanite.Regexp.Matching.{Run}
use ekanite.Regexp.Completeness.{Nowhere, IsPlace, IsSearch, find_index-IsSearch}
use ekanite.Input.Syslog.{SyslogDelimiter, new_syslog_delimiter, syslog_regex, push_all, vestige}
use ekanite.Input.Syslog.Places.{IsHeader}
use ekanite.Input.Syslog.Cuts.{Cuts, last, cut, running, starting}
use ekanite.Input.Syslog.Reads.{Reads, waits, begins, push_all-Reads}

All-Run :
    (p : ℕ → Bool) (lo m : ℕ) (w : Bytes)
    → All (λ x. p x ≡ true) w
    → lo ≤ length w
    → length w ≤ m
    → Run p lo (some m) w
All-Run p lo m [] a l h = omega (arith, l)
All-Run p lo zero (x ∷ w) a l h = absurd (omega (arith, h))
All-Run p lo (suc m) (x ∷ w) (px, a) l h =
    (px, refl, All-Run p (lo - 1) (suc m - 1) w a (omega (arith, l)) (omega (arith, h)))

-- A text with a header in front is not without a match.
header-somewhere : (header rest : Bytes) → IsHeader header → ¬ Nowhere syslog_regex (header ++ rest)
header-somewhere header rest h n = n [] header rest [] refl (
  b'<' ∷ [],
  h.digits ++ b'>' ∷ [],
  [],
  [],
  h.is,
  (b'<', refl, refl, refl),
  (
    h.digits,
    b'>' ∷ [],
    [],
    [],
    refl,
    (All-Run is_digit 1 3 h.digits h.are_digits h.some_digits h.few_digits, refl),
    (b'>', refl, refl, refl),
    refl,
  ),
  refl,
)

-- What is left behind the last cut begins with a header.
Cuts-somewhere :
    (text : Bytes) (messages : List Bytes) (left : Bytes)
    → Cuts text messages left
    → ¬ Nowhere syslog_regex text
    → ¬ Nowhere syslog_regex left
Cuts-somewhere text messages left (last t n) s = s
Cuts-somewhere text messages left (cut before header rest e n h c) s =
    Cuts-somewhere (header ++ rest) _ left c (header-somewhere header rest h)

-- `Vestige`, by what its search gives.
abbrev finish : SyslogDelimiter → Option (Bytes × Bytes) → SyslogDelimiter × Option Bytes
finish s none = (record s { buffer = [] }, none)
finish s (some m) = (record s { buffer = [] }, some (trim_right is_crlf s.buffer))

vestige-finish : (s : SyslogDelimiter) → vestige s ≡ finish s (find_index syslog_regex s.buffer)
unfolding vestige
vestige-finish s = go (find_index syslog_regex s.buffer)
  where
    go :
        (o : Option (Bytes × Bytes))
        → ◌≡◌ {A = SyslogDelimiter × Option Bytes}
            (elim o [
              | none ↦ (record s { buffer = [] }, none)
              | some m ↦ (record s { buffer = [] }, some (trim_right is_crlf s.buffer))
            ])
            (finish s o)
    go none = refl
    go (some m) = refl

place-somewhere :
    (text before from : Bytes) → IsPlace syslog_regex text before from → ¬ Nowhere syslog_regex text
place-somewhere text before from i n =
    n before i.text i.after i.submatches (i.split ∙ ap (λ l. before ++ l) i.here) i.matched

finish-none :
    (s : SyslogDelimiter) (o : Option (Bytes × Bytes))
    → IsSearch syslog_regex s.buffer o
    → Nowhere syslog_regex s.buffer
    → finish s o ≡ (record s { buffer = [] }, none)
finish-none s none i n = refl
finish-none s (some (before, from)) i n = absurd (place-somewhere s.buffer before from i n)

finish-some :
    (s : SyslogDelimiter) (o : Option (Bytes × Bytes))
    → IsSearch syslog_regex s.buffer o
    → ¬ Nowhere syslog_regex s.buffer
    → finish s o ≡ (record s { buffer = [] }, some (trim_right is_crlf s.buffer))
finish-some s none i n = absurd (n i)
finish-some s (some m) i n = refl

-- At the end of a stream the vestige is what the delimiter holds, without newlines at its end, if it
-- has seen a header, and nothing otherwise; in both cases the buffer is empty afterwards.
pub vestige-push_all :
    (stream : Bytes)
    → let s = (push_all new_syslog_delimiter stream).0 in
      vestige s
      ≡ (record s { buffer = [] }, if s.running then some (trim_right is_crlf s.buffer) else none)
vestige-push_all stream = go (push_all new_syslog_delimiter stream) (push_all-Reads stream)
  where
    go :
        (p : SyslogDelimiter × List Bytes)
        → Reads stream p
        → ◌≡◌ {A = SyslogDelimiter × Option Bytes} (vestige p.0) (
          record p.0 { buffer = [] },
          if p.0.running then some (trim_right is_crlf p.0.buffer) else none,
        )
    go p (waits n) =
        vestige-finish (starting stream)
        ∙ finish-none (starting stream) _ (find_index-IsSearch syslog_regex stream) n
    go p (begins junk header rest {messages} {left} e h first c) =
        vestige-finish (running left)
        ∙ finish-some (running left) _ (find_index-IsSearch syslog_regex left)
            (Cuts-somewhere (header ++ rest) messages left c (header-somewhere header rest h))

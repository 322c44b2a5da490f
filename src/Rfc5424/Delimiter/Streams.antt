-- ===== src/Rfc5424/Delimiter/Streams.antt =====
-- `ReadLine` called on a `Delimiter` until its reader ends, as delimiter_test.go does, and the
-- headers for which it cuts the stream in a wrong place.
use ekanite.Prelude.{
  ℕ, zero, suc, ◌≡◌, refl, ◌∙◌, false, true, List, [], ◌∷◌, ◌++◌, append-nil, append_assoc, Option,
  none, some, Bytes, ◌==◌, length, map, All, le→leb, take-length, drop-length, ◌-◌, arith,
}
use mathlib.Core.Option
use ekanite.Strings.{is_digit, is_crlf, trim_right}
use ekanite.Rfc5424.Delimiter.{
  FsmState, Delimiter, new_delimiter, line, switch, step, go_on, got, ended, panic, delivered,
  at_end, read_line,
}
use ekanite.Rfc5424.Delimiter.Headers.{
  at, header, Lacks, IsPri, step-digit, step-gt, read_line-go_on, read_line-tail, read_line-body,
  read_line-frame, line-cut,
}

-- The lines up to the reader's error, the one returned with it last; `none` after a panic or
-- without fuel.
unfoldable pub read_all : ℕ → Delimiter → Bytes → Option (List Bytes)
read_all zero d bs = none
read_all (suc f) d bs = elim (read_line d bs) [
  | got text d' rest ↦ Option.map (λ lines. text ∷ lines) (read_all f d' rest)
  | ended text d' ↦ some (text ∷ [])
  | panic ↦ none
]

pub record Message : Type 0 where
  pub pri : Bytes
  pub ver : ℕ
  pub body : Bytes

abbrev pub encode : Message → Bytes
encode m = header m.pri m.ver ++ m.body

abbrev pub stream : List Message → Bytes
stream [] = []
stream (m ∷ ms) = header m.pri m.ver ++ (m.body ++ stream ms)

-- A priority of one to four digits, a version digit, and no `<` behind the header.
abbrev pub IsPlain : Message → Type 0
IsPlain m = IsPri m.pri × (is_digit m.ver ≡ true) × Lacks b'<' m.body

line-end :
    (p : ℕ) (st : FsmState) (buf : Bytes)
    → line false (at st p buf) ≡ some (trim_right is_crlf buf, at FsmState.pri_start 0 [])
unfolding line
line-end p st buf =
    rw (le→leb 0 (length buf) (omega arith), line)
      (rw (
        take-length (length buf - 0) buf (omega arith),
        drop-length (length buf - 0) buf (omega arith),
      ))

read_line-end :
    (p : ℕ) (st : FsmState) (buf : Bytes)
    → read_line (at st p buf) [] ≡ ended (trim_right is_crlf buf) (at FsmState.pri_start 0 [])
unfolding read_line at_end
read_line-end p st buf = rw (line-end p st buf)

read_all-stream :
    (ms : List Message) (buf body : Bytes) (p : ℕ)
    → Lacks b'<' body
    → All IsPlain ms
    → read_all (suc (length ms)) (at FsmState.pri_start p buf) (body ++ stream ms)
      ≡ some (trim_right is_crlf (buf ++ body) ∷ map (λ m. trim_right is_crlf (encode m)) ms)
unfolding read_all
read_all-stream [] buf body p h hs =
    rw (read_line-body body p buf [] h, read_line-end p FsmState.pri_start (buf ++ body), read_all)
read_all-stream (m ∷ ms) buf body p h (hm, hs) =
    rw (read_line-frame m.pri m.ver p buf body (m.body ++ stream ms) h hm.0 hm.1, read_all)
      (rw (read_all-stream ms (header m.pri m.ver) m.body 0 hm.2 hs))

read_line-newline :
    (lead : Bytes) (p : ℕ) (buf rest : Bytes)
    → Lacks b'\n' lead
    → read_line (at FsmState.newline p buf) (lead ++ (b'\n' ∷ rest))
      ≡ read_line (at FsmState.pri_start p (buf ++ (lead ++ b'\n' ∷ []))) rest
unfolding switch
read_line-newline [] p buf rest h = read_line-go_on _ b'\n' rest refl
read_line-newline (b ∷ lead) p buf rest h =
    read_line-go_on _ b _ (rw h.0)
    ∙ read_line-newline lead p (buf ++ b ∷ []) rest h.1
    ∙ rw append_assoc

-- A new `Delimiter` reads a first line, whatever it holds, its newline, and then messages with plain
-- headers and bodies: `ReadLine`, called until the reader ends, returns the first line and each
-- message with its header, in order and with no trailing carriage returns and newlines.
pub read_all-frames :
    (lead : Bytes) (ms : List Message)
    → Lacks b'\n' lead
    → All IsPlain ms
    → read_all (suc (length ms)) new_delimiter (lead ++ (b'\n' ∷ stream ms))
      ≡ some (trim_right is_crlf (lead ++ b'\n' ∷ []) ∷ map (λ m. trim_right is_crlf (encode m)) ms)
unfolding read_all
read_all-frames lead [] h hs = rw (
  read_line-newline lead 0 [] [] h,
  read_line-end 0 FsmState.pri_start (lead ++ b'\n' ∷ []),
  read_all,
)
read_all-frames lead (m ∷ ms) h (hm, hs) =
    rw
      (
        read_line-newline lead 0 [] (stream (m ∷ ms)) h,
        read_line-frame m.pri m.ver 0 (lead ++ b'\n' ∷ []) [] (m.body ++ stream ms) tt hm.0 hm.1,
        read_all,
      )
      (rw
        (append-nil (lead ++ b'\n' ∷ []), read_all-stream ms (header m.pri m.ver) m.body 0 hm.2 hs))

step-junk :
    (d j : ℕ) (buf : Bytes)
    → is_digit j ≡ false
    → (j == b'>') ≡ false
    → step (at FsmState.pri_val1 1 buf) j ≡ go_on (at FsmState.pri_val1 1 (buf ++ j ∷ []))
unfolding switch
step-junk d j buf h k = rw (h, k)

-- A byte behind the first priority digit that is neither a digit nor `>` does not reset the
-- parser: the header is accepted all the same, and the stream is cut one byte behind its `<`, so
-- that the line ends in `<` and the next one begins with the digit.
pub read_line-junk :
    (a j v p : ℕ) (buf rest : Bytes)
    → is_digit a ≡ true
    → is_digit j ≡ false
    → (j == b'>') ≡ false
    → is_digit v ≡ true
    → read_line (at FsmState.pri_start p buf) (b'<' ∷ a ∷ j ∷ b'>' ∷ v ∷ b' ' ∷ rest)
      ≡ got
          (trim_right is_crlf (buf ++ b'<' ∷ []))
          (at FsmState.pri_start 0 (a ∷ j ∷ b'>' ∷ v ∷ b' ' ∷ []))
          rest
unfolding switch delivered
read_line-junk a j v p buf rest ha hj hn hv =
    read_line-go_on _ b'<' _ refl
    ∙ read_line-go_on _ a _ (step-digit 0 p a _ ha (omega arith))
    ∙ read_line-go_on _ j _ (step-junk a j _ hj hn)
    ∙ read_line-go_on _ b'>' _ (step-gt 1 1 _ (omega arith))
    ∙ read_line-tail 1 v _ rest hv
    ∙ rw (
      regroup,
      line-cut (buf ++ b'<' ∷ []) (a ∷ j ∷ b'>' ∷ v ∷ b' ' ∷ []) 1 FsmState.post_version
          (omega arith),
    )
  where
    regroup :
        (((buf ++ b'<' ∷ []) ++ a ∷ []) ++ j ∷ []) ++ b'>' ∷ [] ++ (v ∷ b' ' ∷ [])
        ≡ (buf ++ b'<' ∷ []) ++ (a ∷ j ∷ b'>' ∷ v ∷ b' ' ∷ [])
    regroup = simp append_assoc

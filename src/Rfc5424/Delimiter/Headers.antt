-- ===== src/Rfc5424/Delimiter/Headers.antt =====
-- How `ReadLine` frames a stream of messages that each begin with a header.
use native.Mathlib.Nat.{add-zero, add-suc, suc-add}
use native.Mathlib.Numerals.{one-add}
use ekanite.Prelude.{
  ℕ, zero, suc, ◌+◌, ◌-◌, ◌≤◌, ◌<◌, ◌≡◌, refl, ap, ◌∙◌, true, false, [], ◌∷◌, ◌++◌, append-nil,
  append_assoc, some, Bytes, ◌==◌, length, length-append, take-append, drop-append, le→leb, All,
  arith,
}
use ekanite.Strings.{is_digit, is_crlf, trim_right}
use ekanite.Rfc5424.Delimiter.{
  FsmState, Delimiter, line, go_on, switch, step, got, delivered, read_line,
}

abbrev pub at : FsmState → ℕ → Bytes → Delimiter
at st p buf = record { buf = buf; pri_len = p; state = st }

-- `<`, the priority, `>`, the version and a space
abbrev pub header : Bytes → ℕ → Bytes
header ds v = b'<' ∷ (ds ++ (b'>' ∷ v ∷ b' ' ∷ []))

abbrev pub Lacks : ℕ → Bytes → Type 0
Lacks b = All (λ x. (x == b) ≡ false)

-- One to four digits.
abbrev pub IsPri : Bytes → Type 0
IsPri ds = All (λ d. is_digit d ≡ true) ds × (1 ≤ length ds) × (length ds ≤ 4)

pub gt-is_digit : is_digit b'>' ≡ false
unfolding is_digit
gt-is_digit = refl

pub read_line-go_on :
    (d : Delimiter) {d' : Delimiter} (b : ℕ) (bs : Bytes)
    → step d b ≡ go_on d'
    → read_line d (b ∷ bs) ≡ read_line d' bs
unfolding read_line
read_line-go_on d b bs e = rw (e, read_line)

-- The state behind `k` digits.
abbrev pub digits_read : ℕ → FsmState
digits_read zero = FsmState.pri_val0
digits_read (suc zero) = FsmState.pri_val1
digits_read (suc (suc zero)) = FsmState.pri_val2
digits_read (suc (suc (suc zero))) = FsmState.pri_val3
digits_read (suc (suc (suc (suc k)))) = FsmState.pri_end

pub step-digit :
    (k p a : ℕ) (buf : Bytes)
    → is_digit a ≡ true
    → k < 4
    → step (at (digits_read k) p buf) a ≡ go_on (at (digits_read (suc k)) (suc k) (buf ++ a ∷ []))
unfolding switch
step-digit zero p a buf h le = rw h
step-digit (suc zero) p a buf h le = rw h
step-digit (suc (suc zero)) p a buf h le = rw h
step-digit (suc (suc (suc zero))) p a buf h le = rw h
step-digit (suc (suc (suc (suc k)))) p a buf h le = absurd (omega arith)

pub step-gt :
    (k p : ℕ) (buf : Bytes)
    → 1 ≤ k
    → step (at (digits_read k) p buf) b'>' ≡ go_on (at FsmState.version p (buf ++ b'>' ∷ []))
unfolding switch
step-gt zero p buf le = absurd (omega arith)
step-gt (suc zero) p buf le = rw gt-is_digit
step-gt (suc (suc zero)) p buf le = rw gt-is_digit
step-gt (suc (suc (suc zero))) p buf le = rw gt-is_digit
step-gt (suc (suc (suc (suc k)))) p buf le = refl

read_line-digits :
    (ds : Bytes) (k : ℕ) (buf rest : Bytes)
    → All (λ d. is_digit d ≡ true) ds
    → k + length ds ≤ 4
    → read_line (at (digits_read k) k buf) (ds ++ rest)
      ≡ read_line (at (digits_read (k + length ds)) (k + length ds) (buf ++ ds)) rest
read_line-digits [] k buf rest h le = rw (append-nil buf, add-zero k)
read_line-digits (a ∷ ds) k buf rest h le =
    read_line-go_on _ a _ (step-digit k k a buf h.0 (omega arith))
    ∙ read_line-digits ds (suc k) (buf ++ a ∷ []) rest h.1 (omega arith)
    ∙ rw (add-suc k (length ds), suc-add k (length ds), append_assoc)

pub step-version :
    (p v : ℕ) (buf : Bytes)
    → is_digit v ≡ true
    → step (at FsmState.version p buf) v ≡ go_on (at FsmState.post_version p (buf ++ v ∷ []))
unfolding switch
step-version p v buf h = rw h

read_line-space :
    (p : ℕ) (buf rest : Bytes)
    → read_line (at FsmState.post_version p buf) (b' ' ∷ rest)
      ≡ delivered (line true (at FsmState.post_version p (buf ++ b' ' ∷ []))) rest
unfolding read_line switch
read_line-space p buf rest = refl

pub read_line-tail :
    (p v : ℕ) (buf rest : Bytes)
    → is_digit v ≡ true
    → read_line (at FsmState.version p buf) (v ∷ b' ' ∷ rest)
      ≡ delivered (line true (at FsmState.post_version p (buf ++ v ∷ b' ' ∷ []))) rest
read_line-tail p v buf rest h =
    read_line-go_on _ v _ (step-version p v buf h)
    ∙ read_line-space p (buf ++ v ∷ []) rest
    ∙ rw append_assoc

read_line-header :
    (ds : Bytes) (v p : ℕ) (buf rest : Bytes)
    → IsPri ds
    → is_digit v ≡ true
    → read_line (at FsmState.pri_start p buf) (header ds v ++ rest)
      ≡ delivered (line true (at FsmState.post_version (length ds) (buf ++ header ds v))) rest
unfolding switch
read_line-header [] v p buf rest h hv = absurd (omega (arith, h.1))
read_line-header (a ∷ ds) v p buf rest h hv =
    read_line-go_on _ b'<' _ refl
    ∙ read_line-go_on _ a _ (step-digit zero p a _ h.0.0 (omega arith))
    ∙ ap (read_line _) (append_assoc ds _ rest)
    ∙ read_line-digits ds 1 _ _ h.0.1 (omega (arith, h.2))
    ∙ read_line-go_on _ b'>' _ (step-gt (1 + length ds) _ _ (omega arith))
    ∙ read_line-tail (1 + length ds) v _ rest hv
    ∙ rw (one-add (length ds)) (simp append_assoc)

-- `line` cuts the buffer in front of its last `pri_len + 4` bytes.
pub line-cut :
    (pre suf : Bytes) (p : ℕ) (st : FsmState)
    → length suf ≡ p + 4
    → line true (at st p (pre ++ suf)) ≡ some (trim_right is_crlf pre, at FsmState.pri_start 0 suf)
unfolding line
line-cut pre suf p st h =
    let n = length-append pre suf in
    rw (le→leb (p + 4) (length (pre ++ suf)) (omega (arith, n)), line)
      (rw (cut n) (rw (take-append pre suf, drop-append pre suf)))
  where
    cut : length (pre ++ suf) ≡ length pre + length suf → length (pre ++ suf) - (p + 4) ≡ length pre
    cut n = omega arith

length-header : (ds : Bytes) (v : ℕ) → length (header ds v) ≡ length ds + 4
length-header ds v = omega (arith, length-append ds (b'>' ∷ v ∷ b' ' ∷ []))

pub read_line-body :
    (body : Bytes) (p : ℕ) (buf rest : Bytes)
    → Lacks b'<' body
    → read_line (at FsmState.pri_start p buf) (body ++ rest)
      ≡ read_line (at FsmState.pri_start p (buf ++ body)) rest
unfolding switch
read_line-body [] p buf rest h = rw append-nil
read_line-body (b ∷ body) p buf rest h =
    read_line-go_on _ b _ (rw h.0)
    ∙ read_line-body body p (buf ++ b ∷ []) rest h.1
    ∙ rw append_assoc

-- In front of the next header `ReadLine` returns the buffer and the bytes up to that header, which
-- hold no `<`, trimmed, and leaves the header in the buffer.
pub read_line-frame :
    (ds : Bytes) (v p : ℕ) (buf body rest : Bytes)
    → Lacks b'<' body
    → IsPri ds
    → is_digit v ≡ true
    → read_line (at FsmState.pri_start p buf) (body ++ (header ds v ++ rest))
      ≡ got (trim_right is_crlf (buf ++ body)) (at FsmState.pri_start 0 (header ds v)) rest
unfolding delivered
read_line-frame ds v p buf body rest h hd hv =
    read_line-body body p buf _ h
    ∙ read_line-header ds v p (buf ++ body) rest hd hv
    ∙ rw (
        line-cut (buf ++ body) (header ds v) (length ds) FsmState.post_version (length-header ds v))

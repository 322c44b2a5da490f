-- ===== src/Rfc5424/Delimiter/Slices.antt =====
-- The slices that `ReadLine` takes of the buffer of a `Delimiter`.
use ekanite.Prelude.{
  ℕ, ◌+◌, ◌-◌, ◌≤◌, ◌≡◌, refl, sym, ap, ◌∙◌, true, false, [], ◌∷◌, ◌++◌, append-nil, append_assoc,
  Bytes, length, length-append, take, drop, take-append-drop, subst, take-length, drop-length,
  arith, Bool-cases, inl, inr, leb,
}
use ekanite.Strings.{is_crlf, trim_right}
use ekanite.Rfc5424.Delimiter.{
  FsmState, Delimiter, line, Next, go_on, deliver, switch, step, Read, got, ended, panic, delivered,
  at_end, read_line,
}

-- What the header read so far says of `pri_len` and of the length of the buffer.
abbrev Fits : FsmState → ℕ → ℕ → Type 0
Fits FsmState.newline p n = Unit
Fits FsmState.pri_start p n = Unit
Fits FsmState.pri_val0 p n = 1 ≤ n
Fits FsmState.pri_val1 p n = (p ≡ 1) × (2 ≤ n)
Fits FsmState.pri_val2 p n = (p ≡ 2) × (3 ≤ n)
Fits FsmState.pri_val3 p n = (p ≡ 3) × (4 ≤ n)
Fits FsmState.pri_end p n = (p ≡ 4) × (5 ≤ n)
Fits FsmState.version p n = p + 2 ≤ n
Fits FsmState.post_version p n = p + 3 ≤ n

abbrev pub IsValid : Delimiter → Type 0
IsValid d = Fits d.state d.pri_len (length d.buf)

-- The buffer grows by the byte; at a delivery the slice end is not negative.
abbrev Steps : Bytes → Next → Type 0
Steps buf (go_on d) = IsValid d × (d.buf ≡ buf)
Steps buf (deliver d) = (d.pri_len + 4 ≤ length d.buf) × (d.buf ≡ buf)

switch-Steps :
    (st : FsmState) (d : Delimiter) (b : ℕ) (n : ℕ)
    → d.state ≡ st
    → length d.buf ≡ n + 1
    → Fits st d.pri_len n
    → Steps d.buf (switch st d b)
unfolding switch
switch-Steps FsmState.newline d b n same e h = ground arith
switch-Steps _ d b n same e h = ground arith

step-Steps : (d : Delimiter) (b : ℕ) → IsValid d → Steps (d.buf ++ b ∷ []) (step d b)
step-Steps d b h =
    switch-Steps d.state _ b (length d.buf) refl (omega (arith, length-append d.buf (b ∷ []))) h

-- What `read_line` may return for a stream, the buffer and the unread input together.
abbrev pub Splits : Bytes → Read → Type 0
Splits stream (got text d rest) =
    (raw : Bytes) × (text ≡ trim_right is_crlf raw) × (stream ≡ raw ++ (d.buf ++ rest)) × IsValid d
Splits stream (ended text d) = (text ≡ trim_right is_crlf stream) × (d.buf ≡ []) × IsValid d
Splits stream panic = ⊥

line-Splits :
    (d : Delimiter) (rest : Bytes)
    → d.pri_len + 4 ≤ length d.buf
    → Splits (d.buf ++ rest) (delivered (line true d) rest)
unfolding line delivered
line-Splits d rest h = elim (Bool-cases (leb (d.pri_len + 4) (length d.buf))) [
  | inl fits ↦
      let end = length d.buf - (d.pri_len + 4) in
      rw fits (
        take end d.buf,
        refl,
        ap (λ l. l ++ rest) (sym (take-append-drop end d.buf))
            ∙ append_assoc (take end d.buf) (drop end d.buf) rest,
        tt,
      )
  | inr over ↦ absurd (ground arith)
]

end-Splits : (d : Delimiter) → Splits (d.buf ++ []) (at_end (line false d))
unfolding line at_end
end-Splits d = elim (Bool-cases (leb 0 (length d.buf))) [
  | inl fits ↦ rw fits (
    ap (trim_right is_crlf) (take-length _ d.buf (omega arith) ∙ sym (append-nil d.buf)),
    drop-length _ d.buf (omega arith),
    tt,
  )
  | inr over ↦ absurd (ground arith)
]

-- From a valid state `ReadLine` does not panic; the line it returns is a part of the stream with
-- its trailing carriage returns and newlines removed; that part, the buffer it leaves and the
-- unread bytes are the stream; and the state it leaves is valid. At the end of the input it returns
-- all that was left in the same way, and the buffer is empty.
pub read_line-Splits :
    (d : Delimiter) (bs : Bytes) → IsValid d → Splits (d.buf ++ bs) (read_line d bs)
unfolding read_line
read_line-Splits d [] v = end-Splits d
read_line-Splits d (b ∷ bs) v =
    subst (λ stream. Splits stream (read_line d (b ∷ bs))) (append_assoc d.buf (b ∷ []) bs)
      (go (step d b) (step-Steps d b v) (λ d'. read_line-Splits d' bs))
  where
    go :
        (next : Next)
        → Steps (d.buf ++ b ∷ []) next
        → ((d' : Delimiter) → IsValid d' → Splits (d'.buf ++ bs) (read_line d' bs))
        → Splits
            ((d.buf ++ b ∷ []) ++ bs)
            (elim next [ go_on d' ↦ read_line d' bs | deliver d' ↦ delivered (line true d') bs ])
    go (go_on d') (v', e) ih = subst (λ buf. Splits (buf ++ bs) (read_line d' bs)) e (ih d' v')
    go (deliver d') (fits, e) ih =
        subst (λ buf. Splits (buf ++ bs) (delivered (line true d') bs)) e (line-Splits d' bs fits)

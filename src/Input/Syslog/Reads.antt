-- ===== src/Input/Syslog/Reads.antt =====
-- The delimiter of input/delimiter_syslog.go from its creation: what it drops, and where it begins.
use ekanite.Prelude.{
  ℕ, ◌≡◌, refl, sym, ap, ◌∙◌, subst, List, [], ◌∷◌, ◌++◌, append_assoc, append-nil, All, Option,
  none, some, Bytes, ◌⊎◌, inl, inr,
}
use ekanite.Regexp.{find_index}
use ekanite.Regexp.Completeness.{Nowhere, IsPlace, IsSearch, find_index-IsSearch}
use ekanite.Regexp.Growing.{snoc-injective, Nowhere-snoc}
use ekanite.Input.Syslog.{
  SyslogDelimiter, new_syslog_delimiter, syslog_regex, start_regex, push, push_all,
}
use ekanite.Input.Syslog.Places.{
  IsHeader, All-at, Matches-IsHeader, Matches-AtEnd, IsHeader-Nowhere,
}
use ekanite.Input.Syslog.Cuts.{Cuts, running, starting, push_all-Cuts}

-- A stream that is pushed to a new delimiter: no header yet, or the first header, in front of which
-- everything is dropped, and the messages from there.
pub data Reads (stream : Bytes) : SyslogDelimiter × List Bytes → Type 0 where
  waits : Nowhere syslog_regex stream → Reads stream (starting stream, [])
  begins :
      (junk header rest : Bytes) {messages : List Bytes} {left : Bytes}
      → stream ≡ junk ++ (header ++ rest)
      → (h : IsHeader header) → Nowhere syslog_regex (junk ++ b'<' ∷ h.digits)
      → Cuts (header ++ rest) messages left
      → Reads stream (running left, messages)

-- One byte more, before the first header: still none, or here it is.
abbrev Started : Bytes → SyslogDelimiter × Option Bytes → Type 0
Started text (s, none) =
    ((s ≡ starting text) × Nowhere syslog_regex text)
    ⊎ ((junk header : Bytes) × (h : IsHeader header) × (text ≡ junk ++ header)
        × Nowhere syslog_regex (junk ++ b'<' ∷ h.digits)
        × (s ≡ running header))
Started text (s, some m) = ⊥

-- The first header.
record First (text junk from : Bytes) : Type 0 where
  is_header : IsHeader from
  split : text ≡ junk ++ from
  first : Nowhere syslog_regex (junk ++ b'<' ∷ is_header.digits)

IsPlace-First :
    (buffer : Bytes) (b : ℕ) (junk from : Bytes)
    → Nowhere syslog_regex buffer
    → IsPlace start_regex (buffer ++ b ∷ []) junk from
    → First (buffer ++ b ∷ []) junk from
IsPlace-First buffer b junk from n i =
    let k = Matches-AtEnd i.text i.after i.submatches i.matched in
    let is : i.text ≡ from = sym (i.here ∙ ap (λ l. i.text ++ l) k.1 ∙ append-nil i.text) in
    let h = subst IsHeader is k.0 in
    let whole : buffer ++ b ∷ [] ≡ (junk ++ b'<' ∷ h.digits) ++ b'>' ∷ [] =
      i.split ∙ ap (λ l. junk ++ l) h.is ∙ sym (append_assoc junk (b'<' ∷ h.digits) (b'>' ∷ [])) in
    record {
      is_header = h;
      split = i.split;
      first =
          subst (Nowhere syslog_regex)
            (snoc-injective buffer (junk ++ b'<' ∷ h.digits) b b'>' whole) n;
    }

push-Started :
    (buffer : Bytes) (b : ℕ)
    → Nowhere syslog_regex buffer
    → Started (buffer ++ b ∷ []) (push (starting buffer) b)
unfolding push
push-Started buffer b n =
    go (find_index start_regex (buffer ++ b ∷ []))
      (find_index-IsSearch start_regex (buffer ++ b ∷ []))
  where
    go :
        (o : Option (Bytes × Bytes))
        → IsSearch start_regex (buffer ++ b ∷ []) o
        → Started (buffer ++ b ∷ []) (elim o [
          | none ↦ (starting (buffer ++ b ∷ []), none)
          | some (before, from) ↦ (running from, none)
        ])
    go none i = inl (refl, Nowhere-snoc syslog_regex (λ w t t' d m. m) buffer b n i)
    go (some (junk, from)) i =
        let k = IsPlace-First buffer b junk from n i in
        inr (junk, from, k.is_header, k.split, k.first, refl)

reads :
    (buffer bs : Bytes)
    → Nowhere syslog_regex buffer
    → Reads (buffer ++ bs) (push_all (starting buffer) bs)
unfolding push_all
reads buffer [] n = subst (λ t. Reads t (starting buffer, [])) (sym (append-nil buffer)) (waits n)
reads buffer (b ∷ bs) n =
    go (push (starting buffer) b) (push-Started buffer b n) (λ t m. reads t bs m)
  where
    go :
        (p : SyslogDelimiter × Option Bytes)
        → Started (buffer ++ b ∷ []) p
        → ((t : Bytes) → Nowhere syslog_regex t → Reads (t ++ bs) (push_all (starting t) bs))
        → let q = push_all p.0 bs in
          Reads (buffer ++ b ∷ bs) (q.0, elim p.1 [ none ↦ q.1 | some m ↦ m ∷ q.1 ])
    go (s, none) (inl (es, m)) ih =
        subst (λ t. Reads t (push_all s bs)) (append_assoc buffer (b ∷ []) bs)
          (subst (λ z. Reads ((buffer ++ b ∷ []) ++ bs) (push_all z bs)) (sym es)
            (ih (buffer ++ b ∷ []) m))
    go (s, none) (inr (junk, header, h, et, first, es)) ih =
        let there = push_all-Cuts header bs (IsHeader-Nowhere header h) in
        let left = (push_all (running header) bs).0.buffer in
        let whole : buffer ++ b ∷ bs ≡ junk ++ (header ++ bs) =
          sym (append_assoc buffer (b ∷ []) bs)
          ∙ ap (λ l. l ++ bs) et
          ∙ append_assoc junk header bs in
        subst (λ z. Reads (buffer ++ b ∷ bs) (push_all z bs)) (sym es)
          (subst (λ z. Reads (buffer ++ b ∷ bs) (z, (push_all (running header) bs).1))
            (ap (λ r. record { buffer = left; running = r }) (sym there.1))
            (begins junk header bs whole h first there.0))
    go (s, some m) e ih = absurd e

empty : Nowhere syslog_regex []
empty before w t d eq m =
    let h = Matches-IsHeader w t d m in
    All-at (λ x. ⊥) before b'<' ((h.digits ++ b'>' ∷ []) ++ t)
      (subst (All (λ x. ⊥)) (eq ∙ ap (λ l. before ++ (l ++ t)) h.is) tt)

-- A new delimiter holds a stream without a header back. Of a stream with one it drops what stands in
-- front of the first, and cuts the rest in front of every later line that begins with a header: the
-- messages are the pieces, in their order, without carriage returns at their ends, no piece has such a
-- line in it, and the last piece is still in the buffer.
pub push_all-Reads : (stream : Bytes) → Reads stream (push_all new_syslog_delimiter stream)
push_all-Reads stream = reads [] stream empty
